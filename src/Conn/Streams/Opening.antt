-- ===== src/Conn/Streams/Opening.antt =====
-- `streamLocked` of qmux/conn.go on the streams that the peer opens.
use qmux_go.Base.{
  Bool, List, Option, [], append-nil, append_assoc, arith, false, refl, suc, sym, zero, ℕ, ◌++◌,
  ◌+◌, ◌-◌, ◌<◌, ◌∙◌, ◌∷◌, ◌≡◌,
}
use qmux_go.Conn.Ids.{Dir, initiated_locally, one_way, stream_dir, stream_id, stream_index, two_way}
use qmux_go.Conn.State.{Conn, Stream, at}
use qmux_go.Conn.Streams.{fresh_stream, new_stream, open_incoming, open_next, stream_locked}
use qmux_go.Wire.Error.{ok}

-- The identifiers of `n` streams of the peer, from an index.
abbrev pub peer_ids : Bool → Dir → ℕ → ℕ → List ℕ
peer_ids is_server dir index zero = []
peer_ids is_server dir index (suc n) =
    stream_id is_server index dir false ∷ peer_ids is_server dir (index + 1) n

-- `n` streams of the peer were opened and wait to be accepted, in order.
pub record IsOpened (dir : Dir) (n : ℕ) (c c' : Conn) : Type 0 where
  pub next_after : (at dir c'.incoming).next ≡ (at dir c.incoming).next + n
  pub limit_kept : (at dir c'.incoming).max ≡ (at dir c.incoming).max
  pub queued_after :
      (at dir c'.incoming).queue
      ≡ (at dir c.incoming).queue ++ peer_ids c.is_server dir (at dir c.incoming).next n
  pub same_role : c'.is_server ≡ c.is_server

open_next-IsOpened : (dir : Dir) (c : Conn) → IsOpened dir 1 c (open_next c dir)
unfolding open_next fresh_stream new_stream
open_next-IsOpened two_way c = record {
  next_after = refl;
  limit_kept = refl;
  queued_after = refl;
  same_role = refl;
}
open_next-IsOpened one_way c = record {
  next_after = refl;
  limit_kept = refl;
  queued_after = refl;
  same_role = refl;
}

IsOpened-suc :
    (dir : Dir) (n : ℕ) (c d e : Conn)
    → IsOpened dir 1 c d
    → IsOpened dir n d e
    → IsOpened dir (suc n) c e
IsOpened-suc dir n c d e v w = record {
  next_after = omega (arith, v.next_after, w.next_after);
  limit_kept = w.limit_kept ∙ v.limit_kept;
  queued_after = rw w.queued_after (
      rw v.queued_after (
        rw v.same_role (
          rw v.next_after (
            append_assoc (at dir c.incoming).queue
              (peer_ids c.is_server dir (at dir c.incoming).next 1)
              (peer_ids c.is_server dir ((at dir c.incoming).next + 1) n)))));
  same_role = w.same_role ∙ v.same_role;
}

open_incoming-IsOpened : (n : ℕ) (dir : Dir) (c : Conn) → IsOpened dir n c (open_incoming n c dir)
unfolding open_incoming
open_incoming-IsOpened zero dir c = record {
  next_after = omega arith;
  limit_kept = refl;
  queued_after = sym (append-nil _);
  same_role = refl;
}
open_incoming-IsOpened (suc n) dir c =
    IsOpened-suc dir n c (open_next c dir) _ (open_next-IsOpened dir c)
      (open_incoming-IsOpened n dir (open_next c dir))

stream_locked_state :
    (c c' : Conn) (id : ℕ) (recv : Bool) (s : Option Stream)
    → initiated_locally c.is_server id ≡ false
    → stream_locked c id recv ≡ ok (c', s)
    → (c'
        ≡ open_incoming
            (stream_index id + 1 - (at (stream_dir id) c.incoming).next)
            c
            (stream_dir id))
      × (stream_index id < (at (stream_dir id) c.incoming).max)
unfolding stream_locked
stream_locked_state c c' id recv s l e = ground (arith, l)

-- If `streamLocked` gives no error for a stream that the peer opens, the stream's index is below
-- the limit and below the next index afterwards, the limit is unchanged, and the streams from the
-- next index before to that one were queued for accepting, in order.
pub stream_locked_opens :
    (c c' : Conn) (id : ℕ) (recv : Bool) (s : Option Stream)
    → initiated_locally c.is_server id ≡ false
    → stream_locked c id recv ≡ ok (c', s)
    → (stream_index id < (at (stream_dir id) c.incoming).max)
      × (stream_index id < (at (stream_dir id) c'.incoming).next)
      × IsOpened (stream_dir id) (stream_index id + 1 - (at (stream_dir id) c.incoming).next) c c'
stream_locked_opens c c' id recv s l e =
    let (k, m) = stream_locked_state c c' id recv s l e in
    let dir = stream_dir id in
    let n = stream_index id + 1 - (at dir c.incoming).next in
    let v : IsOpened dir n c c' = rw k (open_incoming-IsOpened n dir c) in
    (m, omega (arith, v.next_after), v)
