-- ===== src/Conn/Calls/Opens.antt =====
-- What the calls that open a stream return: `open` of qmux/conn.go.
use qmux_go.Base.{
  All, Any, List, [], ap, arith, inl, inr, none, refl, some, true, ℕ, ◌<◌, ◌^◌, ◌∙◌, ◌∷◌, ◌≡◌, ◌⊎◌,
}
use qmux_go.Conn.Calls.{Glance, OpenEnd, has_stream, open_loop, open_round}
use qmux_go.Conn.Ids.{Dir, initiated_locally, stream_dir, stream_id, stream_id_lem, stream_index}
use qmux_go.Conn.State.{Conn, Stream, at, find}
use qmux_go.Conn.Streams.{
  Attempt, dangling, failed, fresh_stream, got, is_two_way, new_stream, try_open, wait_on,
}

-- What a round of `open` gives: the stream that it opens, which this endpoint has initiated in the
-- direction, can send, and can receive unless it is unidirectional.
pub record IsOpenedAt (dir : Dir) (s : Stream) (l : Glance) : Type 0 where
  pub still_open : l.conn.close_err ≡ none
  pub within : (at dir l.conn.outgoing).next < (at dir l.conn.outgoing).max
  pub next_index : stream_index s.id ≡ (at dir l.conn.outgoing).next
  pub of_direction : stream_dir s.id ≡ dir
  pub local : initiated_locally l.conn.is_server s.id ≡ true
  pub sends : s.can_send ≡ true
  pub receives : s.can_recv ≡ is_two_way dir
  pub stored : find s.id (try_open l.conn dir).0.heap ≡ some s

-- The next identifiers of both directions are below the largest.
abbrev pub IsNumbered : Dir → Glance → Type 0
IsNumbered dir l = (at dir l.conn.outgoing).next < 2 ^ 62

pub open_round-has :
    (l : Glance) (a : Attempt) (others : OpenEnd) (s : Stream)
    → open_round l a others ≡ has_stream s
    → (a ≡ got s) ⊎ (others ≡ has_stream s)
unfolding open_round
open_round-has l (got t) others s e = inl (ground (arith, e))
open_round-has l (wait_on k) others s e = ground (arith, e)
open_round-has l (failed x) others s e = ground (arith, e)
open_round-has l dangling others s e = ground (arith, e)

fresh_sides :
    (c : Conn) (index : ℕ) (dir : Dir)
    → index < 2 ^ 62
    → let s = fresh_stream c (stream_id c.is_server index dir true) in
      (s.can_send ≡ true) × (s.can_recv ≡ is_two_way dir)
unfolding fresh_stream
fresh_sides c index dir h =
    let (i, d, l) = stream_id_lem c.is_server index dir true h in rw (d, l) (ground arith)

try_open-got :
    (c : Conn) (dir : Dir) (s : Stream)
    → (try_open c dir).1 ≡ got s
    → (c.close_err ≡ none)
      × ((at dir c.outgoing).next < (at dir c.outgoing).max)
      × (s ≡ record (fresh_stream c (stream_id c.is_server (at dir c.outgoing).next dir true)) {
        accepted = true;
      })
      × (find s.id (try_open c dir).0.heap ≡ some s)
unfolding try_open new_stream find
try_open-got c dir s e = ground (arith, e)

try_open-IsOpenedAt :
    (l : Glance) (dir : Dir) (s : Stream)
    → IsNumbered dir l
    → (try_open l.conn dir).1 ≡ got s
    → IsOpenedAt dir s l
try_open-IsOpenedAt l dir s h e =
    let c = l.conn in
    let n = (at dir c.outgoing).next in
    let (o, w, q, f) = try_open-got c dir s e in
    let (i, d, y) = stream_id_lem c.is_server n dir true h in
    let (a, b) = fresh_sides c n dir h in
    let z : s.id ≡ stream_id c.is_server n dir true =
      ap (λ t. t.id) q ∙ unfold fresh_stream in refl in
    record {
      still_open = o;
      within = w;
      next_index = ap stream_index z ∙ i;
      of_direction = ap stream_dir z ∙ d;
      local = ap (initiated_locally c.is_server) z ∙ y;
      sends = ap (λ t. t.can_send) q ∙ a;
      receives = ap (λ t. t.can_recv) q ∙ b;
      stored = f;
    }

-- If `open` returns a stream, while fewer than 2^62 were opened, then some round of its loop
-- found the connection open and the peer's limit not reached, and the stream is the next one of
-- the direction that this endpoint initiates: it is stored, it can send, and it can receive if it
-- is bidirectional.
pub open_loop-IsOpenedAt :
    (looks : List Glance) (dir : Dir) (s : Stream)
    → All (IsNumbered dir) looks
    → open_loop looks dir ≡ has_stream s
    → Any (IsOpenedAt dir s) looks
unfolding open_loop
open_loop-IsOpenedAt [] dir s h e = ground (arith, e)
open_loop-IsOpenedAt (l ∷ looks) dir s (h, hs) e =
    elim (open_round-has l (try_open l.conn dir).1 (open_loop looks dir) s e) [
      | inl r ↦ inl (try_open-IsOpenedAt l dir s h r)
      | inr r ↦ inr (open_loop-IsOpenedAt looks dir s hs r)
    ]
