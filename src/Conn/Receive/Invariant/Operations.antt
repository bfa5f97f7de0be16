-- ===== src/Conn/Receive/Invariant/Operations.antt =====
-- The receiving operations of qmux/conn.go and qmux/stream.go on a whole connection.
use qmux_go.Base.{
  Bool-cases, arith, inl, inr, is_some, length, some, sub64, ℕ, ◌+◌, ◌-◌, ◌<◌, ◌^◌, ◌||◌, ◌≡◌, ◌≤◌,
}
use qmux_go.Conn.Heap.{Keeps, Keeps-trans, complete_locked-Keeps}
use qmux_go.Conn.Receive.{
  Growth, accept_data, accept_reset, cancel_read, data_taken, finished, read_out, reading_discarded,
  reset_taken, stream_data, stream_reset, try_peek, try_read,
}
use qmux_go.Conn.Receive.Buffers.{unread_length}
use qmux_go.Conn.Receive.Cases.{
  stream_data_cases, stream_reset_cases, try_peek_cases, try_read_cases,
}
use qmux_go.Conn.Receive.Flow.{InRange}
use qmux_go.Conn.Receive.Invariant.Heap.{
  IsConn, IsConn-IsPair, IsPair, buffered, commit-IsConn, total_received,
}
use qmux_go.Conn.Receive.Invariant.Steps.{
  complete_locked-IsPair, data_taken-IsPair, read_out-IsPair, reading_discarded-IsPair,
  recv_max_small, reset_taken-IsPair,
}
use qmux_go.Conn.State.{Conn, Stream, commit, find}
use qmux_go.Conn.Streams.{complete_locked, recv_done}
use qmux_go.Wire.Frame.{ResetStream, StreamFrame}
use qmux_go.Wire.Reader.{rest}

-- The operations that end in `completeLocked`.
finished-IsConn :
    (c : Conn) (s : Stream) (r : Conn × Stream)
    → find s.id c.heap ≡ some s
    → IsConn c
    → IsPair (buffered c.heap - unread_length s) (total_received c.heap - s.recv_offset) r.0 r.1
      × Keeps c s r
    → IsConn (finished r)
unfolding finished
finished-IsConn c s r e v (p, k) =
    commit-IsConn c s (complete_locked r.0 r.1) e v
      (Keeps-trans c s r (complete_locked r.0 r.1) k (complete_locked-Keeps r.0 r.1))
      (complete_locked-IsPair _ _ r.0 r.1 p)

-- A change of a stream that its receiving side does not notice.
pub record SameReceiving (s t : Stream) : Type 0 where
  pub id_same : t.id ≡ s.id
  pub can_recv_same : t.can_recv ≡ s.can_recv
  pub rbuf_same : t.rbuf ≡ s.rbuf
  pub roff_same : t.roff ≡ s.roff
  pub recv_offset_same : t.recv_offset ≡ s.recv_offset
  pub recv_max_same : t.recv_max ≡ s.recv_max
  pub read_offset_same : t.read_offset ≡ s.read_offset
  pub recv_reset_same : t.recv_reset ≡ s.recv_reset
  pub read_cancelled_same : t.read_cancelled ≡ s.read_cancelled

pub SameReceiving-IsPair :
    (rest others : ℕ) (c : Conn) (s t : Stream)
    → SameReceiving s t
    → IsPair rest others c s
    → IsPair rest others c t × Keeps c s (c, t)
SameReceiving-IsPair rest others c s t h v = ground arith

module _ (c : Conn) (s : Stream) (e : find s.id c.heap ≡ some s) (r : InRange c)
    (v : IsConn c) where
  abbrev pair :
      IsPair (buffered c.heap - unread_length s) (total_received c.heap - s.recv_offset) c s
  pair = IsConn-IsPair c s e v

  pub update-IsConn : (t : Stream) → SameReceiving s t → IsConn (commit (c, t))
  update-IsConn t h =
      let (p, k) = SameReceiving-IsPair _ _ c s t h pair in commit-IsConn c s (c, t) e v k p

  pub finished_update-IsConn : (t : Stream) → SameReceiving s t → IsConn (finished (c, t))
  finished_update-IsConn t h =
      finished-IsConn c s (c, t) e v (SameReceiving-IsPair _ _ c s t h pair)

  -- STREAM frames.
  pub stream_data-IsConn :
      ⦃g : Growth⦄ (f : StreamFrame) → length f.payload < 2 ^ 62 → IsConn (stream_data c s f).0
  unfolding accept_data
  stream_data-IsConn f n = elim (stream_data_cases c s f) [
    | inl h ↦ rw h.0 v
    | inr (c', h) ↦
        let fits : s.recv_offset + length f.payload ≤ s.recv_max =
          omega (arith, h.fits, recv_max_small _ _ c s r pair, pair.receiving.within) in
        rw h.result (
          finished-IsConn c s (data_taken c' s f) e v
            (data_taken-IsPair _ _ c c' s f r n h.not_reset fits h.counted pair))
  ]

  -- RESET_STREAM frames.
  pub stream_reset-IsConn :
      (f : ResetStream) → f.final_size < 2 ^ 62 → IsConn (stream_reset c s f).0
  unfolding accept_reset
  stream_reset-IsConn f n = elim (stream_reset_cases c s f) [
    | inl h ↦ rw h.0 v
    | inr (c', h) ↦
        let skip : sub64 f.final_size s.recv_offset ≡ f.final_size - s.recv_offset =
          omega (arith, h.not_less) in
        rw h.result (
          finished-IsConn c s (reset_taken c' s f) e v
            (reset_taken-IsPair _ _ c c' s f r h.not_less h.fits (rw skip at h.counted) pair))
  ]

  pub try_read-IsConn : (room : ℕ) → IsConn (try_read c s room).0
  try_read-IsConn room = elim (try_read_cases c s room) [
    | inl h ↦ rw h v
    | inr (inl (left, h)) ↦
        rw h
          (finished-IsConn c s (read_out c s room) e v (read_out-IsPair _ _ c s room r left pair))
    | inr (inr h) ↦ rw h (update-IsConn _ (ground arith))
  ]

  pub try_peek-IsConn : (room : ℕ) → IsConn (try_peek c s room).0
  try_peek-IsConn room = elim (try_peek_cases c s room) [
    | inl h ↦ rw h v
    | inr h ↦ rw h (update-IsConn _ (ground arith))
  ]

  pub cancel_read-IsConn : (code : ℕ) → IsConn (cancel_read c s code)
  unfolding cancel_read
  cancel_read-IsConn code =
      elim (Bool-cases (is_some c.close_err || (is_some s.recv_err || recv_done s))) [
        | inl h ↦ rw h v
        | inr h ↦ rw h (
            finished-IsConn c s (reading_discarded c s code) e v
              (reading_discarded-IsPair _ _ c s code r pair))
      ]
