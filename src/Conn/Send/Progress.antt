-- ===== src/Conn/Send/Progress.antt =====
-- The loop of `write` of qmux/stream.go comes to an end when there is credit.
use qmux_go.Base.{
  All, List, [], arith, drop, false, length, length-drop, length-take, min, none, refl, take, ℕ,
  ◌<◌, ◌==◌, ◌∷◌, ◌≡◌, ◌≤◌,
}
use qmux_go.Conn.Send.{
  chunk, chunk_of, max_stream_payload, reserve, send_credit_locked, send_err_locked, write_chunk,
}
use qmux_go.Conn.Send.Whole.{Round, no_credit, turn_of, whole, write_loop}
use qmux_go.Conn.State.{Conn, Stream}
use qmux_go.Wire.Frame.{StreamFrame}

-- `writeChunk` has its turn while the stream can send, there is credit, and the transport takes the
-- record.
abbrev pub IsLively : Round → Type 0
IsLively (no_credit e) = ⊥
IsLively (turn_of c s lost) =
    (send_err_locked c s ≡ none) × (0 < send_credit_locked c s) × (lost ≡ none)

lively_chunk :
    (c : Conn) (s : Stream) (b : ℕ) (p : List ℕ)
    → send_err_locked c s ≡ none
    → 0 < send_credit_locked c s
    → (f : StreamFrame) × ((write_chunk c s (b ∷ p)).2 ≡ chunk f) × (0 < length f.payload)
lively_chunk c s b p e k =
    let n = min (min (length (b ∷ p)) max_stream_payload) (send_credit_locked c s) in
    let h : (n == 0) ≡ false = ground (arith, k) in
    (
      record { stream_id = s.id; offset = s.send_offset; payload = take n (b ∷ p); fin = false },
      unfold write_chunk reserve chunk_of in ground (arith, e, h),
      omega (arith, length-take n (b ∷ p), k),
    )

-- If the stream can send, there is credit and the transport takes the record at every turn of
-- `write`, then `write` ends with all of the data sent after at most as many chunks as there are
-- bytes.
pub write_loop-whole :
    (rounds : List Round) (p : List ℕ)
    → All IsLively rounds
    → length p ≤ length rounds
    → (write_loop rounds p).2 ≡ whole
unfolding write_loop
write_loop-whole [] [] v h = refl
write_loop-whole [] (b ∷ p) v h = absurd (omega (arith, h))
write_loop-whole (r ∷ rounds) [] v h = refl
write_loop-whole (no_credit e ∷ rounds) (b ∷ p) (x, v) h = absurd x
write_loop-whole (turn_of c s lost ∷ rounds) (b ∷ p) ((e, k, t), v) h =
    let (f, g, n) = lively_chunk c s b p e k in
    rw (g, t, write_loop)
      (write_loop-whole rounds (drop (length f.payload) (b ∷ p)) v
        (omega (arith, length-drop (length f.payload) (b ∷ p), n, h)))
