-- ===== src/Conn/Send/Final.antt =====
-- `finish` and `closeSend` of qmux/stream.go.
use qmux_go.Base.{
  List, Option, Option-cases, [], arith, if-elim, inl, inr, none, refl, some, true, ℕ, ◌≡◌,
}
use qmux_go.Conn.Failure.{Failure, write_on_closed}
use qmux_go.Conn.Heap.{Keeps, complete_locked-Keeps, find-commit}
use qmux_go.Conn.Receive.{finished}
use qmux_go.Conn.Send.{
  cancel, chunk_error, chunk_of, close_send, fin_frame, fin_marked, finish, reserve,
  send_err_locked, write_chunk,
}
use qmux_go.Conn.State.{Conn, Stream, find}
use qmux_go.Conn.Streams.{complete_locked}
use qmux_go.Wire.Frame.{StreamFrame}

-- What the calls on a stream that was ended report.
abbrev pub refusal : Option Failure → ℕ → Failure
refusal (some e) id = e
refusal none id = write_on_closed id

-- A stream that was ended, and not reset.
record IsEnded (s t : Stream) : Type 0 where
  same_id : t.id ≡ s.id
  is_ended : t.fin_sent ≡ true
  not_reset : t.send_err ≡ none

ended-refuses :
    (d : Conn) (s t : Stream) → IsEnded s t → send_err_locked d t ≡ some (refusal d.close_err s.id)
unfolding send_err_locked
ended-refuses d s t v = elim (Option-cases d.close_err) [
  | inr (e, h) ↦ rw h (ground (arith, h))
  | inl h ↦ rw (h, v.not_reset, v.is_ended, v.same_id) refl
]

ended-finish : (d : Conn) (s t : Stream) → IsEnded s t → (close_send d t).1 ≡ none
unfolding close_send finish fin_frame
ended-finish d s t v = elim (Option-cases d.close_err) [
  | inr (e, h) ↦ ground (arith, h)
  | inl h ↦ ground (arith, h, v.is_ended)
]

refused :
    (d : Conn) (s : Stream) (p : List ℕ) (e : Failure)
    → send_err_locked d s ≡ some e
    → write_chunk d s p ≡ (d, s, chunk_error e)
unfolding write_chunk reserve chunk_of
refused d s p e h = ground (arith, h)

close_send_frame :
    (c : Conn) (s : Stream) (f : StreamFrame)
    → (close_send c s).1 ≡ some f
    → ((close_send c s).0 ≡ finished (c, fin_marked s))
      × (f ≡ record { stream_id = s.id; offset = s.send_offset; payload = []; fin = true })
      × (s.send_err ≡ none)
unfolding close_send finish fin_frame
close_send_frame c s f h = ground arith

marked-IsEnded : (s : Stream) → s.send_err ≡ none → IsEnded s (fin_marked s)
unfolding fin_marked cancel
marked-IsEnded s h = record { same_id = refl; is_ended = refl; not_reset = h }

complete_locked-IsEnded :
    (c : Conn) (s t : Stream) → IsEnded s t → IsEnded s (complete_locked c t).1
unfolding complete_locked
complete_locked-IsEnded c s t v =
    if-elim (λ (r : Conn × Stream). IsEnded s r.1) _ _ _
      (record { same_id = v.same_id; is_ended = v.is_ended; not_reset = v.not_reset })
      (record { same_id = v.same_id; is_ended = v.is_ended; not_reset = v.not_reset })

-- If `closeSend` on a stream of the connection sends a frame, it is an empty one that ends the
-- stream at the offset of the data sent so far; and the stream that the connection then holds,
-- whether it was completed or not, sends no more: in any state of the connection, `writeChunk` on
-- it changes nothing and gives the connection's error, or else the error of a write on a closed
-- stream, and `closeSend` sends nothing.
pub close_send_once :
    (c d : Conn) (s : Stream) (f : StreamFrame) (p : List ℕ)
    → find s.id c.heap ≡ some s
    → (close_send c s).1 ≡ some f
    → (f ≡ record { stream_id = s.id; offset = s.send_offset; payload = []; fin = true })
      × ((t : Stream) × (find s.id (close_send c s).0.heap ≡ some t)
          × (write_chunk d t p ≡ (d, t, chunk_error (refusal d.close_err s.id)))
          × ((close_send d t).1 ≡ none))
unfolding finished
close_send_once c d s f p e h =
    let (a, b, n) = close_send_frame c s f h in
    let m = marked-IsEnded s n in
    let r = complete_locked c (fin_marked s) in
    let k = complete_locked-Keeps c (fin_marked s) in
    let v : IsEnded s r.1 = complete_locked-IsEnded c s (fin_marked s) m in
    let k' : Keeps c s r = record {
      heap_kept = k.heap_kept;
      config_kept = k.config_kept;
      id_kept = v.same_id;
    } in
    (
      b,
      (
        r.1,
        rw a (find-commit s.id c s r e k'),
        refused d r.1 p _ (ended-refuses d s r.1 v),
        ended-finish d s r.1 v,
      ),
    )
