-- ===== src/Conn/Receive/Delivered.antt =====
-- The data of a stream from `handleStreamLocked` of qmux/conn.go to `tryRead` of qmux/stream.go.
use qmux_go.Base.{
  ==→eq, Bool-cases, List, [], add64, ap, append-nil, append_assoc, arith, drop, drop-drop, false,
  if◌then◌else◌, inl, inr, length, length-append, length-drop, length-take, length_zero, ltb, none,
  not, refl, sym, take, take-drop_taken, true, ℕ, ◌++◌, ◌+◌, ◌<◌, ◌==◌, ◌||◌, ◌∙◌, ◌∷◌, ◌≡◌, ◌≤◌,
  ◌⊎◌,
}
use qmux_go.Conn.Receive.{
  Growth, buffer_locked, data_read, data_taken, finished, read_locked, read_out, take_out, try_read,
  unread,
}
use qmux_go.Conn.Receive.Buffers.{unread-buffer_locked}
use qmux_go.Conn.State.{Conn, Stream, commit}
use qmux_go.Conn.Streams.{complete_locked, recv_done, send_done}
use qmux_go.Wire.Frame.{StreamFrame}

-- Data that the stream takes, or a read into so many bytes.
pub data DataEvent : Type 0 where
  data_in : StreamFrame → DataEvent
  data_out : ℕ → DataEvent

-- What `tryRead` does on an open stream, with the data that it copies.
unfoldable pub read_some : Conn → Stream → ℕ → Conn × Stream × List ℕ
read_some c s room =
    let (c', s') = complete_locked (read_out c s room).0 (read_out c s room).1 in
    if ltb s.roff (length s.rbuf) then (c', s', take room (unread s)) else (c, s, [])

abbrev pub arrived : List DataEvent → List ℕ
arrived [] = []
arrived (data_in f ∷ events) = f.payload ++ arrived events
arrived (data_out room ∷ events) = arrived events

-- The receiving side is open, and no read part of the buffer reaches its end.
pub record IsReadable (s : Stream) : Type 0 where
  pub can_read : s.can_recv ≡ true
  pub not_cancelled : s.read_cancelled ≡ false
  pub not_reset : s.recv_reset ≡ false
  pub roff_within : (s.roff ≡ 0) ⊎ (s.roff < length s.rbuf)

no_unread : (s : Stream) → IsReadable s → recv_done s ≡ true → length s.rbuf ≤ 0
unfolding recv_done
no_unread s v h = ground (arith, h, v.can_read, v.not_cancelled, v.not_reset, v.roff_within)

no_roff : (s : Stream) → IsReadable s → recv_done s ≡ true → s.roff ≡ 0
unfolding recv_done
no_roff s v h = ground (arith, h, v.can_read, v.not_cancelled, v.not_reset, v.roff_within)

-- A stream that has ended holds nothing unread, so its buffer can be given up.
completed-unread :
    (c : Conn) (s : Stream)
    → IsReadable s
    → IsReadable (complete_locked c s).1 × (unread (complete_locked c s).1 ≡ unread s)
unfolding complete_locked
completed-unread c s v =
    elim (Bool-cases (s.done || (not s.accepted || (not (recv_done s) || not (send_done s))))) [
      | inl h ↦ simp h (v, refl)
      | inr h ↦
          let r : recv_done s ≡ true = ground (arith, h) in
          let z = length_zero s.rbuf (no_unread s v r) in
          simp h (
            record {
              can_read = v.can_read;
              not_cancelled = v.not_cancelled;
              not_reset = v.not_reset;
              roff_within = inl (no_roff s v r);
            },
            ap (drop s.roff) (sym z),
          )
    ]

-- A read takes the first bytes.
pub take_out-unread :
    (s : Stream) (room : ℕ)
    → IsReadable s
    → let n = length (take room (unread s)) in
      IsReadable (take_out s n) × (unread (take_out s n) ≡ drop n (unread s))
unfolding take_out
take_out-unread s room v =
    let n = length (take room (unread s)) in
    let a = length-take room (unread s) in
    let b = length-drop s.roff s.rbuf in
    let d = length-drop n (unread s) in
    elim (Bool-cases (s.roff + n == length s.rbuf)) [
      | inl h ↦ simp h (
        record {
          can_read = v.can_read;
          not_cancelled = v.not_cancelled;
          not_reset = v.not_reset;
          roff_within = inl refl;
        },
        sym (length_zero (drop n (unread s)) (omega (arith, ==→eq _ _ h, b, d))),
      )
      | inr h ↦ simp h (
        record {
          can_read = v.can_read;
          not_cancelled = v.not_cancelled;
          not_reset = v.not_reset;
          roff_within = ground (arith, h, a, b, v.roff_within);
        },
        sym (drop-drop s.roff n s.rbuf),
      )
    ]

pub read_locked_buffer :
    (c : Conn) (s : Stream) (n : ℕ)
    → ((read_locked c s n).1.rbuf ≡ s.rbuf) × ((read_locked c s n).1.roff ≡ s.roff)
unfolding read_locked
read_locked_buffer c s n = ground arith

pub read_locked-IsReadable :
    (c : Conn) (s : Stream) (n : ℕ) → IsReadable s → IsReadable (read_locked c s n).1
unfolding read_locked
read_locked-IsReadable c s n v =
    ground (arith, v.can_read, v.not_cancelled, v.not_reset, v.roff_within)

read_some-unread :
    (c : Conn) (s : Stream) (room : ℕ)
    → IsReadable s
    → IsReadable (read_some c s room).1
      × (unread s ≡ (read_some c s room).2 ++ unread (read_some c s room).1)
unfolding read_some read_out
read_some-unread c s room v =
    let n = length (take room (unread s)) in
    let (w, e) = take_out-unread s room v in
    let t = read_locked c (take_out s n) n in
    let (a, b) = read_locked_buffer c (take_out s n) n in
    let (x, y) = completed-unread t.0 t.1 (read_locked-IsReadable c (take_out s n) n w) in
    elim (Bool-cases (ltb s.roff (length s.rbuf))) [
      | inr h ↦ simp h (v, refl)
      | inl h ↦ simp h (
        x,
        sym (take-drop_taken room (unread s))
            ∙ ap (λ z. take room (unread s) ++ z) (sym (y ∙ rw (a, b) e)),
      )
    ]

module _ ⦃g : Growth⦄ where
  unfoldable pub data_run : Conn → Stream → List DataEvent → Stream × List ℕ
  data_run c s [] = (s, [])
  data_run c s (data_in f ∷ events) =
      let (c', s') = complete_locked (data_taken c s f).0 (data_taken c s f).1 in
      data_run c' s' events
  data_run c s (data_out room ∷ events) =
      let (c', s', p) = read_some c s room in let (t, out) = data_run c' s' events in (t, p ++ out)

  -- The stream with the data's end, before the data is buffered.
  abbrev marked : Stream → StreamFrame → Stream
  marked s f = record s { recv_offset = add64 s.recv_offset (length f.payload); fin_recv = f.fin }

  data_taken_buffer :
      (c : Conn) (s : Stream) (f : StreamFrame)
      → s.read_cancelled ≡ false
      → ((data_taken c s f).1.rbuf ≡ (buffer_locked (marked s f) f.payload).rbuf)
        × ((data_taken c s f).1.roff ≡ (buffer_locked (marked s f) f.payload).roff)
  unfolding data_taken
  data_taken_buffer c s f h = ground (arith, h)

  pub data_taken-IsReadable :
      (c : Conn) (s : Stream) (f : StreamFrame) → IsReadable s → IsReadable (data_taken c s f).1
  unfolding data_taken buffer_locked
  data_taken-IsReadable c s f v = ground (
    arith,
    v.can_read,
    v.not_cancelled,
    v.not_reset,
    v.roff_within,
    length-append s.rbuf f.payload,
  )

  pub data_taken-unread :
      (c : Conn) (s : Stream) (f : StreamFrame)
      → IsReadable s
      → unread (data_taken c s f).1 ≡ unread s ++ f.payload
  data_taken-unread c s f v =
      let (a, b) = data_taken_buffer c s f v.not_cancelled in
      rw (a, b) (unread-buffer_locked (marked s f) f.payload (ground (arith, v.roff_within)))

  -- For a stream whose receiving side is open, with a read offset of 0 or within the buffer,
  -- whatever data it takes and whatever reads of it there are, in any order, what is read and
  -- then what is unread is what was unread before and then all of the data that arrived, in
  -- order.
  pub data_run_in_order :
      (c : Conn) (s : Stream) (events : List DataEvent)
      → IsReadable s
      → unread s ++ arrived events ≡ (data_run c s events).1 ++ unread (data_run c s events).0
  unfolding data_run
  data_run_in_order c s [] v = append-nil (unread s)
  data_run_in_order c s (data_in f ∷ events) v =
      let t = data_taken c s f in
      let (w, e) = completed-unread t.0 t.1 (data_taken-IsReadable c s f v) in
      sym (append_assoc (unread s) f.payload (arrived events))
      ∙ ap (λ z. z ++ arrived events) (sym (e ∙ data_taken-unread c s f v))
      ∙ data_run_in_order (complete_locked t.0 t.1).0 (complete_locked t.0 t.1).1 events w
  data_run_in_order c s (data_out room ∷ events) v =
      let t = read_some c s room in
      let (w, e) = read_some-unread c s room v in
      ap (λ z. z ++ arrived events) e
      ∙ append_assoc t.2 (unread t.1) (arrived events)
      ∙ ap (λ z. t.2 ++ z) (data_run_in_order t.0 t.1 events w)
      ∙ sym (append_assoc t.2 _ _)

-- On an open connection and stream, `tryRead` stores and returns what `read_some` says.
try_read-read_some :
    (c : Conn) (s : Stream) (room : ℕ)
    → c.close_err ≡ none
    → s.recv_err ≡ none
    → s.roff < length s.rbuf
    → try_read c s room
      ≡ (commit ((read_some c s room).0, (read_some c s room).1), data_read (read_some c s room).2)
unfolding try_read read_some finished
try_read-read_some c s room e f h = ground (arith, e, f, h)
