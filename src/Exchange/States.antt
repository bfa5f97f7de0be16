-- ===== src/Exchange/States.antt =====
-- What the operations of qmux/conn.go and qmux/stream.go make of an open stream that is neither
-- reset nor ended.
use qmux_go.Base.{
  List, add64, ap, arith, false, length, ltb, min, none, refl, some, subst, true, ℕ, ◌++◌, ◌+◌, ◌<◌,
  ◌==◌, ◌^◌, ◌||◌, ◌∙◌, ◌≡◌, ◌≤◌,
}
use qmux_go.Conn.Handle.{handle_frame, handle_ready, on_stream}
use qmux_go.Conn.Receive.{
  Growth, accept_data, buffer_locked, data_taken, fine, finished, received_locked, stream_data,
  unread,
}
use qmux_go.Conn.Receive.Delivered.{IsReadable, data_taken-IsReadable, data_taken-unread}
use qmux_go.Conn.Send.{
  chunk_of, max_stream_payload, reserve, reserved, send_credit_locked, send_err_locked, write_chunk,
}
use qmux_go.Conn.Signal.{broadcast}
use qmux_go.Conn.State.{Conn, Stream, commit, find}
use qmux_go.Conn.Streams.{complete_locked, recv_done}
use qmux_go.Exchange.Route.{IsRoute, stream_locked-IsRoute}
use qmux_go.Wire.Error.{ok}
use qmux_go.Wire.Frame.{StreamFrame, frame, stream}

-- The sending side is open.
pub record IsSendable (s : Stream) : Type 0 where
  pub no_error : s.send_err ≡ none
  pub no_fin : s.fin_sent ≡ false

-- The receiving side is open and no final size is known.
pub record IsUnended (t : Stream) : Type 0 where
  pub readable : IsReadable t
  pub no_fin : t.fin_recv ≡ false
  pub no_error : t.recv_err ≡ none

-- What `reserve` grants for `n` bytes.
abbrev pub granted : Conn → Stream → ℕ → ℕ
granted c s n = min (min n max_stream_payload) (send_credit_locked c s)

abbrev pub charged : Conn → ℕ → Conn
charged c k = record c { sent = add64 c.sent k }

abbrev pub advanced : Stream → ℕ → Stream
advanced s k = record s { send_offset = add64 s.send_offset k }

pub write_chunk_lem :
    (c : Conn) (s : Stream) (p : List ℕ)
    → c.close_err ≡ none
    → IsSendable s
    → let k = granted c s (length p) in
      write_chunk c s p ≡ (charged c k, advanced s k, chunk_of s.id p (reserved s.send_offset k))
unfolding write_chunk reserve send_err_locked
write_chunk_lem c s p o v = rw (o, v.no_error, v.no_fin) refl

-- A stream that has not ended stays.
pub finished_lem : (c : Conn) (t : Stream) → IsUnended t → finished (c, t) ≡ commit (c, t)
unfolding finished complete_locked recv_done
finished_lem c t v =
    let a = v.readable.can_read in
    let b = v.readable.not_reset in rw (a, b, v.no_fin) (ground arith)

received_locked_lem :
    (c : Conn) (n : ℕ)
    → c.received + n ≤ c.recv_max
    → c.recv_max < 2 ^ 63
    → received_locked c n ≡ ok (record c { received = c.received + n })
unfolding received_locked
received_locked_lem c n k b = ground (arith, k, b)

module _ ⦃g : Growth⦄ where
  -- The stream after a frame.
  abbrev pub taken : Stream → StreamFrame → Stream
  taken t f =
      let s' =
        buffer_locked
          (record t { recv_offset = add64 t.recv_offset (length f.payload); fin_recv = f.fin })
          f.payload in
      record s' { read_signal = broadcast s'.read_signal }

  data_taken_lem :
      (c : Conn) (t : Stream) (f : StreamFrame)
      → t.read_cancelled ≡ false
      → data_taken c t f ≡ (c, taken t f)
  unfolding data_taken
  data_taken_lem c t f h = simp h refl

  taken_same :
      (t : Stream) (f : StreamFrame)
      → ((taken t f).fin_recv ≡ f.fin) × ((taken t f).recv_err ≡ t.recv_err)
  unfolding buffer_locked
  taken_same t f = ground arith

  pub taken-IsUnended :
      (c : Conn) (t : Stream) (f : StreamFrame)
      → IsUnended t
      → f.fin ≡ false
      → IsUnended (taken t f)
  taken-IsUnended c t f v h =
      let (a, b) = taken_same t f in
      record {
        readable =
            subst (λ z. IsReadable z.1) (data_taken_lem c t f v.readable.not_cancelled)
              (data_taken-IsReadable c t f v.readable);
        no_fin = a ∙ h;
        no_error = b ∙ v.no_error;
      }

  pub unread-taken :
      (c : Conn) (t : Stream) (f : StreamFrame)
      → IsUnended t
      → unread (taken t f) ≡ unread t ++ f.payload
  unread-taken c t f v =
      subst (λ z. unread z.1 ≡ unread t ++ f.payload)
        (data_taken_lem c t f v.readable.not_cancelled) (data_taken-unread c t f v.readable)

  accept_data_lem :
      (c : Conn) (t : Stream) (f : StreamFrame)
      → IsUnended t
      → f.fin ≡ false
      → accept_data c t f ≡ commit (c, taken t f)
  unfolding accept_data
  accept_data_lem c t f v h =
      ap finished (data_taken_lem c t f v.readable.not_cancelled)
      ∙ finished_lem c (taken t f) (taken-IsUnended c t f v h)

  routed :
      (now : ℕ) (c : Conn) (t : Stream) (f : StreamFrame)
      → IsRoute c f.stream_id true
      → find f.stream_id c.heap ≡ some t
      → handle_frame now c (frame (stream f)) ≡ stream_data c t f
  unfolding handle_frame handle_ready on_stream
  routed now c t f r e =
      let l = stream_locked-IsRoute c f.stream_id true t r e in simp (r.is_ready, l) refl

  stream_data_lem :
      (c : Conn) (t : Stream) (f : StreamFrame)
      → IsUnended t
      → f.offset ≡ t.recv_offset
      → f.fin ≡ false
      → t.recv_offset + length f.payload ≤ t.recv_max
      → c.received + length f.payload ≤ c.recv_max
      → t.recv_max < 2 ^ 63
      → c.recv_max < 2 ^ 63
      → stream_data c t f
        ≡ (commit (record c { received = c.received + length f.payload }, taken t f), fine)
  unfolding stream_data
  stream_data_lem c t f v o fin h k a b =
      let n = length f.payload in
      let x : (f.offset == t.recv_offset) ≡ true = ground (arith, o) in
      let y : ltb t.recv_max (add64 t.recv_offset n) ≡ false = ground (arith, h, a) in
      let d = record c { received = c.received + n } in
      let z = received_locked_lem c n k b in
      let w : (t.fin_recv || t.recv_reset) ≡ false =
        ground (arith, v.no_fin, v.readable.not_reset) in
      simp (x, w, y, z) (ap (λ e. (e, fine)) (accept_data_lem d t f v fin))

  -- A STREAM frame that carries on from the data before it and keeps to both limits is taken.
  pub handle_frame_lem :
      (now : ℕ) (c : Conn) (t : Stream) (f : StreamFrame)
      → IsRoute c f.stream_id true
      → find f.stream_id c.heap ≡ some t
      → IsUnended t
      → f.offset ≡ t.recv_offset
      → f.fin ≡ false
      → t.recv_offset + length f.payload ≤ t.recv_max
      → c.received + length f.payload ≤ c.recv_max
      → t.recv_max < 2 ^ 63
      → c.recv_max < 2 ^ 63
      → handle_frame now c (frame (stream f))
        ≡ (commit (record c { received = c.received + length f.payload }, taken t f), fine)
  handle_frame_lem now c t f r e v o fin h k a b =
      routed now c t f r e ∙ stream_data_lem c t f v o fin h k a b
