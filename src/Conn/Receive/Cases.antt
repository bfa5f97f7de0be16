-- ===== src/Conn/Receive/Cases.antt =====
-- The branches of the receiving operations: what holds where an operation takes effect.
use qmux_go.Base.{
  Bool, Bool-cases, Option-cases, add64, arith, false, inl, inr, length, ltb, not, sub64, true, ℕ,
  ◌&&◌, ◌<◌, ◌==◌, ◌||◌, ◌≡◌, ◌≤◌, ◌⊎◌,
}
use qmux_go.Conn.Receive.{
  Growth, Outcome, accept_data, accept_reset, fine, finished, read_out, received_locked,
  stream_data, stream_reset, try_peek, try_read, violation,
}
use qmux_go.Conn.Signal.{wait}
use qmux_go.Conn.State.{Conn, Stream, commit}
use qmux_go.Wire.Error.{Result-cases, ok}
use qmux_go.Wire.Frame.{ResetStream, StreamFrame}

-- Whether handling a frame found a violation.
abbrev pub is_violation : Outcome → Bool
is_violation (violation e) = true
is_violation _ = false

module _ ⦃g : Growth⦄ where
  -- Why data was taken, and what came of it.
  pub record Taken (c : Conn) (s : Stream) (f : StreamFrame) (c' : Conn) : Type 0 where
    pub in_order : f.offset ≡ s.recv_offset
    pub not_finished : s.fin_recv ≡ false
    pub not_reset : s.recv_reset ≡ false
    pub fits : add64 s.recv_offset (length f.payload) ≤ s.recv_max
    pub counted : received_locked c (length f.payload) ≡ ok c'
    pub result : stream_data c s f ≡ (accept_data c' s f, fine)

  -- On the stream that it names, a STREAM frame is taken, or it changes nothing: the stream has
  -- ended or was reset, or the frame is a violation.
  pub stream_data_cases :
      (c : Conn) (s : Stream) (f : StreamFrame)
      → (((stream_data c s f).0 ≡ c)
          × (((s.fin_recv || s.recv_reset) ≡ true) ⊎ (is_violation (stream_data c s f).1 ≡ true)))
        ⊎ ((c' : Conn) × Taken c s f c')
  stream_data_cases c s f = elim (Bool-cases (f.offset == s.recv_offset)) [
    | inr h ↦ inl (unfold stream_data in ground arith)
    | inl h ↦ elim (Bool-cases (s.fin_recv || s.recv_reset)) [
      | inl k ↦ inl (unfold stream_data in ground arith)
      | inr k ↦ elim (Bool-cases (ltb s.recv_max (add64 s.recv_offset (length f.payload)))) [
        | inl m ↦ inl (unfold stream_data in ground arith)
        | inr m ↦ elim (Result-cases (received_locked c (length f.payload))) [
          | inl (c', e) ↦ inr (c', unfold stream_data in ground arith)
          | inr (inl (x, e)) ↦ inl (unfold stream_data in ground arith)
          | inr (inr e) ↦ absurd (unfold received_locked in ground arith)
        ]
      ]
    ]
  ]

-- Why a reset was taken, and what came of it.
pub record ResetTaken (c : Conn) (s : Stream) (f : ResetStream) (c' : Conn) : Type 0 where
  pub not_less : s.recv_offset ≤ f.final_size
  pub not_reset : s.recv_reset ≡ false
  pub fits : f.final_size ≤ s.recv_max
  pub counted : received_locked c (sub64 f.final_size s.recv_offset) ≡ ok c'
  pub result : stream_reset c s f ≡ (accept_reset c' s f, fine)

-- On the stream that it names, a RESET_STREAM frame is taken, or it changes nothing: the stream
-- was reset before, or the frame is a violation.
pub stream_reset_cases :
    (c : Conn) (s : Stream) (f : ResetStream)
    → (((stream_reset c s f).0 ≡ c)
        × ((s.recv_reset ≡ true) ⊎ (is_violation (stream_reset c s f).1 ≡ true)))
      ⊎ ((c' : Conn) × ResetTaken c s f c')
stream_reset_cases c s f =
    elim (Bool-cases (
      ltb f.final_size s.recv_offset
      || ((s.fin_recv || s.recv_reset) && not (f.final_size == s.recv_offset)))) [
        | inl h ↦ inl (unfold stream_reset in rw h (ground arith))
        | inr h ↦ elim (Bool-cases s.recv_reset) [
          | inl k ↦ inl (unfold stream_reset in ground arith)
          | inr k ↦ elim (Bool-cases (ltb s.recv_max f.final_size)) [
            | inl m ↦ inl (unfold stream_reset in ground arith)
            | inr m ↦ elim (Result-cases (received_locked c (sub64 f.final_size s.recv_offset))) [
              | inl (c', e) ↦ inr (c', unfold stream_reset in ground arith)
              | inr (inl (x, e)) ↦ inl (unfold stream_reset in ground arith)
              | inr (inr e) ↦ absurd (unfold received_locked in ground arith)
            ]
          ]
        ]
      ]

pub try_read_cases :
    (c : Conn) (s : Stream) (room : ℕ)
    → ((try_read c s room).0 ≡ c)
      ⊎ (((s.roff < length s.rbuf) × ((try_read c s room).0 ≡ finished (read_out c s room)))
          ⊎ ((try_read c s room).0 ≡ commit (c, record s { read_signal = (wait s.read_signal).1 })))
try_read_cases c s room = elim (Option-cases c.close_err) [
  | inr (x, e) ↦ inl (unfold try_read in ground arith)
  | inl e ↦ elim (Option-cases s.recv_err) [
    | inr (x, h) ↦ inl (unfold try_read in ground arith)
    | inl h ↦ unfold try_read in ground arith
  ]
]

pub try_peek_cases :
    (c : Conn) (s : Stream) (room : ℕ)
    → ((try_peek c s room).0 ≡ c)
      ⊎ ((try_peek c s room).0 ≡ commit (c, record s { read_signal = (wait s.read_signal).1 }))
unfolding try_peek
try_peek_cases c s room = ground arith
