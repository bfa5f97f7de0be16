-- ===== src/Wire/Error.antt =====
-- Connection errors of qmux/internal/wire/frame.go. A reason is a value for each message of the
-- source; `fmt.Sprintf` renders it.
use qmux_go.Base.{inl, inr, refl, ℕ, ◌≡◌, ◌⊎◌}
use Prim.Native.String.{String}

pub data Reason : Type 0 where
  max_streams_above streams_blocked_above : Reason
  frame_not_allowed frame_truncated : ℕ → Reason
  params_truncated : Reason
  param_not_allowed : String → Reason
  param_repeated param_not_integer : ℕ → Reason
  initial_max_streams_above max_record_size_below : Reason
  params_not_first : Reason
  not_on_uni not_opened exceeds_stream_limit out_of_order past_final_size : ℕ → Reason
  stream_flow_control final_size_changed final_size_over_limit : ℕ → Reason
  connection_flow_control ping_not_sent ping_not_increased datagram_too_large : Reason
  record_too_large : ℕ → ℕ → Reason

-- Transport error codes of QUIC version 1 that QMux uses.
abbrev pub internal_error : ℕ
internal_error = 0x01

abbrev pub flow_control_error : ℕ
flow_control_error = 0x03

abbrev pub stream_limit_error : ℕ
stream_limit_error = 0x04

abbrev pub stream_state_error : ℕ
stream_state_error = 0x05

abbrev pub final_size_error : ℕ
final_size_error = 0x06

abbrev pub frame_encoding_code : ℕ
frame_encoding_code = 0x07

abbrev pub transport_parameter_error : ℕ
transport_parameter_error = 0x08

abbrev pub protocol_violation_code : ℕ
protocol_violation_code = 0x0a

-- `*wire.Error`.
pub record Error : Type 0 where
  pub code : ℕ
  pub reason : Reason

abbrev pub frame_encoding_error : Reason → Error
frame_encoding_error reason = record { code = frame_encoding_code; reason = reason }

abbrev pub parameter_error : Reason → Error
parameter_error reason = record { code = transport_parameter_error; reason = reason }

-- `protocolViolation` of qmux/conn.go.
abbrev pub protocol_violation : Reason → Error
protocol_violation reason = record { code = protocol_violation_code; reason = reason }

-- What a Go function returns: a value or an error. The model adds `stuck`, for a loop that ran
-- out of fuel.
pub data Result {ℓ} (V : Type ℓ) : Type ℓ where
  stuck : Result V
  err : Error → Result V
  ok : V → Result V

-- The early return of an error.
infixl 5 ◌>>=◌
abbrev pub ◌>>=◌ {κ ℓ} : {V : Type κ} {W : Type ℓ} → Result V → (V → Result W) → Result W
stuck >>= next = stuck
err e >>= next = err e
ok v >>= next = next v

pub Result-cases {ℓ} :
    {V : Type ℓ} (r : Result V)
    → ((v : V) × (r ≡ ok v)) ⊎ (((e : Error) × (r ≡ err e)) ⊎ (r ≡ stuck))
Result-cases stuck = inr (inr refl)
Result-cases (err e) = inr (inl (e, refl))
Result-cases (ok v) = inl (v, refl)

-- A chain that succeeds, step by step.
pub >>=-ok {κ ℓ} :
    {V : Type κ} {W : Type ℓ} (r : Result V) (next : V → Result W) {w : W}
    → (r >>= next) ≡ ok w
    → (v : V) × (r ≡ ok v) × (next v ≡ ok w)
>>=-ok stuck next h = cc
>>=-ok (err e) next h = cc
>>=-ok (ok v) next h = (v, refl, h)
