-- ===== src/Conn/Failure.antt =====
-- The error values that the connection and its streams report, of the quic-go and standard
-- packages: constructors with the fields that the code sets.
use qmux_go.Base.{Bool, List, ℕ}

pub data Failure : Type 0 where
  -- `*quic.ApplicationError`: Remote, ErrorCode, ErrorMessage.
  application_error : Bool → ℕ → List ℕ → Failure
  -- `*quic.TransportError`: Remote, ErrorCode, FrameType, ErrorMessage.
  transport_error : Bool → ℕ → ℕ → List ℕ → Failure
  -- `*quic.StreamError`: StreamID, ErrorCode, Remote.
  stream_error : ℕ → ℕ → Bool → Failure
  handshake_timed_out idle_timed_out : Failure
  -- `io.EOF`, `os.ErrDeadlineExceeded` and `context.Canceled`.
  eof deadline_exceeded canceled : Failure
  -- "write on closed stream", "peek … exceeds the stream window".
  write_on_closed : ℕ → Failure
  peek_too_large : ℕ → ℕ → Failure
  -- An error of the transport, wrapped.
  write_failed transport_closed : Failure
