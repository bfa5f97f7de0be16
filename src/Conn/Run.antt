-- ===== src/Conn/Run.antt =====
-- A connection in use: the peer's frames, the application's calls and the connection's own
-- goroutines, in any order. Each step is what the source does under the mutex.
use qmux_go.Base.{Bool, List, [], none, some, ℕ, ◌∷◌}
use qmux_go.Config.{ℤ}
use qmux_go.Conn.Close.{terminate}
use qmux_go.Conn.Control.{request_ping, take_control}
use qmux_go.Conn.Failure.{Failure}
use qmux_go.Conn.Handle.{handle_frame}
use qmux_go.Conn.Ids.{Dir}
use qmux_go.Conn.Receive.{Growth, cancel_read, set_read_deadline, try_peek, try_read}
use qmux_go.Conn.Send.{
  cancel_write, close_send, set_priority, set_write_deadline, try_send, write_chunk,
}
use qmux_go.Conn.State.{Conn, Stream, commit, find}
use qmux_go.Conn.Streams.{try_accept, try_open}
use qmux_go.Wire.Frame.{Parsed}
pub mod Cases
pub mod Open
pub mod Waiting
pub mod Wakeups
pub mod Accounting

pub data Step : Type 0 where
  -- A frame arrives, at a time.
  arrives : ℕ → Parsed → Step
  -- The application's calls on a stream, by its identifier.
  reads peeks : ℕ → ℕ → Step
  cancels_read cancels_write : ℕ → ℕ → Step
  -- One `trySend` at a time, and one `writeChunk`.
  tries_send : ℕ → ℕ → Step
  writes : ℕ → List ℕ → Step
  closes : ℕ → Step
  sets_read_deadline sets_write_deadline : ℕ → ℕ → Step
  sets_priority : ℕ → ℤ → Bool → Step
  -- Its calls on the connection.
  opens accepts : Dir → Step
  -- The goroutines.
  takes_control requests_ping : ℕ → Step
  ends : Failure → Step

-- A call on a stream that the application holds.
unfoldable pub on_id : Conn → ℕ → (Stream → Conn) → Conn
on_id c id call = elim (find id c.heap) [ some s ↦ call s | none ↦ c ]

-- `writeChunk` stores the stream that `reserve` charged.
abbrev pub written : Conn → Stream → List ℕ → Conn
written c s p = commit ((write_chunk c s p).0, (write_chunk c s p).1)

module _ ⦃g : Growth⦄ where
  unfoldable pub step : Conn → Step → Conn
  step c (arrives now f) = (handle_frame now c f).0
  step c (reads id room) = on_id c id (λ s. (try_read c s room).0)
  step c (peeks id room) = on_id c id (λ s. (try_peek c s room).0)
  step c (cancels_read id code) = on_id c id (λ s. cancel_read c s code)
  step c (cancels_write id code) = on_id c id (λ s. cancel_write c s code)
  step c (tries_send now id) = on_id c id (λ s. (try_send now c s).0)
  step c (writes id p) = on_id c id (λ s. written c s p)
  step c (closes id) = on_id c id (λ s. (close_send c s).0)
  step c (sets_read_deadline id t) = on_id c id (λ s. set_read_deadline c s t)
  step c (sets_write_deadline id t) = on_id c id (λ s. set_write_deadline c s t)
  step c (sets_priority id u inc) = on_id c id (λ s. set_priority c s u inc)
  step c (opens dir) = (try_open c dir).0
  step c (accepts dir) = (try_accept c dir).0
  step c (takes_control now) = (take_control now c).0
  step c (requests_ping now) = (request_ping now c).0
  step c (ends e) = (terminate c e).0

  unfoldable pub run : Conn → List Step → Conn
  run c [] = c
  run c (t ∷ ts) = run (step c t) ts
