-- ===== src/Endpoint/Acts.antt =====
-- A connection in use on its transport: the goroutines, the application's calls and the transport's
-- events, in any order.
use qmux_go.Base.{Bool, List, [], false, if◌then◌else◌, is_some, none, some, true, ℕ, ◌∷◌}
use qmux_go.Conn.Close.{application_close}
use qmux_go.Conn.Failure.{Failure}
use qmux_go.Conn.Receive.{Growth}
use qmux_go.Conn.Run.{Step, arrives, closes, ends, requests_ping, step, takes_control, writes}
use qmux_go.Conn.State.{Stream, find}
use qmux_go.Endpoint.{Endpoint, Link, abort, advance, close_gracefully, close_link, holds, nobody}
use qmux_go.Endpoint.Loops.{handshake_expires, idle_round, keep_alive_tick, read_round}
use qmux_go.Endpoint.Writers.{start_chunk, start_datagram, start_farewell, start_fin, start_flush}
use qmux_go.Transport.{ReadRecord}
use qmux_go.Varint.{Varint}
use qmux_go.Wire.Error.{Reason}

pub data Act : Type 0 where
  -- The application's calls that write nothing, under the connection's mutex.
  calls : Step → Act
  -- The writers, once the lock is free.
  writes_chunk : ℕ → List ℕ → Act
  ends_stream : ℕ → Act
  flushes : ℕ → Act
  sends_datagram : List ℕ → Act
  says_farewell : Act
  -- The writer that holds the lock goes on.
  advances : ℕ → Act
  -- The goroutines.
  hears : ℕ → ReadRecord → Act
  checks_idle misses_handshake keeps_alive : ℕ → Act
  -- The application closes the connection, or gives up waiting for it.
  closes_with : ℕ → ℕ → List ℕ → Act
  gives_up : Failure → Act
  -- The timer of `closeGracefully`.
  forces_close : Act

-- The calls that are no writers, goroutines or ends.
abbrev pub is_call : Step → Bool
is_call (arrives now f) = false
is_call (writes id p) = false
is_call (closes id) = false
is_call (takes_control now) = false
is_call (requests_ping now) = false
is_call (ends x) = false
is_call _ = true

-- A writer waits for the lock.
abbrev pub when_free : Endpoint → Endpoint → Endpoint
when_free e e' = elim e.holder [ nobody ↦ e' | holds p rs ↦ e ]

-- A stream of the application's.
abbrev pub on_held : Endpoint → ℕ → (Stream → Endpoint) → Endpoint
on_held e id call = elim (find id e.conn.heap) [ some s ↦ call s | none ↦ e ]

module _ ⦃q : Varint⦄ ⦃g : Growth⦄ ⦃l : Link⦄ (render : Reason → List ℕ) where
  unfoldable pub act : Endpoint → Act → Endpoint
  act e (calls t) = if is_call t then record e { conn = step e.conn t } else e
  act e (writes_chunk id p) = when_free e (on_held e id (λ s. start_chunk e s p))
  act e (ends_stream id) = when_free e (on_held e id (λ s. start_fin e s))
  act e (flushes now) = when_free e (start_flush now e)
  act e (sends_datagram p) = when_free e (start_datagram e p)
  act e says_farewell = when_free e (start_farewell e)
  act e (advances now) = advance now e
  act e (hears now r) = read_round render now r e
  act e (checks_idle now) = idle_round now e
  act e (misses_handshake now) = handshake_expires now e
  act e (keeps_alive now) = keep_alive_tick now e
  act e (closes_with now code msg) =
      let (x, f) = application_close code msg in close_gracefully now x (some f) e
  act e (gives_up x) = abort e x
  act e forces_close = if is_some e.forced then close_link e else e

  unfoldable pub acts : Endpoint → List Act → Endpoint
  acts e [] = e
  acts e (a ∷ later) = acts (act e a) later
