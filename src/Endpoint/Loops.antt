-- ===== src/Endpoint/Loops.antt =====
-- The goroutines of a connection, one round at a time: `readLoop`, `idleLoop` and `keepAliveLoop` of
-- qmux/conn.go, and `start` of qmux/qmux.go, which waits for the handshake.
use qmux_go.Base.{
  Bool, List, Option, add64, false, if◌then◌else◌, leb, length, ltb, none, some, true, ℕ, ◌+◌, ◌-◌,
  ◌==◌,
}
use qmux_go.Config.{Config, normalized}
use qmux_go.Conn.Close.{transport_close}
use qmux_go.Conn.Control.{request_ping}
use qmux_go.Conn.Failure.{Failure, handshake_timed_out, idle_timed_out, transport_closed}
use qmux_go.Conn.Handle.{handle_record}
use qmux_go.Conn.Receive.{Growth, Outcome, closed, fine, violation}
use qmux_go.Conn.State.{RttStats}
use qmux_go.Endpoint.{Endpoint, Link, abort, close_gracefully, close_link, new_endpoint}
use qmux_go.Transport.{ReadRecord, record_over, record_read, stream_ended}
use qmux_go.Varint.{Varint}
use qmux_go.Wire.Error.{Reason, frame_encoding_code, record_too_large}
use qmux_go.Wire.Reader.{rest}

-- What `readLoop` does about a violation, and about the peer's close, which ends the loop and closes
-- the transport.
unfoldable pub react : ⦃l : Link⦄ → (Reason → List ℕ) → ℕ → Endpoint → Outcome → Endpoint
react render now e fine = e
react render now e (violation x) =
    let (cause, f) = transport_close render x in close_gracefully now cause (some f) e
react render now e (closed x) = close_link (abort e x)

-- A record has arrived: it counts as activity.
unfoldable pub counted : ℕ → List ℕ → Endpoint → Endpoint
counted now rec e = record e {
  bytes_received = add64 e.bytes_received (length rec);
  records_received = add64 e.records_received 1;
  last_activity = now;
}

module _ ⦃q : Varint⦄ ⦃g : Growth⦄ ⦃l : Link⦄ (render : Reason → List ℕ) where
  -- `handleRecord` ends on every record, so there is a result.
  unfoldable pub record_in : ℕ → List ℕ → Endpoint → Endpoint
  record_in now rec e = elim (handle_record now e.conn rec) [
    | some (c, o) ↦ react render now (record (counted now rec e) { conn = c }) o
    | none ↦ e
  ]

  -- One round of `readLoop`: a record, one that is too large, or the end of the transport. When the
  -- loop ends it closes the transport.
  unfoldable pub read_round : ℕ → ReadRecord → Endpoint → Endpoint
  read_round now (record_read rec rest) e = record_in now rec e
  read_round now (record_over size limit rest) e =
      react render now e
        (violation (record { code = frame_encoding_code; reason = record_too_large size limit }))
  read_round now stream_ended e = close_link (abort e transport_closed)

-- What a round of `idleLoop` decides: the connection ends, the timer is set to go off after a while,
-- or there is no timeout.
pub data Idle : Type 0 where
  expire : Idle
  rearm : ℕ → Idle
  no_timeout : Idle

-- `remaining` is positive while `now` is before the timeout after the last record.
unfoldable pub idle_decision : ℕ → Endpoint → Idle
idle_decision now e =
    let due = e.last_activity + e.conn.idle_timeout in
    if e.conn.idle_timeout == 0
    then no_timeout
    else if leb due now
    then expire
    else rearm (due - now)

unfoldable pub idle_round : ⦃l : Link⦄ → ℕ → Endpoint → Endpoint
idle_round now e = elim (idle_decision now e) [
  | expire ↦ close_gracefully now idle_timed_out none e
  | _ ↦ e
]

-- The timer of `idleLoop` goes off before the handshake.
unfoldable pub handshake_expires : ⦃l : Link⦄ → ℕ → Endpoint → Endpoint
handshake_expires now e =
    if e.conn.handshake then e else close_gracefully now handshake_timed_out none e

-- A tick of `keepAliveLoop`.
unfoldable pub keep_alive_tick : ⦃l : Link⦄ → ℕ → Endpoint → Endpoint
keep_alive_tick now e =
    let (c, asked) = request_ping now e.conn in
    if asked then record e { conn = c } else close_gracefully now idle_timed_out none e

-- What `start` returns: the connection, an error, or nothing yet.
pub data Started : Type 0 where
  started : Started
  not_started : Failure → Started
  starting : Started

-- The `select` of `start`, when the caller's context has not ended.
unfoldable pub start_result : Endpoint → Started
start_result e =
    if e.conn.handshake
    then (elim e.conn.cause [ some x ↦ not_started x | none ↦ started ])
    else starting

-- `Dial` and `Server`, up to waiting for the handshake.
unfoldable pub dial : ⦃q : Varint⦄ → ℕ → Option Config → Endpoint
dial now c = new_endpoint now (normalized c) false

unfoldable pub serve : ⦃q : Varint⦄ → ℕ → Option Config → Endpoint
serve now c = new_endpoint now (normalized c) true

-- `DialMessages` and `ServerMessages`, whose transport is `message_link`.
unfoldable pub dial_messages : ⦃q : Varint⦄ → ℕ → Option Config → Endpoint
dial_messages now c = new_endpoint now (normalized c) false

unfoldable pub serve_messages : ⦃q : Varint⦄ → ℕ → Option Config → Endpoint
serve_messages now c = new_endpoint now (normalized c) true

-- `ConnectionState`, without what the transport knows of TLS.
pub record ConnectionState : Type 0 where
  pub local_datagrams : Bool
  pub remote_datagrams : Bool

unfoldable pub connection_state : Endpoint → ConnectionState
connection_state e = record {
  local_datagrams = e.conn.config.enable_datagrams;
  remote_datagrams = ltb 0 e.conn.peer.max_datagram_frame_size;
}

pub record ConnectionStats : Type 0 where
  pub times : RttStats
  pub sent_bytes : ℕ
  pub packets_sent : ℕ
  pub received_bytes : ℕ
  pub packets_received : ℕ

unfoldable pub connection_stats : Endpoint → ConnectionStats
connection_stats e = record {
  times = e.conn.rtt;
  sent_bytes = e.bytes_sent;
  packets_sent = e.records_sent;
  received_bytes = e.bytes_received;
  packets_received = e.records_received;
}
