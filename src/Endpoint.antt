-- ===== src/Endpoint.antt =====
-- A connection on its transport: what holds the write lock and what it writes, the statistics, and
-- the steps of closing, of qmux/conn.go (`newConn`, `touch`, `writeFramesLocked`,
-- `writeRecordLocked`, `flushControl`, `writeLoop`, `abort`, `closeGracefully`, `SendDatagram`) and
-- of `writeChunk` and `closeSend` of qmux/stream.go.
use qmux_go.Base.{
  Bool, List, Option, [], add64, false, if◌then◌else◌, none, not, some, true, ℕ, ◌*◌, ◌++◌, ◌+◌,
  ◌||◌, ◌∷◌,
}
use qmux_go.Config.{Config, local_parameters, millisecond}
use qmux_go.Conn.Close.{terminate}
use qmux_go.Conn.Failure.{Failure, write_failed}
use qmux_go.Conn.State.{Conn, new_conn}
use qmux_go.Varint.{Varint}
use qmux_go.Wire.Frame.{ConnectionClose, Frame, connection_close, encode, transport_parameters}
pub mod Writers
pub mod Loops
pub mod Acts
pub mod Closed
pub mod Kept
pub mod Order
pub mod Delivery
pub mod Guard
pub mod Agreement
pub mod Limits
pub mod IdleTimer

-- The transport, `recordTransport`: what becomes of each `writeRecord`, by how many there were
-- before it, with the bytes put on the transport, and whether `closeWrite` can shut the sending side
-- down.
pub record Link : Type 0 where
  pub put_record : ℕ → List ℕ → Option ℕ
  pub half_close : Bool

-- What the record that a writer has under way is for: data and control frames, or the end.
pub data Purpose : Type 0 where
  sending farewell : Purpose

-- Who holds `writeMu`, and the Frames fields of the records that are still to be written.
pub data Holder : Type 0 where
  nobody : Holder
  holds : Purpose → List (List ℕ) → Holder

-- How far `closeGracefully` is: it waits for the lock with its frame, is writing it, has written it,
-- or has failed to.
pub data Goodbye : Type 0 where
  not_closing : Goodbye
  waiting saying said unsaid : ConnectionClose → Goodbye
  wordless : Goodbye

-- The times are those of the last record, of the deadline for writes and of the timer that closes
-- the transport.
pub record Endpoint : Type 0 where
  pub conn : Conn
  pub holder : Holder
  pub goodbye : Goodbye
  -- The records that were put on the transport, by their Frames fields, the first one first.
  pub wire : List (List ℕ)
  pub attempts : ℕ
  -- Whether a record could not be put on the transport.
  pub broken : Bool
  pub bytes_sent : ℕ
  pub records_sent : ℕ
  pub bytes_received : ℕ
  pub records_received : ℕ
  pub last_activity : ℕ
  pub link_shut : Bool
  pub link_closed : Bool
  pub expires : Option ℕ
  pub forced : Option ℕ

-- A second, in nanoseconds.
abbrev pub close_timeout : ℕ
close_timeout = 1000 * millisecond

-- `writeFramesLocked` builds one record of the frames.
unfoldable pub frames_record : ⦃q : Varint⦄ → List Frame → List ℕ
frames_record [] = []
frames_record (f ∷ fs) = encode f ++ frames_record fs

-- What `sendParameters` writes.
unfoldable pub parameters_record : ⦃q : Varint⦄ → Config → List ℕ
parameters_record cfg = frames_record (transport_parameters (local_parameters cfg) ∷ [])

-- What `closeGracefully` writes.
abbrev pub farewell_record : ⦃q : Varint⦄ → ConnectionClose → List ℕ
farewell_record f = frames_record (connection_close f ∷ [])

-- `newConn`: the lock is held for the transport parameters.
unfoldable pub new_endpoint : ⦃q : Varint⦄ → ℕ → Config → Bool → Endpoint
new_endpoint now cfg is_server = record {
  conn = new_conn cfg is_server;
  holder = holds sending (parameters_record cfg ∷ []);
  goodbye = not_closing;
  wire = [];
  attempts = 0;
  broken = false;
  bytes_sent = 0;
  records_sent = 0;
  bytes_received = 0;
  records_received = 0;
  last_activity = now;
  link_shut = false;
  link_closed = false;
  expires = none;
  forced = none;
}

abbrev pub close_link : Endpoint → Endpoint
close_link e = record e { link_closed = true }

-- `abort`.
unfoldable pub abort : Endpoint → Failure → Endpoint
abort e x =
    let (c, ended) = terminate e.conn x in if ended then close_link (record e { conn = c }) else e

-- The end of `closeGracefully`: the sending side is shut down, or else the transport is closed and
-- the timer is stopped.
unfoldable pub shut_down : ⦃l : Link⦄ → Bool → Endpoint → Endpoint
shut_down ⦃l⦄ lost e =
    if lost || not l.half_close
    then close_link (record e { forced = none })
    else record e { link_shut = true }

-- `closeGracefully`, up to waiting for the lock with the frame.
unfoldable pub close_gracefully :
    ⦃l : Link⦄ → ℕ → Failure → Option ConnectionClose → Endpoint → Endpoint
close_gracefully now x f e =
    let (c, ended) = terminate e.conn x in
    let e' = record e {
      conn = c;
      expires = some (now + close_timeout);
      forced = some (now + close_timeout);
    } in
    if ended
    then (elim f [
      | some g ↦ record e' { goodbye = waiting g }
      | none ↦ shut_down false (record e' { goodbye = wordless })
    ])
    else e

-- `writeRecordLocked` of a record that the transport takes.
unfoldable pub record_put : ℕ → ℕ → List ℕ → Endpoint → Endpoint
record_put now n r e = record e {
  wire = e.wire ++ r ∷ [];
  attempts = e.attempts + 1;
  bytes_sent = add64 e.bytes_sent n;
  records_sent = add64 e.records_sent 1;
  last_activity = now;
}

-- What a writer does when the transport fails: every writer aborts the connection, and
-- `closeGracefully` closes the transport.
unfoldable pub put_failed : ⦃l : Link⦄ → Purpose → Endpoint → Endpoint
put_failed sending e =
    abort (record e { holder = nobody; attempts = e.attempts + 1; broken = true }) write_failed
put_failed farewell e =
    let e' = record e { holder = nobody; attempts = e.attempts + 1; broken = true } in
    shut_down true (elim e.goodbye [ saying f ↦ record e' { goodbye = unsaid f } | _ ↦ e' ])

-- The holder writes its next record.
unfoldable pub put_next : ⦃l : Link⦄ → ℕ → Purpose → List ℕ → List (List ℕ) → Endpoint → Endpoint
put_next ⦃l⦄ now p r rs e = elim (l.put_record e.attempts r) [
  | some n ↦ record (record_put now n r e) { holder = holds p rs }
  | none ↦ put_failed p e
]

-- The holder has written everything and releases the lock.
unfoldable pub release : ⦃l : Link⦄ → Purpose → Endpoint → Endpoint
release sending e = record e { holder = nobody }
release farewell e =
    let e' = record e { holder = nobody } in
    shut_down false (elim e.goodbye [ saying f ↦ record e' { goodbye = said f } | _ ↦ e' ])

unfoldable pub advance : ⦃l : Link⦄ → ℕ → Endpoint → Endpoint
advance now e = elim e.holder [
  | nobody ↦ e
  | holds p [] ↦ release p e
  | holds p (r ∷ rs) ↦ put_next now p r rs e
]
