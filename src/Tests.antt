-- ===== src/Tests.antt =====
-- Values that the witnesses of the theorems run on: configurations, frames and connections as they
-- come up between a client and a server.
use qmux_go.Base.{List, [], arith, false, length, none, some, true, ◌+◌, ◌∷◌}
use qmux_go.Config.{Config, local_parameters, normalized}
use qmux_go.Conn.Ids.{stream_id}
use qmux_go.Conn.Receive.{Growth}
use qmux_go.Conn.Run.{Step, arrives, reads, run}
use qmux_go.Conn.State.{Conn, Stream, new_conn}
use qmux_go.Conn.Streams.{fresh_stream}
use qmux_go.Endpoint.{Link}
use qmux_go.Varint.Rfc.{rfc9000}
use qmux_go.Wire.Frame.{StreamFrame, frame, stream, transport_parameters}
use qmux_go.Wire.Params.{Parameters}
use qmux_go.Wire.RoundTrip.Valid.{filled}
use qmux_go.WriteLock.Scan.{scanned}
pub mod Wire
pub mod Flow
pub mod Records
pub mod Lock
pub mod Life
pub mod Transfer
pub mod Exchange

-- A buffer that has to grow gets exactly the capacity that it needs.
instance abbrev pub exact_growth : Growth
exact_growth = record { grow = λ old need. need; grow_enough = λ old need. omega arith }

-- A transport that takes every record and puts its bytes and a Size field of two on the wire.
instance abbrev pub steady_link : Link
steady_link = record { put_record = λ k r. some (2 + length r); half_close = true }

abbrev pub defaults : Config
defaults = normalized none

-- A server with the default configuration.
abbrev pub server : Conn
server = new_conn defaults true

-- What a client with the default configuration declares, as the server reads it.
abbrev pub client_parameters : Parameters
client_parameters = filled (local_parameters defaults)

-- Three bytes at the start of the client's first bidirectional stream, then one more and the end.
abbrev pub first_data : StreamFrame
first_data = record { stream_id = 0; offset = 0; payload = 1 ∷ 2 ∷ 3 ∷ []; fin = false }

abbrev pub second_data : StreamFrame
second_data = record { stream_id = 0; offset = 3; payload = 4 ∷ []; fin = true }

-- The handshake, the data, and two reads of it.
abbrev pub steps : List Step
steps =
    arrives 0 (frame (transport_parameters client_parameters))
    ∷ arrives 1 (frame (stream first_data))
    ∷ reads 0 2
    ∷ arrives 2 (frame (stream second_data))
    ∷ []

-- The server after the handshake, with the stream that holds what was read in part.
abbrev pub ready_server : Conn
ready_server = run server (arrives 0 (frame (transport_parameters client_parameters)) ∷ [])

-- A stream with two bytes read out of three, in a buffer of four.
abbrev pub part_read : Stream
part_read = record (fresh_stream server 0) {
  rbuf = 1 ∷ 2 ∷ 3 ∷ [];
  rcap = 4;
  roff = 2;
  recv_offset = 3;
  read_offset = 2;
}
