-- ===== src/Endpoint/Writers.antt =====
-- The writers of a connection, from taking the write lock to the records that they are to write:
-- `writeChunk` and `closeSend` of qmux/stream.go, `flushControl`, `SendDatagram` and
-- `closeGracefully` of qmux/conn.go. The lock is free, and nobody gets it in between.
use qmux_go.Base.{List, Option, [], false, if◌then◌else◌, none, some, ℕ, ◌∷◌}
use qmux_go.Conn.Control.{flush_control}
use qmux_go.Conn.Datagrams.{Sent, send_datagram, sent_datagram}
use qmux_go.Conn.Run.{written}
use qmux_go.Conn.Send.{Chunk, chunk, chunk_error, close_send, no_chunk, write_chunk}
use qmux_go.Conn.State.{Conn, Stream}
use qmux_go.Endpoint.{
  Endpoint, farewell, farewell_record, frames_record, holds, saying, sending, waiting,
}
use qmux_go.Varint.{Varint}
use qmux_go.Wire.Frame.{StreamFrame, datagram, stream}

-- The record of a STREAM frame, if there is one.
unfoldable pub chunk_records : ⦃q : Varint⦄ → Chunk → List (List ℕ)
chunk_records (chunk f) = frames_record (stream f ∷ []) ∷ []
chunk_records no_chunk = []
chunk_records (chunk_error x) = []

unfoldable pub fin_records : ⦃q : Varint⦄ → Option StreamFrame → List (List ℕ)
fin_records (some f) = frames_record (stream f ∷ []) ∷ []
fin_records none = []

unfoldable pub datagram_records : ⦃q : Varint⦄ → Sent → List (List ℕ)
datagram_records (sent_datagram f) = frames_record (datagram f ∷ []) ∷ []
datagram_records _ = []

module _ ⦃q : Varint⦄ where
  abbrev with_records : Endpoint → Conn → List (List ℕ) → Endpoint
  with_records e c rs = record e { conn = c; holder = holds sending rs }

  -- `writeChunk` on a stream.
  unfoldable pub start_chunk : Endpoint → Stream → List ℕ → Endpoint
  start_chunk e s p = with_records e (written e.conn s p) (chunk_records (write_chunk e.conn s p).2)

  -- `closeSend` on a stream.
  unfoldable pub start_fin : Endpoint → Stream → Endpoint
  start_fin e s = let (c, f) = close_send e.conn s in with_records e c (fin_records f)

  -- `flushControl`, for the token that `controlWake` holds.
  unfoldable pub start_flush : ℕ → Endpoint → Endpoint
  start_flush now e =
      let (c, rs) = flush_control now (record e.conn { control_wake = false }) in
      if e.conn.control_wake then with_records e c rs else e

  unfoldable pub start_datagram : Endpoint → List ℕ → Endpoint
  start_datagram e p = with_records e e.conn (datagram_records (send_datagram e.conn p))

  -- `closeGracefully` has its turn.
  unfoldable pub start_farewell : Endpoint → Endpoint
  start_farewell e = elim e.goodbye [
    | waiting f ↦ record e { goodbye = saying f; holder = holds farewell (farewell_record f ∷ []) }
    | _ ↦ e
  ]
