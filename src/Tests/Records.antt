-- ===== src/Tests/Records.antt =====
-- Witnesses for what is sent: control frames, stream data, datagrams, closing and records.
use qmux_go.Base.{
  All, List, [], arith, false, length, map, none, refl, some, suc, true, zero, ℕ, ◌++◌, ◌<◌, ◌∷◌,
  ◌≡◌, ◌≤◌, ◌⊎◌,
}
use qmux_go.Config.{Config, local_parameters, normalized, zero_config}
use qmux_go.Conn.Control.{flush_control, take_control}
use qmux_go.Conn.Control.Records.{IsControl, IsRecord, concat, encode_all, flush_control_lem}
use qmux_go.Conn.Datagrams.{reported_fits, send_datagram, send_datagram_accepted, sent_datagram}
use qmux_go.Conn.Failure.{write_on_closed}
use qmux_go.Conn.Handle.{handle_datagram}
use qmux_go.Conn.Receive.{fine}
use qmux_go.Conn.Send.{chunk_error, close_send, send_credit_locked, write_chunk}
use qmux_go.Conn.Send.Credit.{IsChunkOf, IsCredit, write_chunk_charged}
use qmux_go.Conn.Send.Final.{close_send_once}
use qmux_go.Conn.State.{Conn, Stream, datagram_queue_size, find, new_conn}
use qmux_go.Conn.Streams.{fresh_stream}
use qmux_go.Tests.{exact_growth, server, steady_link}
use qmux_go.Transport.{read_record, record_read, write_record}
use qmux_go.Transport.RoundTrip.{read_record-write_record}
use qmux_go.Varint.Rfc.{rfc9000}
use qmux_go.Wire.Frame.{Datagram, Frame, StreamFrame, datagram, encode, max_streams, stream}
use qmux_go.Wire.Params.{default_max_record_size}
use qmux_go.Wire.RoundTrip.Valid.{filled}
use qmux_go.WriteLock.Scan.{scanned}

-- A server with a MAX_STREAMS frame in its queue and a PING to answer.
abbrev queued : Conn
queued = record server {
  control = max_streams (record { uni = false; maximum = 101 }) ∷ [];
  pong_pending = true;
  pong_sequence = 5;
}

queued-IsControl : All IsControl (take_control 0 queued).1
unfolding take_control new_conn qmux_go.Conn.Control.take_ping qmux_go.Conn.Control.take_pong
    qmux_go.Conn.Control.take_max_streams qmux_go.Conn.Control.take_max_data
queued-IsControl = (omega arith, (ground arith, tt))

flush_control_lem_example :
    All IsRecord (flush_control 0 queued).1
    × ((groups : List (List Frame)) × ((flush_control 0 queued).1 ≡ map encode_all groups)
        × (concat groups ≡ (take_control 0 queued).1))
flush_control_lem_example = flush_control_lem 0 queued queued-IsControl

-- The client lets the stream send 2 of 3 bytes.
abbrev sender : Conn
sender = record server { send_max = 100; sent = 98 }

abbrev sending : Stream
sending = record (fresh_stream server 0) { send_offset = 7; send_max = 50 }

sending-IsCredit : IsCredit sender sending
sending-IsCredit = record {
  stream_within = omega arith;
  within = omega arith;
  stream_small = omega arith;
  small = omega arith;
}

abbrev two_bytes : StreamFrame
two_bytes = record { stream_id = 0; offset = 7; payload = 1 ∷ 2 ∷ []; fin = false }

abbrev after : Conn × Stream
after = (record sender { sent = 100 }, record sending { send_offset = 9 })

write_chunk_charged_example :
    IsChunkOf sender sending (1 ∷ 2 ∷ 3 ∷ []) after.0 after.1 two_bytes
    × (length (encode (stream two_bytes)) ≤ default_max_record_size)
unfolding fresh_stream qmux_go.Conn.Send.write_chunk qmux_go.Conn.Send.reserve
    qmux_go.Conn.Send.chunk_of qmux_go.Conn.Send.send_err_locked new_conn send_credit_locked
write_chunk_charged_example =
    write_chunk_charged sender after.0 sending after.1 (1 ∷ 2 ∷ 3 ∷ []) two_bytes sending-IsCredit
      (omega arith) refl

abbrev ending : Conn
ending = record sender { heap = sending ∷ [] }

-- The end of that stream, at its offset.
abbrev end_frame : StreamFrame
end_frame = record { stream_id = 0; offset = 7; payload = []; fin = true }

close_send_once_example :
    (end_frame
      ≡ record { stream_id = sending.id; offset = sending.send_offset; payload = []; fin = true })
    × ((t : Stream) × (find sending.id (close_send ending sending).0.heap ≡ some t)
        × (write_chunk server t (1 ∷ []) ≡ (server, t, chunk_error (write_on_closed 0)))
        × ((close_send server t).1 ≡ none))
unfolding close_send qmux_go.Conn.Send.fin_frame qmux_go.Conn.Send.finish new_conn fresh_stream find
close_send_once_example = close_send_once ending server sending end_frame (1 ∷ []) refl refl

-- Endpoints that accept datagrams, of 60 bytes at most.
abbrev datagram_config : Config
datagram_config =
    normalized (some (record zero_config { enable_datagrams = true; max_datagram_frame_size = 60 }))

abbrev taker : Conn
taker = new_conn datagram_config true

abbrev giver : Conn
giver = record (new_conn datagram_config false) { peer = filled (local_parameters datagram_config) }

abbrev small_datagram : Datagram
small_datagram = record { payload = 1 ∷ 2 ∷ [] }

send_datagram_accepted_example :
    (small_datagram.payload ≡ 1 ∷ 2 ∷ [])
    × (length (encode (datagram small_datagram)) ≤ giver.peer.max_record_size)
    × (length (encode (datagram small_datagram)) ≤ giver.peer.max_datagram_frame_size)
    × (((length taker.datagrams < datagram_queue_size)
          × (handle_datagram taker small_datagram
              ≡ (record taker { datagrams = taker.datagrams ++ (1 ∷ 2 ∷ []) ∷ [] }, fine)))
        ⊎ ((datagram_queue_size ≤ length taker.datagrams)
            × (handle_datagram taker small_datagram ≡ (taker, fine))))
unfolding new_conn normalized local_parameters send_datagram qmux_go.Config.datagram_size_of
    qmux_go.Wire.Frame.datagram_len qmux_go.Varint.Rfc.len_rfc
send_datagram_accepted_example =
    send_datagram_accepted giver taker (1 ∷ 2 ∷ []) small_datagram refl (omega arith) refl

-- 59 bytes, one more than fit.
abbrev large_datagram : List ℕ
large_datagram = zeros 59
  where
    zeros : ℕ → List ℕ
    zeros zero = []
    zeros (suc n) = 0 ∷ zeros n

reported_fits_example :
    (send_datagram giver (1 ∷ 2 ∷ []) ≡ sent_datagram small_datagram) × (58 < length large_datagram)
unfolding local_parameters normalized new_conn qmux_go.Varint.Rfc.len_rfc
    qmux_go.Config.datagram_size_of qmux_go.Conn.Datagrams.reported send_datagram
    qmux_go.Wire.Frame.datagram_len
reported_fits_example =
    reported_fits giver large_datagram (1 ∷ 2 ∷ []) 58 (omega arith) refl refl (omega arith)

abbrev headroom : List ℕ
headroom = 0 ∷ 0 ∷ 0 ∷ 0 ∷ 0 ∷ 0 ∷ 0 ∷ 0 ∷ []

-- A record of two bytes, before the Size field of the next one.
read_record-write_record_example :
    read_record 16382 (write_record (headroom ++ (5 ∷ 6 ∷ [])) ++ (1 ∷ []))
    ≡ record_read (5 ∷ 6 ∷ []) (1 ∷ [])
read_record-write_record_example =
    read_record-write_record 16382 headroom (5 ∷ 6 ∷ []) (1 ∷ []) refl (omega arith)
