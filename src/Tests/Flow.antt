-- ===== src/Tests/Flow.antt =====
-- Witnesses for flow control and the receiving side.
use qmux_go.Base.{
  Option, [], arith, false, none, refl, some, true, ◌+◌, ◌<◌, ◌^◌, ◌∷◌, ◌≡◌, ◌≤◌, ◌⊎◌,
}
use qmux_go.Conn.Handle.{handle_frame, handle_record}
use qmux_go.Conn.Handle.Accounting.{new_conn-IsConn}
use qmux_go.Conn.Handle.Total.{handle_record-total}
use qmux_go.Conn.Handle.Violations.{IsUnharmed, handle_frame-IsUnharmed}
use qmux_go.Conn.Ids.{initiated_locally, stream_dir, stream_id, stream_index, two_way}
use qmux_go.Conn.Receive.{Outcome, consume_locked, received_locked}
use qmux_go.Conn.Receive.Buffers.{stream_window, unread_length}
use qmux_go.Conn.Receive.Flow.{InRange, IsFlow, consume_locked_room, received_locked_exact}
use qmux_go.Conn.Receive.Invariant.Heap.{IsConn}
use qmux_go.Conn.Run.{run}
use qmux_go.Conn.Run.Accounting.{IsRanged, run-new_conn-IsConn, run-unread}
use qmux_go.Conn.State.{Conn, Stream, at, find, lookup_stream, new_conn}
use qmux_go.Conn.Streams.{open_incoming}
use qmux_go.Conn.Streams.Opening.{IsOpened, stream_locked_opens}
use qmux_go.Tests.{defaults, exact_growth, part_read, ready_server, server, steady_link, steps}
use qmux_go.Varint.Rfc.{rfc9000}
use qmux_go.Wire.Error.{connection_flow_control, err, flow_control_error, ok}
use qmux_go.Wire.Frame.{StreamFrame, frame, stream}
use qmux_go.WriteLock.Scan.{scanned}

server-InRange : InRange server
unfolding new_conn
server-InRange = omega arith

connection_window_small : defaults.initial_connection_receive_window < 2 ^ 62
unfolding qmux_go.Config.normalized qmux_go.Config.receive_window
connection_window_small = omega arith

stream_window_small : defaults.initial_stream_receive_window < 2 ^ 62
unfolding qmux_go.Config.normalized qmux_go.Config.receive_window
stream_window_small = omega arith

steps-IsRanged : IsRanged (new_conn defaults true) steps
unfolding qmux_go.Conn.State.find qmux_go.Conn.State.put qmux_go.Conn.State.lookup_stream
    qmux_go.Conn.State.delete_stream qmux_go.Conn.State.commit qmux_go.Conn.State.queue_control
    qmux_go.Conn.State.new_conn qmux_go.Conn.Streams.recv_done qmux_go.Conn.Streams.send_done
    qmux_go.Conn.Streams.initial_send_max qmux_go.Conn.Streams.fresh_stream
    qmux_go.Conn.Streams.new_stream qmux_go.Conn.Streams.open_next
    qmux_go.Conn.Streams.open_incoming qmux_go.Conn.Streams.stream_locked
    qmux_go.Conn.Streams.allow_another qmux_go.Conn.Streams.complete_locked
    qmux_go.Conn.Streams.try_open qmux_go.Conn.Streams.accept_head qmux_go.Conn.Streams.accept_from
    qmux_go.Conn.Streams.try_accept qmux_go.Conn.Receive.received_locked
    qmux_go.Conn.Receive.consume_locked qmux_go.Conn.Receive.compact qmux_go.Conn.Receive.finished
    qmux_go.Conn.Receive.append_buffer qmux_go.Conn.Receive.buffer_locked
    qmux_go.Conn.Receive.data_taken qmux_go.Conn.Receive.accept_data
    qmux_go.Conn.Receive.stream_data qmux_go.Conn.Receive.reset_taken
    qmux_go.Conn.Receive.accept_reset qmux_go.Conn.Receive.stream_reset
    qmux_go.Conn.Receive.read_locked qmux_go.Conn.Receive.take_out qmux_go.Conn.Receive.read_out
    qmux_go.Conn.Receive.try_read qmux_go.Conn.Receive.try_peek
    qmux_go.Conn.Receive.reading_discarded qmux_go.Conn.Receive.cancel_read
    qmux_go.Conn.Receive.set_read_deadline qmux_go.Conn.Handle.rtt_update
    qmux_go.Conn.Handle.joined_idle_timeout qmux_go.Conn.Handle.raise_outgoing
    qmux_go.Conn.Handle.handle_parameters qmux_go.Conn.Handle.handle_ping_response
    qmux_go.Conn.Handle.handle_ping_request qmux_go.Conn.Handle.handle_ping
    qmux_go.Conn.Handle.handle_datagram qmux_go.Conn.Handle.handle_max_data
    qmux_go.Conn.Handle.handle_max_streams qmux_go.Conn.Handle.handle_max_stream_data
    qmux_go.Conn.Handle.on_stream qmux_go.Conn.Handle.close_reason qmux_go.Conn.Handle.handle_ready
    qmux_go.Conn.Handle.handle_first qmux_go.Conn.Handle.handle_frame
    qmux_go.Conn.Handle.record_loop qmux_go.Conn.Handle.handle_record qmux_go.Conn.Signal.wait
    qmux_go.Conn.Signal.broadcast qmux_go.Conn.Ids.stream_id qmux_go.Conn.Ids.initiated_locally
    qmux_go.Conn.Ids.stream_dir qmux_go.Conn.Run.on_id qmux_go.Conn.Run.step qmux_go.Conn.Run.run
    qmux_go.Config.to_u64 qmux_go.Config.div_ℤ qmux_go.Config.stream_limit
    qmux_go.Config.receive_window qmux_go.Config.idle_timeout_of qmux_go.Config.handshake_timeout_of
    qmux_go.Config.keep_alive_of qmux_go.Config.datagram_size_of qmux_go.Config.normalized_from
    qmux_go.Config.normalized qmux_go.Config.local_parameters
steps-IsRanged =
    (omega arith, tt, (omega arith, omega arith, (omega arith, tt, (omega arith, omega arith, tt))))

run-new_conn-IsConn_example : IsConn (run (new_conn defaults true) steps)
run-new_conn-IsConn_example =
    run-new_conn-IsConn defaults true steps connection_window_small stream_window_small
      steps-IsRanged

-- The stream after those steps.
abbrev left : Stream
left = elim (find 0 (run server steps).heap) [ some s ↦ s | none ↦ part_read ]

run-unread_example : unread_length left ≤ stream_window (run (new_conn defaults true) steps)
unfolding qmux_go.Conn.State.find qmux_go.Conn.State.put qmux_go.Conn.State.lookup_stream
    qmux_go.Conn.State.delete_stream qmux_go.Conn.State.commit qmux_go.Conn.State.queue_control
    qmux_go.Conn.State.new_conn qmux_go.Conn.Streams.recv_done qmux_go.Conn.Streams.send_done
    qmux_go.Conn.Streams.initial_send_max qmux_go.Conn.Streams.fresh_stream
    qmux_go.Conn.Streams.new_stream qmux_go.Conn.Streams.open_next
    qmux_go.Conn.Streams.open_incoming qmux_go.Conn.Streams.stream_locked
    qmux_go.Conn.Streams.allow_another qmux_go.Conn.Streams.complete_locked
    qmux_go.Conn.Streams.try_open qmux_go.Conn.Streams.accept_head qmux_go.Conn.Streams.accept_from
    qmux_go.Conn.Streams.try_accept qmux_go.Conn.Receive.received_locked
    qmux_go.Conn.Receive.consume_locked qmux_go.Conn.Receive.compact qmux_go.Conn.Receive.finished
    qmux_go.Conn.Receive.append_buffer qmux_go.Conn.Receive.buffer_locked
    qmux_go.Conn.Receive.data_taken qmux_go.Conn.Receive.accept_data
    qmux_go.Conn.Receive.stream_data qmux_go.Conn.Receive.reset_taken
    qmux_go.Conn.Receive.accept_reset qmux_go.Conn.Receive.stream_reset
    qmux_go.Conn.Receive.read_locked qmux_go.Conn.Receive.take_out qmux_go.Conn.Receive.read_out
    qmux_go.Conn.Receive.try_read qmux_go.Conn.Receive.try_peek
    qmux_go.Conn.Receive.reading_discarded qmux_go.Conn.Receive.cancel_read
    qmux_go.Conn.Receive.set_read_deadline qmux_go.Conn.Handle.rtt_update
    qmux_go.Conn.Handle.joined_idle_timeout qmux_go.Conn.Handle.raise_outgoing
    qmux_go.Conn.Handle.handle_parameters qmux_go.Conn.Handle.handle_ping_response
    qmux_go.Conn.Handle.handle_ping_request qmux_go.Conn.Handle.handle_ping
    qmux_go.Conn.Handle.handle_datagram qmux_go.Conn.Handle.handle_max_data
    qmux_go.Conn.Handle.handle_max_streams qmux_go.Conn.Handle.handle_max_stream_data
    qmux_go.Conn.Handle.on_stream qmux_go.Conn.Handle.close_reason qmux_go.Conn.Handle.handle_ready
    qmux_go.Conn.Handle.handle_first qmux_go.Conn.Handle.handle_frame
    qmux_go.Conn.Handle.record_loop qmux_go.Conn.Handle.handle_record qmux_go.Conn.Signal.wait
    qmux_go.Conn.Signal.broadcast qmux_go.Conn.Ids.stream_id qmux_go.Conn.Ids.initiated_locally
    qmux_go.Conn.Ids.stream_dir qmux_go.Conn.Run.on_id qmux_go.Conn.Run.step qmux_go.Conn.Run.run
    qmux_go.Config.to_u64 qmux_go.Config.div_ℤ qmux_go.Config.stream_limit
    qmux_go.Config.receive_window qmux_go.Config.idle_timeout_of qmux_go.Config.handshake_timeout_of
    qmux_go.Config.keep_alive_of qmux_go.Config.datagram_size_of qmux_go.Config.normalized_from
    qmux_go.Config.normalized qmux_go.Config.local_parameters
run-unread_example =
    run-unread defaults true steps 0 left connection_window_small stream_window_small steps-IsRanged
      refl

-- A PING request and the end of the record.
handle_record-total_example :
    (c' : Conn) × (o : Outcome) × (handle_record 0 ready_server (1 ∷ 0 ∷ []) ≡ some (c', o))
handle_record-total_example = handle_record-total 0 ready_server (1 ∷ 0 ∷ [])

server-IsFlow : IsFlow server 0
unfolding qmux_go.Conn.Heap.sum_by new_conn
server-IsFlow = (new_conn-IsConn defaults true connection_window_small stream_window_small).flow

received_locked_exact_example :
    ((server.received + 10 ≤ server.recv_max)
      × (received_locked server 10 ≡ ok (record server { received = server.received + 10 })))
    ⊎ ((server.recv_max < server.received + 10)
        × (received_locked server 10
            ≡ err (record { code = flow_control_error; reason = connection_flow_control })))
received_locked_exact_example =
    received_locked_exact server 10 0 server-InRange (omega arith) server-IsFlow

-- After 10 bytes were received, 4 of them are consumed.
abbrev received_ten : Conn
received_ten = record server { received = 10 }

received_ten-IsFlow : IsFlow received_ten 10
unfolding new_conn qmux_go.Config.normalized qmux_go.Config.receive_window
received_ten-IsFlow = record {
  balance = omega arith;
  within = omega arith;
  ahead = omega arith;
  window_small = connection_window_small;
}

consume_locked_room_example :
    let c' = consume_locked received_ten 4 in
    (received_locked c' 7 ≡ ok (record c' { received = 17 }))
    × ((c'.recv_max ≡ received_ten.recv_max)
        ⊎ ((c'.max_data_pending ≡ true) × (c'.control_wake ≡ true)))
unfolding new_conn qmux_go.Config.normalized qmux_go.Config.receive_window
consume_locked_room_example =
    consume_locked_room received_ten 4 6 7 (omega arith) received_ten-IsFlow (omega arith)

-- The peer leaves out the first data of its third stream.
abbrev early : StreamFrame
early = record { stream_id = 8; offset = 5; payload = 1 ∷ []; fin = false }

handle_frame-IsUnharmed_example :
    IsUnharmed ready_server (handle_frame 0 ready_server (frame (stream early))).0
unfolding handle_frame run qmux_go.Conn.Run.step new_conn qmux_go.Conn.Handle.handle_first
    qmux_go.Conn.Handle.handle_parameters qmux_go.Conn.Handle.handle_ready
    qmux_go.Conn.Handle.on_stream qmux_go.Conn.Streams.stream_locked stream_dir initiated_locally
    qmux_go.Config.to_u64 qmux_go.Config.normalized qmux_go.Config.stream_limit lookup_stream
    open_incoming qmux_go.Conn.Streams.open_next qmux_go.Conn.Streams.fresh_stream stream_id find
    qmux_go.Conn.Receive.stream_data
handle_frame-IsUnharmed_example = handle_frame-IsUnharmed 0 ready_server (frame (stream early)) refl

-- The peer names its third stream, and opens three.
abbrev third : Conn × Option Stream
third = let c = open_incoming 3 ready_server two_way in (c, lookup_stream c 8)

stream_locked_opens_example :
    (stream_index 8 < (at two_way ready_server.incoming).max)
    × (stream_index 8 < (at two_way third.0.incoming).next)
    × IsOpened two_way 3 ready_server third.0
unfolding initiated_locally run qmux_go.Conn.Run.step handle_frame new_conn
    qmux_go.Conn.Handle.handle_first qmux_go.Conn.Handle.handle_parameters
    qmux_go.Conn.Streams.stream_locked stream_dir qmux_go.Config.to_u64 qmux_go.Config.normalized
    qmux_go.Config.stream_limit
stream_locked_opens_example = stream_locked_opens ready_server third.0 8 true third.1 refl refl
