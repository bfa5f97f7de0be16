-- ===== src/Tests/Transfer.antt =====
-- Witnesses for byte streams over messages, whole writes and the queue of datagrams.
use qmux_go.Base.{
  All, Any, List, [], arith, inl, length, none, refl, true, ℕ, ◌++◌, ◌∷◌, ◌≡◌, ◌≤◌, ◌⊎◌,
}
use qmux_go.Adapter.{drain, net_conn}
use qmux_go.Adapter.Pending.{IsRoom, joined}
use qmux_go.Adapter.Records.{IsBuffer, read_records, read_records-drain, write_records}
use qmux_go.Conn.Calls.{Glance, Look, accept_loop, channel_closed, open_loop, peek, read_loop}
use qmux_go.Conn.Calls.Accepts.{IsAcceptedAt, accept_loop-IsAcceptedAt}
use qmux_go.Conn.Calls.Opens.{IsOpenedAt, open_loop-IsOpenedAt}
use qmux_go.Conn.Calls.Reads.{IsPeekAt, IsReadAt, peek-IsPeekAt, read_loop-IsReadAt}
use qmux_go.Conn.Datagrams.Queue.{
  IsKeepingUp, QueueEvent, arrivals, datagram_in, datagram_out, queue_run, queue_run_in_order,
}
use qmux_go.Conn.Handle.{handle_frame}
use qmux_go.Conn.Ids.{two_way}
use qmux_go.Conn.Receive.{unread}
use qmux_go.Conn.Receive.Delivered.{
  DataEvent, IsReadable, arrived, data_in, data_out, data_run, data_run_in_order,
}
use qmux_go.Conn.Run.{Step, arrives, run}
use qmux_go.Conn.Run.Wakeups.{open_misses_nothing}
use qmux_go.Conn.Send.Credit.{IsCredit}
use qmux_go.Conn.Send.Whole.{
  IsContinued, IsWritten, Round, turn_of, write_loop, write_loop-IsWritten,
}
use qmux_go.Conn.Signal.{IsClosed, IsSignal}
use qmux_go.Conn.State.{Conn, Stream, at, new_conn, put_at}
use qmux_go.Conn.Streams.{fresh_stream, try_open, wait_on}
use qmux_go.Tests.{
  client_parameters, defaults, exact_growth, first_data, part_read, ready_server, second_data,
  server, steady_link,
}
use qmux_go.Varint.Rfc.{rfc9000}
use qmux_go.Wire.Frame.{frame, transport_parameters}
use qmux_go.WriteLock.Scan.{scanned}

abbrev two_buffers : List (List ℕ)
two_buffers =
    (0 ∷ 0 ∷ 0 ∷ 0 ∷ 0 ∷ 0 ∷ 0 ∷ 0 ∷ 5 ∷ 6 ∷ []) ∷ (0 ∷ 0 ∷ 0 ∷ 0 ∷ 0 ∷ 0 ∷ 0 ∷ 0 ∷ 7 ∷ []) ∷ []

abbrev small_reads : List ℕ
small_reads = 2 ∷ 1 ∷ 2 ∷ 1 ∷ 1 ∷ []

two_buffers-IsBuffer : All (IsBuffer 16382) two_buffers
two_buffers-IsBuffer = ((omega arith, omega arith), ((omega arith, omega arith), tt))

small_reads-IsRoom : All IsRoom small_reads
small_reads-IsRoom = (omega arith, (omega arith, (omega arith, (omega arith, (omega arith, tt)))))

small_reads_enough : length (joined (write_records two_buffers [])) ≤ length small_reads
unfolding joined write_records qmux_go.Adapter.adapter_write qmux_go.Transport.write_record
    qmux_go.Varint.Rfc.len_rfc qmux_go.Varint.Rfc.encode_rfc
small_reads_enough = omega arith

read_records-drain_example :
    read_records 16382 2 (drain small_reads (net_conn (write_records two_buffers [])))
    ≡ (5 ∷ 6 ∷ []) ∷ (7 ∷ []) ∷ []
read_records-drain_example =
    read_records-drain 16382 (omega arith) two_buffers small_reads two_buffers-IsBuffer
      small_reads-IsRoom small_reads_enough

-- A stream of the server's with credit for three bytes, without any, and with more.
abbrev credit_conn : Conn
credit_conn = record server { send_max = 100 }

abbrev three_credit : Stream
three_credit = record (fresh_stream server 1) { send_max = 3 }

abbrev no_more_credit : Stream
no_more_credit = record three_credit { send_offset = 3 }

abbrev more_credit : Stream
more_credit = record three_credit { send_offset = 3; send_max = 10 }

abbrev three_rounds : List Round
three_rounds =
    turn_of credit_conn three_credit none
    ∷ turn_of credit_conn no_more_credit none
    ∷ turn_of credit_conn more_credit none
    ∷ []

abbrev four_bytes : List ℕ
four_bytes = 1 ∷ 2 ∷ 3 ∷ 4 ∷ []

three_credit-IsCredit : IsCredit credit_conn three_credit
unfolding fresh_stream qmux_go.Conn.State.new_conn
three_credit-IsCredit = record {
  stream_within = omega arith;
  within = omega arith;
  stream_small = omega arith;
  small = omega arith;
}

no_more_credit-IsCredit : IsCredit credit_conn no_more_credit
unfolding qmux_go.Conn.State.new_conn
no_more_credit-IsCredit = record {
  stream_within = omega arith;
  within = omega arith;
  stream_small = omega arith;
  small = omega arith;
}

more_credit-IsCredit : IsCredit credit_conn more_credit
unfolding qmux_go.Conn.State.new_conn
more_credit-IsCredit = record {
  stream_within = omega arith;
  within = omega arith;
  stream_small = omega arith;
  small = omega arith;
}

three_rounds-IsContinued : IsContinued 1 0 three_rounds four_bytes
unfolding fresh_stream qmux_go.Conn.Send.write_chunk qmux_go.Conn.Send.reserve
    qmux_go.Conn.Send.send_err_locked qmux_go.Conn.State.new_conn
    qmux_go.Conn.Send.send_credit_locked qmux_go.Conn.Send.chunk_of
three_rounds-IsContinued = (
  refl,
  refl,
  three_credit-IsCredit,
  (refl, refl, no_more_credit-IsCredit, (refl, refl, more_credit-IsCredit, tt)),
)

write_loop-IsWritten_example :
    IsWritten 1 0 four_bytes
      (write_loop three_rounds four_bytes).0
      (write_loop three_rounds four_bytes).1
      (write_loop three_rounds four_bytes).2
write_loop-IsWritten_example =
    write_loop-IsWritten 1 (omega arith) 0 three_rounds four_bytes three_rounds-IsContinued

-- Two datagrams, the first of which is received before the second arrives.
abbrev datagram_conn : Conn
datagram_conn = record server { config = record defaults { max_datagram_frame_size = 1200 } }

abbrev datagram_events : List QueueEvent
datagram_events =
    datagram_in (record { payload = 1 ∷ 2 ∷ [] })
    ∷ datagram_out true
    ∷ datagram_in (record { payload = 3 ∷ [] })
    ∷ []

datagram_events-IsKeepingUp : IsKeepingUp datagram_conn datagram_events
unfolding qmux_go.Conn.State.new_conn qmux_go.Conn.Datagrams.Queue.receive_datagram
    qmux_go.Conn.Datagrams.Queue.receive_from qmux_go.Conn.Handle.handle_datagram
datagram_events-IsKeepingUp = (omega arith, omega arith, (omega arith, omega arith, tt))

queue_run_in_order_example :
    datagram_conn.datagrams ++ arrivals datagram_events
    ≡ (queue_run datagram_conn datagram_events).1
      ++ (queue_run datagram_conn datagram_events).0.datagrams
queue_run_in_order_example =
    queue_run_in_order datagram_conn datagram_events datagram_events-IsKeepingUp

-- A call that waits before the handshake, which raises the limit.
abbrev waiting_server : Conn
waiting_server = (try_open server two_way).0

abbrev handshake_steps : List Step
handshake_steps = arrives 0 (frame (transport_parameters client_parameters)) ∷ []

server-IsSignal : IsSignal (at two_way server.outgoing).signal
unfolding new_conn
server-IsSignal k e = ground (arith, e)

server_waits : try_open server two_way ≡ (waiting_server, wait_on 0)
unfolding try_open qmux_go.Conn.State.new_conn qmux_go.Conn.Signal.wait
server_waits = refl

open_misses_nothing_example :
    IsClosed 0 (at two_way (run waiting_server handshake_steps).outgoing).signal
    ⊎ ((try_open (run waiting_server handshake_steps) two_way).1 ≡ wait_on 0)
open_misses_nothing_example =
    open_misses_nothing server waiting_server two_way 0 handshake_steps server-IsSignal server_waits

-- The client's data arrives in two frames, and is read in between and at the end.
abbrev data_events : List DataEvent
data_events = data_in first_data ∷ data_out 2 ∷ data_in second_data ∷ data_out 5 ∷ []

abbrev fresh : Stream
fresh = fresh_stream server 0

fresh-IsReadable : IsReadable fresh
unfolding fresh_stream qmux_go.Conn.Ids.stream_dir
fresh-IsReadable = record {
  can_read = refl;
  not_cancelled = refl;
  not_reset = refl;
  roff_within = inl refl;
}

data_run_in_order_example :
    unread fresh ++ arrived data_events
    ≡ (data_run server fresh data_events).1 ++ unread (data_run server fresh data_events).0
data_run_in_order_example = data_run_in_order server fresh data_events fresh-IsReadable

-- A read that waits for data and then finds it, and one that finds it at once.
abbrev two_looks : List Look
two_looks =
    record { conn = server; stream = fresh; now = 0; wakeup = channel_closed }
    ∷ record { conn = server; stream = part_read; now = 1; wakeup = channel_closed }
    ∷ []

read_loop-IsReadAt_example : Any (IsReadAt 5 (3 ∷ [])) two_looks
unfolding read_loop qmux_go.Conn.Calls.reading_round qmux_go.Conn.Receive.try_read new_conn
    fresh_stream qmux_go.Conn.Calls.after_wait qmux_go.Conn.Calls.wait_until
read_loop-IsReadAt_example = read_loop-IsReadAt 5 two_looks (3 ∷ []) (omega arith) refl

peek-IsPeekAt_example :
    (1 ≤ defaults.initial_stream_receive_window) × Any (IsPeekAt 1 (3 ∷ [])) two_looks
unfolding peek qmux_go.Config.normalized qmux_go.Config.receive_window qmux_go.Conn.Calls.peek_loop
    qmux_go.Conn.Calls.peek_round qmux_go.Conn.Receive.try_peek new_conn fresh_stream
    qmux_go.Conn.Calls.after_wait qmux_go.Conn.Calls.wait_until
peek-IsPeekAt_example = peek-IsPeekAt defaults 1 two_looks (3 ∷ []) refl

-- The client's parameters arrive while `open` waits.
abbrev two_glances : List Glance
two_glances =
    record { conn = server; ended = none } ∷ record { conn = ready_server; ended = none } ∷ []

abbrev opened_stream : Stream
opened_stream = record (fresh_stream ready_server 1) { accepted = true }

open_loop-IsOpenedAt_example : Any (IsOpenedAt two_way opened_stream) two_glances
unfolding open_loop new_conn run qmux_go.Conn.Run.step handle_frame qmux_go.Conn.Handle.handle_first
    qmux_go.Conn.Handle.handle_parameters qmux_go.Conn.Handle.raise_outgoing
    qmux_go.Conn.Calls.open_round try_open qmux_go.Config.local_parameters qmux_go.Config.to_u64
    qmux_go.Config.normalized qmux_go.Config.stream_limit qmux_go.Conn.Ids.stream_id
open_loop-IsOpenedAt_example =
    open_loop-IsOpenedAt two_glances two_way opened_stream (omega arith, (omega arith, tt)) refl

-- The client opens a stream while `accept` waits.
abbrev with_stream : Conn
with_stream = record server {
  streams = 0 ∷ [];
  heap = fresh ∷ [];
  incoming =
      put_at two_way (record (at two_way server.incoming) { next = 1; queue = 0 ∷ [] })
        server.incoming;
}

abbrev stream_glances : List Glance
stream_glances =
    record { conn = server; ended = none } ∷ record { conn = with_stream; ended = none } ∷ []

abbrev accepted_stream : Stream
accepted_stream = record fresh { accepted = true }

accept_loop-IsAcceptedAt_example : Any (IsAcceptedAt two_way accepted_stream) stream_glances
unfolding accept_loop qmux_go.Conn.Calls.open_round qmux_go.Conn.Streams.try_accept new_conn
    qmux_go.Conn.Streams.accept_from qmux_go.Conn.State.find fresh_stream
    qmux_go.Conn.Streams.accept_head qmux_go.Conn.Streams.complete_locked
    qmux_go.Conn.Streams.recv_done qmux_go.Conn.Ids.stream_dir
accept_loop-IsAcceptedAt_example =
    accept_loop-IsAcceptedAt stream_glances two_way accepted_stream refl
