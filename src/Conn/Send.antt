-- ===== src/Conn/Send.antt =====
-- The sending side of qmux/stream.go. The functions return the frame that the source writes on the
-- transport. `write`, which repeats `writeChunk`, is in Whole, and the call that waits for credit
-- in Conn/Calls.
use qmux_go.Base.{
  Bool, List, Option, [], add64, false, if◌then◌else◌, is_some, leb, length, ltb, min, none, not,
  some, take, true, ℕ, ◌&&◌, ◌-◌, ◌==◌, ◌||◌,
}
use qmux_go.Config.{negsuc, pos, ℤ}
use qmux_go.Conn.Failure.{Failure, canceled, deadline_exceeded, stream_error, write_on_closed}
use qmux_go.Conn.Ids.{stream_id}
use qmux_go.Conn.Receive.{finished}
use qmux_go.Conn.Signal.{broadcast, wait}
use qmux_go.Conn.State.{Conn, Stream, commit, queue_control}
use qmux_go.Conn.Streams.{send_done}
use qmux_go.Wire.Frame.{StreamFrame, reset_stream, stream_overhead}
use qmux_go.Wire.Params.{default_max_record_size}
pub mod Credit
pub mod Whole
pub mod Progress
pub mod Final

-- The most stream data that fits in a record of the default size.
abbrev pub max_stream_payload : ℕ
max_stream_payload = default_max_record_size - stream_overhead

abbrev pub max_urgency : ℕ
max_urgency = 7

-- `s.cancel(cause)`: the first cause stays, and none stands for `context.Canceled`.
unfoldable pub cancel : Stream → Failure → Stream
cancel s e = record s { cancelled = if is_some s.cancelled then s.cancelled else some e }

-- Why the stream cannot send, if it cannot.
unfoldable pub send_err_locked : Conn → Stream → Option Failure
send_err_locked c s =
    if is_some c.close_err
    then c.close_err
    else if is_some s.send_err
    then s.send_err
    else if s.fin_sent
    then some (write_on_closed s.id)
    else none

-- How much data flow control lets the stream send.
unfoldable pub send_credit_locked : Conn → Stream → ℕ
send_credit_locked c s =
    if leb s.send_max s.send_offset || leb c.send_max c.sent
    then 0
    else min (s.send_max - s.send_offset) (c.send_max - c.sent)

-- What `trySend` returns: credit, an error, or the stream's and the connection's channels and the
-- deadline to wait for.
pub data Sending : Type 0 where
  credit : Sending
  send_error : Failure → Sending
  wait_either : ℕ → ℕ → ℕ → Sending

-- `now` is `time.Now()`.
unfoldable pub try_send : ℕ → Conn → Stream → Conn × Sending
try_send now c s = elim (send_err_locked c s) [
  | some e ↦ (c, send_error e)
  | none ↦
      let (k, signal') = wait s.write_signal in
      let (j, conn_signal) = wait c.send_signal in
      if not (s.write_deadline == 0) && leb s.write_deadline now
      then (c, send_error deadline_exceeded)
      else if ltb 0 (send_credit_locked c s)
      then (c, credit)
      else (
        commit (record c { send_signal = conn_signal }, record s { write_signal = signal' }),
        wait_either k j s.write_deadline,
      )
]

-- `reserve`: credit for as much of `n` bytes as there is, and the offset to send them at.
pub data Reserved : Type 0 where
  reserved : ℕ → ℕ → Reserved
  no_reserve : Failure → Reserved

unfoldable pub reserve : Conn → Stream → ℕ → Conn × Stream × Reserved
reserve c s n = elim (send_err_locked c s) [
  | some e ↦ (c, s, no_reserve e)
  | none ↦
      let amount = min (min n max_stream_payload) (send_credit_locked c s) in
      (
        record c { sent = add64 c.sent amount },
        record s { send_offset = add64 s.send_offset amount },
        reserved s.send_offset amount,
      )
]

-- `writeChunk`, up to the transport: what it sends in one record, or why it cannot.
pub data Chunk : Type 0 where
  chunk : StreamFrame → Chunk
  no_chunk : Chunk
  chunk_error : Failure → Chunk

unfoldable pub chunk_of : ℕ → List ℕ → Reserved → Chunk
chunk_of id p (reserved offset n) =
    if n == 0
    then no_chunk
    else chunk (record { stream_id = id; offset = offset; payload = take n p; fin = false })
chunk_of id p (no_reserve e) = chunk_error e

unfoldable pub write_chunk : Conn → Stream → List ℕ → Conn × Stream × Chunk
write_chunk c s p = let (c', s', r) = reserve c s (length p) in (c', s', chunk_of s.id p r)

-- `finish`: the final size, if there is still something to end.
pub data Finish : Type 0 where
  final_size_is : ℕ → Finish
  nothing_left : Finish
  finish_error : Failure → Finish

-- What `finish` changes before `completeLocked`.
unfoldable pub fin_marked : Stream → Stream
unfolding cancel
fin_marked s =
    let s' = cancel s canceled in
    record s' { fin_sent = true; write_signal = broadcast s'.write_signal }

unfoldable pub finish : Conn → Stream → Conn × Finish
finish c s = elim c.close_err [
  | some e ↦ (c, finish_error e)
  | none ↦
      if s.fin_sent || is_some s.send_err
      then (c, nothing_left)
      else (finished (c, fin_marked s), final_size_is s.send_offset)
]

-- `closeSend`, up to the transport: the frame that it writes.
unfoldable pub fin_frame : ℕ → Finish → Option StreamFrame
fin_frame id (final_size_is size) =
    some (record { stream_id = id; offset = size; payload = []; fin = true })
fin_frame id nothing_left = none
fin_frame id (finish_error e) = none

unfoldable pub close_send : Conn → Stream → Conn × Option StreamFrame
close_send c s = let (c', f) = finish c s in (c', fin_frame s.id f)

-- What `resetSendLocked` changes before `completeLocked`, with the error code and whether the
-- peer asked for it.
unfoldable pub send_reset : Conn → Stream → ℕ → Bool → Conn × Stream
unfolding cancel
send_reset c s code remote =
    let reason = stream_error s.id code remote in
    let s' = cancel (record s { send_err = some reason }) reason in
    (
      queue_control c
          (reset_stream (record { stream_id = s.id; code = code; final_size = s.send_offset })),
      record s' { write_signal = broadcast s'.write_signal },
    )

unfoldable pub reset_send_locked : Conn → Stream → ℕ → Bool → Conn
reset_send_locked c s code remote = if send_done s then c else finished (send_reset c s code remote)

-- `cancelWrite` and `stopSendingLocked`.
unfoldable pub cancel_write : Conn → Stream → ℕ → Conn
cancel_write c s code = if is_some c.close_err then c else reset_send_locked c s code false

abbrev pub stop_sending_locked : Conn → Stream → ℕ → Conn
stop_sending_locked c s code = reset_send_locked c s code true

-- `setPriority`, with the urgency clipped to its range.
unfoldable pub set_priority : Conn → Stream → ℤ → Bool → Conn
set_priority c s (pos u) incremental =
    commit (c, record s { urgency = min u max_urgency; incremental = incremental })
set_priority c s (negsuc u) incremental =
    commit (c, record s { urgency = 0; incremental = incremental })

unfoldable pub set_write_deadline : Conn → Stream → ℕ → Conn
set_write_deadline c s t =
    commit (c, record s { write_deadline = t; write_signal = broadcast s.write_signal })
