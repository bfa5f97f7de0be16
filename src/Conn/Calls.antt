-- ===== src/Conn/Calls.antt =====
-- The calls of the application that wait: `wait`, `read`, `peek` and `waitSendCredit` of
-- qmux/stream.go, `open` and `accept` of qmux/conn.go. Each round of a loop finds the state as
-- others have left it, and then waits for what comes first.
use qmux_go.Base.{
  List, Option, [], if◌then◌else◌, leb, length, ltb, none, not, some, ℕ, ◌&&◌, ◌==◌, ◌||◌, ◌∷◌,
}
use qmux_go.Config.{Config}
use qmux_go.Conn.Failure.{Failure, deadline_exceeded, peek_too_large}
use qmux_go.Conn.Ids.{Dir, one_way, two_way}
use qmux_go.Conn.Receive.{
  Reading, data_read, read_error, set_read_deadline, try_peek, try_read, wait_for,
}
use qmux_go.Conn.Send.{Sending, credit, send_error, set_write_deadline, try_send, wait_either}
use qmux_go.Conn.Signal.{broadcast}
use qmux_go.Conn.State.{Conn, Stream}
use qmux_go.Conn.Streams.{
  Attempt, Opened, dangling, failed, got, open_now, try_accept, try_open, wait_on,
}
pub mod Reads
pub mod Opens
pub mod Accepts

-- What a wait ends with: a channel that is closed, or the timer of the deadline.
pub data Wakeup : Type 0 where
  channel_closed timer_fired : Wakeup

pub data Waited : Type 0 where
  go_on : Waited
  expired : Waited
  -- Without a deadline there is no timer.
  still_waiting : Waited

-- `wait` at a time, with 0 for no deadline.
unfoldable pub wait_until : ℕ → ℕ → Wakeup → Waited
wait_until deadline now channel_closed =
    if not (deadline == 0) && leb deadline now then expired else go_on
wait_until deadline now timer_fired = if deadline == 0 then still_waiting else expired

-- A round on a stream: the state that it finds, the time, and how its wait ends.
pub record Look : Type 0 where
  pub conn : Conn
  pub stream : Stream
  pub now : ℕ
  pub wakeup : Wakeup

-- How `read` and `peek` end: with data, with an error and the data before it, or not yet.
pub data ReadEnd : Type 0 where
  read_ok : List ℕ → ReadEnd
  read_failed : List ℕ → Failure → ReadEnd
  read_waits : ReadEnd

-- What a round does about its wait, with what the other rounds come to.
unfoldable pub after_wait : Waited → ReadEnd → ReadEnd
after_wait go_on others = others
after_wait expired others = read_failed [] deadline_exceeded
after_wait still_waiting others = read_waits

-- A round of `read` into room for so many bytes. With no data and no error, `wait` has no channel to
-- wait on, and never ends.
unfoldable pub reading_round : ℕ → Look → Reading → ReadEnd → ReadEnd
reading_round room l (data_read p) others =
    if ltb 0 (length p) || room == 0 then read_ok p else read_waits
reading_round room l (read_error p e) others = read_failed p e
reading_round room l (wait_for k deadline) others =
    if room == 0 then read_ok [] else after_wait (wait_until deadline l.now l.wakeup) others

unfoldable pub read_loop : List Look → ℕ → ReadEnd
read_loop [] room = read_waits
read_loop (l ∷ looks) room =
    let others = read_loop looks room in
    reading_round room l (try_read l.conn l.stream room).1 others

unfoldable pub peek_round : Look → Reading → ReadEnd → ReadEnd
peek_round l (data_read p) others = read_ok p
peek_round l (read_error p e) others = read_failed p e
peek_round l (wait_for k deadline) others = after_wait (wait_until deadline l.now l.wakeup) others

unfoldable pub peek_loop : List Look → ℕ → ReadEnd
peek_loop [] room = read_waits
peek_loop (l ∷ looks) room =
    let others = peek_loop looks room in peek_round l (try_peek l.conn l.stream room).1 others

-- `peek`: no more than a window can ever be in the buffer.
unfoldable pub peek : Config → List Look → ℕ → ReadEnd
peek cfg looks room =
    let window = cfg.initial_stream_receive_window in
    let others = peek_loop looks room in
    if ltb window room then read_failed [] (peek_too_large room window) else others

-- How `waitSendCredit` ends: with credit, with an error, or not yet.
pub data CreditEnd : Type 0 where
  has_credit : CreditEnd
  credit_failed : Failure → CreditEnd
  credit_waits : CreditEnd

unfoldable pub credit_round : Look → Sending → CreditEnd → CreditEnd
credit_round l credit others = has_credit
credit_round l (send_error e) others = credit_failed e
credit_round l (wait_either k j deadline) others = elim (wait_until deadline l.now l.wakeup) [
  | go_on ↦ others
  | expired ↦ credit_failed deadline_exceeded
  | still_waiting ↦ credit_waits
]

unfoldable pub wait_send_credit : List Look → CreditEnd
wait_send_credit [] = credit_waits
wait_send_credit (l ∷ looks) =
    let others = wait_send_credit looks in credit_round l (try_send l.now l.conn l.stream).1 others

-- A round on the connection: the state that it finds, and the error of the context if that ends
-- before the channel is closed.
pub record Glance : Type 0 where
  pub conn : Conn
  pub ended : Option Failure

-- How `open` and `accept` end.
pub data OpenEnd : Type 0 where
  has_stream : Stream → OpenEnd
  open_failed : Failure → OpenEnd
  open_waits : OpenEnd

unfoldable pub open_round : Glance → Attempt → OpenEnd → OpenEnd
open_round l (got s) others = has_stream s
open_round l (failed e) others = open_failed e
open_round l dangling others = open_waits
open_round l (wait_on k) others = elim l.ended [ some e ↦ open_failed e | none ↦ others ]

unfoldable pub open_loop : List Glance → Dir → OpenEnd
open_loop [] dir = open_waits
open_loop (l ∷ looks) dir =
    let others = open_loop looks dir in open_round l (try_open l.conn dir).1 others

unfoldable pub accept_loop : List Glance → Dir → OpenEnd
accept_loop [] dir = open_waits
accept_loop (l ∷ looks) dir =
    let others = accept_loop looks dir in open_round l (try_accept l.conn dir).1 others

-- `OpenStreamSync`, `OpenUniStreamSync`, `AcceptStream` and `AcceptUniStream`.
unfoldable pub open_stream_sync : List Glance → OpenEnd
open_stream_sync looks = open_loop looks two_way

unfoldable pub open_uni_stream_sync : List Glance → OpenEnd
open_uni_stream_sync looks = open_loop looks one_way

unfoldable pub accept_stream : List Glance → OpenEnd
accept_stream looks = accept_loop looks two_way

unfoldable pub accept_uni_stream : List Glance → OpenEnd
accept_uni_stream looks = accept_loop looks one_way

-- `OpenStream` and `OpenUniStream`.
unfoldable pub open_stream : Conn → Conn × Opened
open_stream c = open_now c two_way

unfoldable pub open_uni_stream : Conn → Conn × Opened
open_uni_stream c = open_now c one_way

-- `SetDeadline` of a stream, which sets both.
unfoldable pub set_deadline : Conn → Stream → ℕ → Conn
set_deadline c s t =
    let s' = record s { read_deadline = t; read_signal = broadcast s.read_signal } in
    set_write_deadline (set_read_deadline c s t) s' t
