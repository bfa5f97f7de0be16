-- ===== src/Conn/Streams.antt =====
-- Opening, accepting and forgetting streams: `newStreamLocked`, `recvDone` and `sendDone` of
-- qmux/stream.go, `streamLocked`, `completeLocked`, `tryOpen` and `tryAccept` of qmux/conn.go.
use qmux_go.Base.{
  Bool, List, Option, [], add64, false, if◌then◌else◌, is_some, leb, length, max, none, not, some,
  suc, true, zero, ℕ, ◌&&◌, ◌++◌, ◌+◌, ◌-◌, ◌==◌, ◌||◌, ◌∷◌,
}
use qmux_go.Adapter.Pending.{pending}
use qmux_go.Conn.Failure.{Failure}
use qmux_go.Conn.Ids.{
  Dir, initiated_locally, one_way, same, stream_dir, stream_id, stream_index, two_way,
}
use qmux_go.Conn.Signal.{broadcast, no_signal, wait}
use qmux_go.Conn.State.{
  Conn, Stream, at, commit, delete_stream, find, lookup_stream, put_at, wake_writer,
}
use qmux_go.Wire.Error.{
  Result, err, exceeds_stream_limit, not_on_uni, not_opened, ok, stream_limit_error,
  stream_state_error,
}
use qmux_go.Wire.Params.{Parameters}
use qmux_go.Wire.Parse.{read_offset}
use qmux_go.Wire.Reader.{rest}
pub mod Opening

unfoldable pub recv_done : Stream → Bool
recv_done s =
    if not s.can_recv || s.recv_reset
    then true
    else (s.fin_recv && (s.read_cancelled || s.roff == length s.rbuf))

unfoldable pub send_done : Stream → Bool
send_done s = not s.can_send || (s.fin_sent || is_some s.send_err)

abbrev pub default_urgency : ℕ
default_urgency = 3

-- The limit of the peer's that applies to what a new stream sends.
unfoldable pub initial_send_max : Parameters → Dir → Bool → ℕ
initial_send_max peer one_way local = peer.initial_max_stream_data_uni
initial_send_max peer two_way true = peer.initial_max_stream_data_bidi_remote
initial_send_max peer two_way false = peer.initial_max_stream_data_bidi_local

abbrev pub is_two_way : Dir → Bool
is_two_way two_way = true
is_two_way one_way = false

-- The state of a new stream.
unfoldable pub fresh_stream : Conn → ℕ → Stream
fresh_stream c id =
    let local = initiated_locally c.is_server id in
    let dir = stream_dir id in
    let can_recv = is_two_way dir || not local in
    let can_send = is_two_way dir || local in
    record {
      id = id;
      cancelled = none;
      accepted = false;
      done = false;
      can_recv = can_recv;
      rbuf = [];
      rcap = 0;
      roff = 0;
      recv_offset = 0;
      recv_max = if can_recv then c.config.initial_stream_receive_window else 0;
      read_offset = 0;
      fin_recv = false;
      recv_reset = false;
      read_cancelled = false;
      recv_err = none;
      read_deadline = 0;
      read_signal = no_signal;
      can_send = can_send;
      urgency = if can_send then default_urgency else 0;
      incremental = can_send;
      send_offset = 0;
      send_max = if can_send then initial_send_max c.peer dir local else 0;
      fin_sent = false;
      send_err = none;
      write_deadline = 0;
      write_signal = no_signal;
    }

-- `newStreamLocked`: the stream is stored and enters the map.
unfoldable pub new_stream : Conn → Stream → Conn
new_stream c s = record c { streams = s.id ∷ c.streams; heap = s ∷ c.heap }

-- One round of the loop of `streamLocked` that opens the peer's streams.
unfoldable pub open_next : Conn → Dir → Conn
unfolding new_stream
open_next c dir =
    let i = at dir c.incoming in
    let s = fresh_stream c (stream_id c.is_server i.next dir false) in
    let i' = record i {
      queue = i.queue ++ s.id ∷ [];
      next = i.next + 1;
      signal = broadcast i.signal;
    } in
    record (new_stream c s) { incoming = put_at dir i' c.incoming }

-- The loop runs from `next` to the index of the frame's stream.
unfoldable pub open_incoming : ℕ → Conn → Dir → Conn
open_incoming zero c dir = c
open_incoming (suc k) c dir = open_incoming k (open_next c dir) dir

-- `streamLocked`. A stream that has closed is `none`.
unfoldable pub stream_locked : Conn → ℕ → Bool → Result (Conn × Option Stream)
stream_locked c id recv =
    let local = initiated_locally c.is_server id in
    let dir = stream_dir id in
    let index = stream_index id in
    let i = at dir c.incoming in
    let c' = open_incoming (index + 1 - i.next) c dir in
    if not (is_two_way dir) && same local recv
    then err (record { code = stream_state_error; reason = not_on_uni id })
    else if local
    then (if leb (at dir c.outgoing).next index
        then err (record { code = stream_state_error; reason = not_opened id })
        else ok (c, lookup_stream c id))
    else if leb i.max index
    then err (record { code = stream_limit_error; reason = exceeds_stream_limit id })
    else ok (c', lookup_stream c' id)

-- A stream of the peer's that ends lets it open another.
unfoldable pub allow_another : Conn → Dir → Conn
allow_another c dir =
    let i = at dir c.incoming in
    let i' = record i { max = add64 i.max 1; pending = true } in
    wake_writer (record c { incoming = put_at dir i' c.incoming })

-- `completeLocked`.
unfoldable pub complete_locked : Conn → Stream → Conn × Stream
complete_locked c s =
    if s.done || (not s.accepted || (not (recv_done s) || not (send_done s))) then (c, s) else (
      (let c' = record c { streams = delete_stream s.id c.streams } in
          if initiated_locally c.is_server s.id then c' else allow_another c' (stream_dir s.id)),
      record s { done = true; rbuf = []; rcap = 0 },
    )

-- What `tryOpen` and `tryAccept` return: a stream, a channel to wait on, or the connection's error.
pub data Attempt : Type 0 where
  got : Stream → Attempt
  wait_on : ℕ → Attempt
  failed : Failure → Attempt
  -- No Go value: a queued identifier with no stream.
  dangling : Attempt

unfoldable pub try_open : Conn → Dir → Conn × Attempt
try_open c dir = elim c.close_err [
  | some e ↦ (c, failed e)
  | none ↦
      let o = at dir c.outgoing in
      let (k, signal') = wait o.signal in
      let fresh = fresh_stream c (stream_id c.is_server o.next dir true) in
      let s = record fresh { accepted = true } in
      let o' = record o { next = o.next + 1 } in
      if leb o.max o.next
      then (
        record c { outgoing = put_at dir (record o { signal = signal' }) c.outgoing },
        wait_on k,
      )
      else (record (new_stream c s) { outgoing = put_at dir o' c.outgoing }, got s)
]

-- `openNow`: the peer's stream limit is an error.
pub data Opened : Type 0 where
  opened : Stream → Opened
  limit_reached : Opened
  not_open : Failure → Opened

unfoldable pub open_result : Attempt → Opened
open_result (got s) = opened s
open_result (failed e) = not_open e
open_result (wait_on k) = limit_reached
open_result dangling = limit_reached

unfoldable pub open_now : Conn → Dir → Conn × Opened
open_now c dir = let (c', a) = try_open c dir in (c', open_result a)

-- The stream at the head of the queue becomes the application's.
unfoldable pub accept_head : Conn → Stream → Conn × Attempt
accept_head c s =
    let (c', s') = complete_locked c (record s { accepted = true }) in (commit (c', s'), got s')

unfoldable pub accept_from : Conn → Dir → List ℕ → Conn × Attempt
accept_from c dir [] =
    let i = at dir c.incoming in
    let (k, signal') = wait i.signal in
    (record c { incoming = put_at dir (record i { signal = signal' }) c.incoming }, wait_on k)
accept_from c dir (id ∷ rest) =
    let c' = record c {
      incoming = put_at dir (record (at dir c.incoming) { queue = rest }) c.incoming;
    } in
    elim (find id c.heap) [ some s ↦ accept_head c' s | none ↦ (c, dangling) ]

unfoldable pub try_accept : Conn → Dir → Conn × Attempt
try_accept c dir = elim c.close_err [
  | some e ↦ (c, failed e)
  | none ↦ accept_from c dir (at dir c.incoming).queue
]
