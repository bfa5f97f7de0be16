-- ===== src/Conn/Handle.antt =====
-- Processing the peer's frames: `handleRecord`, `handleFrameLocked` and the handlers that it calls
-- in qmux/conn.go. `now` is `time.Now()`.
use qmux_go.Base.{
  Bool, List, Option, [], false, if◌then◌else◌, is_some, leb, length, ltb, max, min, none, some,
  suc, true, zero, ℕ, ◌&&◌, ◌*◌, ◌++◌, ◌+◌, ◌-◌, ◌/◌, ◌==◌, ◌^◌, ◌||◌, ◌∷◌,
}
use qmux_go.Config.{millisecond}
use qmux_go.Conn.Failure.{Failure, application_error, transport_error}
use qmux_go.Conn.Ids.{Dir, one_way, two_way}
use qmux_go.Conn.Receive.{Growth, Outcome, closed, fine, stream_data, stream_reset, violation}
use qmux_go.Conn.Send.{stop_sending_locked}
use qmux_go.Conn.Signal.{broadcast}
use qmux_go.Conn.State.{Conn, Outgoing, RttStats, Stream, at, commit, datagram_queue_size, put_at}
use qmux_go.Conn.Streams.{stream_locked}
use qmux_go.Varint.{Varint}
use qmux_go.Wire.Error.{
  Result, datagram_too_large, err, ok, params_not_first, ping_not_increased, ping_not_sent,
  protocol_violation, stuck,
}
use qmux_go.Wire.Frame.{
  ConnectionClose, Datagram, Frame, Parsed, Ping, blocked, connection_close, datagram, frame,
  max_data, max_stream_data, max_streams, ping, reset_stream, stop_sending, stream,
  transport_parameters,
}
use qmux_go.Wire.Params.{Parameters}
use qmux_go.Wire.Parse.{parse}
use qmux_go.Wire.Reader.{rest}
pub mod Accounting
pub mod Total
pub mod Open
pub mod Violations

unfoldable pub rtt_update : RttStats → ℕ → RttStats
rtt_update s rtt =
    let least = if s.min == 0 || ltb rtt s.min then rtt else s.min in
    let apart = (s.smoothed - rtt) + (rtt - s.smoothed) in
    if s.smoothed == 0
    then record { min = least; latest = rtt; smoothed = rtt; deviation = rtt / 2 }
    else record {
      min = least;
      latest = rtt;
      smoothed = (7 * s.smoothed + rtt) / 8;
      deviation = (3 * s.deviation + apart) / 4;
    }

-- The longest idle timeout, in milliseconds, that a time.Duration holds.
abbrev pub max_idle_milliseconds : ℕ
max_idle_milliseconds = (2 ^ 63 - 1) / millisecond

-- The peer's idle timeout applies when it is the shorter one; 0 is none.
unfoldable pub joined_idle_timeout : ℕ → ℕ → ℕ
joined_idle_timeout ours theirs =
    if ltb 0 theirs && leb theirs max_idle_milliseconds
    then (if ours == 0 || ltb (theirs * millisecond) ours then theirs * millisecond else ours)
    else ours

unfoldable pub raise_outgoing : Outgoing → ℕ → Outgoing
raise_outgoing o limit = record o { max = limit; signal = broadcast o.signal }

unfoldable pub handle_parameters : Conn → Parameters → Conn
handle_parameters c p = record c {
  peer = p;
  ready = true;
  send_max = p.initial_max_data;
  outgoing = record {
    two_way_part = raise_outgoing c.outgoing.two_way_part p.initial_max_streams_bidi;
    one_way_part = raise_outgoing c.outgoing.one_way_part p.initial_max_streams_uni;
  };
  idle_timeout = joined_idle_timeout c.idle_timeout p.max_idle_timeout;
  handshake = true;
  send_signal = broadcast c.send_signal;
}

unfoldable pub handle_ping_response : ℕ → Conn → ℕ → Conn × Outcome
handle_ping_response now c n =
    if leb c.next_ping n
    then (c, violation (protocol_violation ping_not_sent))
    else if n == c.next_ping - 1
    then (record c { rtt = rtt_update c.rtt (now - c.ping_sent_at); ping_unanswered = false }, fine)
    else (c, fine)

unfoldable pub handle_ping_request : Conn → ℕ → Conn × Outcome
handle_ping_request c n =
    if c.peer_pinged && leb n c.peer_ping_last
    then (c, violation (protocol_violation ping_not_increased))
    else (
      record c {
        peer_pinged = true;
        peer_ping_last = n;
        pong_pending = true;
        pong_sequence = n;
        control_wake = true;
      },
      fine,
    )

unfoldable pub handle_ping : ℕ → Conn → Ping → Conn × Outcome
handle_ping now c f =
    if f.response then handle_ping_response now c f.sequence else handle_ping_request c f.sequence

-- A datagram that the application is too slow for is dropped.
unfoldable pub handle_datagram : Conn → Datagram → Conn × Outcome
handle_datagram c f =
    if ltb c.config.max_datagram_frame_size (1 + length f.payload)
    then (c, violation (protocol_violation datagram_too_large))
    else (
      (if ltb (length c.datagrams) datagram_queue_size
          then record c { datagrams = c.datagrams ++ f.payload ∷ [] }
          else c),
      fine,
    )

unfoldable pub handle_max_data : Conn → ℕ → Conn
handle_max_data c m =
    if ltb c.send_max m then record c { send_max = m; send_signal = broadcast c.send_signal } else c

unfoldable pub handle_max_streams : Conn → Dir → ℕ → Conn
handle_max_streams c dir m =
    if ltb (at dir c.outgoing).max m
    then record c { outgoing = put_at dir (raise_outgoing (at dir c.outgoing) m) c.outgoing }
    else c

unfoldable pub handle_max_stream_data : Conn → Stream → ℕ → Conn
handle_max_stream_data c s m =
    if ltb s.send_max m
    then commit (c, record s { send_max = m; write_signal = broadcast s.write_signal })
    else c

-- A handler for the stream that a frame names, with the `streamLocked` call that starts it; a
-- stream that has closed is ignored.
unfoldable pub on_stream :
    Conn → Result (Conn × Option Stream) → (Conn → Stream → Conn × Outcome) → Conn × Outcome
on_stream c (ok (c', some s)) handler = handler c' s
on_stream c (ok (c', none)) handler = (c', fine)
on_stream c (err e) handler = (c, violation e)
on_stream c stuck handler = (c, fine)

abbrev pub max_streams_dir : Bool → Dir
max_streams_dir true = one_way
max_streams_dir false = two_way

-- The error that the peer's CONNECTION_CLOSE reports.
unfoldable pub close_reason : ConnectionClose → Failure
close_reason f =
    if f.application
    then application_error true f.code f.reason
    else transport_error true f.code f.frame_type f.reason

module _ ⦃g : Growth⦄ where
  -- The frames behind the transport parameters.
  unfoldable pub handle_ready : ℕ → Conn → Frame → Conn × Outcome
  handle_ready now c (stream f) =
      on_stream c (stream_locked c f.stream_id true) (λ c' s. stream_data c' s f)
  handle_ready now c (reset_stream f) =
      on_stream c (stream_locked c f.stream_id true) (λ c' s. stream_reset c' s f)
  handle_ready now c (stop_sending f) =
      on_stream c (stream_locked c f.stream_id false)
        (λ c' s. (stop_sending_locked c' s f.code, fine))
  handle_ready now c (max_stream_data f) =
      on_stream c (stream_locked c f.stream_id false)
        (λ c' s. (handle_max_stream_data c' s f.maximum, fine))
  handle_ready now c (max_data f) = (handle_max_data c f.maximum, fine)
  handle_ready now c (max_streams f) =
      (handle_max_streams c (max_streams_dir f.uni) f.maximum, fine)
  handle_ready now c (ping f) = handle_ping now c f
  handle_ready now c (datagram f) = handle_datagram c f
  handle_ready now c (connection_close f) = (c, closed (close_reason f))
  handle_ready now c (transport_parameters p) = (c, violation (protocol_violation params_not_first))

  -- The transport parameters are the first frame, and only the first.
  unfoldable pub handle_first : Conn → Parsed → Conn × Outcome
  handle_first c (frame (transport_parameters p)) = (handle_parameters c p, fine)
  handle_first c _ = (c, violation (protocol_violation params_not_first))

  unfoldable pub handle_frame : ℕ → Conn → Parsed → Conn × Outcome
  handle_frame now c (frame f) = if c.ready then handle_ready now c f else handle_first c (frame f)
  handle_frame now c blocked = if c.ready then (c, fine) else handle_first c blocked

  -- The loop of `handleRecord`: `none` stands for fuel that ran out.
  module _ ⦃q : Varint⦄ where
    unfoldable pub record_loop : ℕ → ℕ → Conn → List ℕ → Option (Conn × Outcome)
    record_loop zero now c rec = none
    record_loop (suc fuel) now c rec =
        let more = λ (c' : Conn) (rest : List ℕ). record_loop fuel now c' rest in
        if length rec == 0 || is_some c.close_err then some (c, fine) else elim (parse rec) [
          | err e ↦ some (c, violation e)
          | stuck ↦ none
          | ok (none, rest) ↦ some (c, fine)
          | ok (some f, rest) ↦
              let (c', o) = handle_frame now c f in
              elim o [
                | fine ↦ more c' rest
                | violation e ↦ some (c', violation e)
                | closed e ↦ some (c', closed e)
              ]
        ]

    -- Each frame takes a byte at least.
    unfoldable pub handle_record : ℕ → Conn → List ℕ → Option (Conn × Outcome)
    handle_record now c rec = record_loop (suc (length rec)) now c rec
