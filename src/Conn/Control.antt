-- ===== src/Conn/Control.antt =====
-- The control queue: `takeControl`, `flushControl` and `requestPing` of qmux/conn.go. `now` is
-- `time.Now()`. `flushControl` is modelled on a transport that takes every record.
use qmux_go.Base.{
  Bool, List, [], add64, false, if◌then◌else◌, is_some, leb, length, ltb, not, true, ℕ, ◌&&◌, ◌++◌,
  ◌-◌, ◌==◌, ◌∷◌,
}
use qmux_go.Conn.Ids.{Dir, one_way, two_way}
use qmux_go.Conn.State.{Conn, at, put_at}
use qmux_go.Conn.Streams.{is_two_way}
use qmux_go.Varint.{Varint}
use qmux_go.Wire.Frame.{Frame, encode, max_data, max_streams, ping}
use qmux_go.Wire.Params.{default_max_record_size}
pub mod Records

-- `maxControlFrameSize`.
abbrev pub max_control_frame_size : ℕ
max_control_frame_size = 32

-- The parts of `takeControl`: each clears its flag, and appends its frame if the flag was set.
unfoldable pub take_max_data : Conn × List Frame → Conn × List Frame
take_max_data (c, fs) =
    if c.max_data_pending
    then (
      record c { max_data_pending = false },
      fs ++ max_data (record { maximum = c.recv_max }) ∷ [],
    )
    else (c, fs)

unfoldable pub take_max_streams : Dir → Conn × List Frame → Conn × List Frame
take_max_streams dir (c, fs) =
    let i = at dir c.incoming in
    if i.pending
    then (
      record c { incoming = put_at dir (record i { pending = false }) c.incoming },
      fs ++ max_streams (record { uni = not (is_two_way dir); maximum = i.max }) ∷ [],
    )
    else (c, fs)

unfoldable pub take_pong : Conn × List Frame → Conn × List Frame
take_pong (c, fs) =
    if c.pong_pending
    then (
      record c { pong_pending = false },
      fs ++ ping (record { response = true; sequence = c.pong_sequence }) ∷ [],
    )
    else (c, fs)

unfoldable pub take_ping : ℕ → Conn × List Frame → Conn × List Frame
take_ping now (c, fs) =
    if c.ping_pending
    then (
      record c {
        ping_pending = false;
        next_ping = add64 c.next_ping 1;
        ping_sent_at = now;
        ping_unanswered = true;
        ping_unanswered_at = if c.ping_unanswered then c.ping_unanswered_at else now;
      },
      fs ++ ping (record { response = false; sequence = c.next_ping }) ∷ [],
    )
    else (c, fs)

-- A closed connection sends nothing.
unfoldable pub take_control : ℕ → Conn → Conn × List Frame
take_control now c =
    if is_some c.close_err
    then (c, [])
    else take_ping now (
        take_pong (
          take_max_streams one_way
            (take_max_streams two_way (take_max_data (record c { control = [] }, c.control)))))

-- `requestPing`: a ping is asked for, unless pings went unanswered for the idle timeout.
unfoldable pub request_ping : ℕ → Conn → Conn × Bool
request_ping now c =
    if c.ping_unanswered
      && (ltb 0 c.idle_timeout && leb c.idle_timeout (now - c.ping_unanswered_at))
    then (c, false)
    else (record c { ping_pending = true; control_wake = true }, true)

module _ ⦃q : Varint⦄ where
  -- The loop of `flushControl`: the Frames fields of the records that it writes, `buf` being the
  -- one under construction.
  unfoldable pub flush_records : List ℕ → List Frame → List (List ℕ)
  flush_records buf [] = if length buf == 0 then [] else buf ∷ []
  flush_records buf (f ∷ fs) =
      let buf' = buf ++ encode f in
      let full = flush_records [] fs in
      let more = flush_records buf' fs in
      if ltb (default_max_record_size - max_control_frame_size) (length buf')
      then buf' ∷ full
      else more

  unfoldable pub flush_control : ℕ → Conn → Conn × List (List ℕ)
  flush_control now c = let (c', fs) = take_control now c in (c', flush_records [] fs)
