-- ===== src/Conn/Close.antt =====
-- The end of a connection: `terminate`, and the frame and the error of `closeWithTransportError` and
-- `CloseWithError` of qmux/conn.go. Endpoint is about writing the frame, the timer and shutting the
-- transport down.
use qmux_go.Base.{
  Bool, List, [], arith, contains, false, if◌then◌else◌, is_some, length, length-append,
  length-take, some, take, true, ℕ, ◌-◌, ◌<◌, ◌^◌, ◌∷◌, ◌≤◌,
}
use qmux_go.Conn.Control.{max_control_frame_size}
use qmux_go.Conn.Failure.{Failure, application_error, transport_error}
use qmux_go.Conn.Signal.{broadcast}
use qmux_go.Conn.State.{Conn, Incoming, Outgoing, Stream}
use qmux_go.Varint.{Varint}
use qmux_go.Varint.Sizes.{encode_bounds}
use qmux_go.Wire.Error.{Error, Reason}
use qmux_go.Wire.Frame.{ConnectionClose, connection_close, encode, encode_connection_close}
use qmux_go.Wire.Params.{default_max_record_size}

-- `maxReasonLength`.
abbrev pub max_reason_length : ℕ
max_reason_length = default_max_record_size - max_control_frame_size

unfoldable pub wake_stream : Stream → Stream
wake_stream s = record s {
  read_signal = broadcast s.read_signal;
  write_signal = broadcast s.write_signal;
}

-- The loop over the map `streams`.
unfoldable pub wake_streams : List ℕ → List Stream → List Stream
wake_streams ids [] = []
wake_streams ids (s ∷ ss) =
    let rest = wake_streams ids ss in if contains s.id ids then wake_stream s ∷ rest else s ∷ rest

abbrev wake_outgoing : Outgoing → Outgoing
wake_outgoing o = record o { signal = broadcast o.signal }

abbrev wake_incoming : Incoming → Incoming
wake_incoming i = record i { signal = broadcast i.signal }

-- The connection, and whether this call ended it.
unfoldable pub terminate : Conn → Failure → Conn × Bool
terminate c e = if is_some c.close_err then (c, false) else (
  record c {
    close_err = some e;
    cause = if is_some c.cause then c.cause else some e;
    handshake = true;
    send_signal = broadcast c.send_signal;
    outgoing = record {
      two_way_part = wake_outgoing c.outgoing.two_way_part;
      one_way_part = wake_outgoing c.outgoing.one_way_part;
    };
    incoming = record {
      two_way_part = wake_incoming c.incoming.two_way_part;
      one_way_part = wake_incoming c.incoming.one_way_part;
    };
    heap = wake_streams c.streams c.heap;
    streams = [];
  },
  true,
)

-- What `closeWithTransportError` reports and sends. `render` is `fmt.Sprintf`, which makes the text
-- of a reason.
unfoldable pub transport_close : (Reason → List ℕ) → Error → Failure × ConnectionClose
transport_close render e =
    let reason = take max_reason_length (render e.reason) in
    (
      transport_error false e.code 0 reason,
      record { application = false; code = e.code; frame_type = 0; reason = reason },
    )

-- What `CloseWithError` reports and sends.
unfoldable pub application_close : ℕ → List ℕ → Failure × ConnectionClose
application_close code msg =
    let msg' = take max_reason_length msg in
    (
      application_error false code msg',
      record { application = true; code = code; frame_type = 0; reason = msg' },
    )

-- `Close`.
unfoldable pub close_plainly : Failure × ConnectionClose
close_plainly = application_close 0 []

module _ ⦃q : Varint⦄ where
  -- With an error code below 2^62, the CONNECTION_CLOSE frame of a transport error fits a record
  -- of the default size, however long its reason.
  pub transport_close-length :
      (render : Reason → List ℕ) (e : Error)
      → e.code < 2 ^ 62
      → length (encode (connection_close (transport_close render e).1)) ≤ default_max_record_size
  unfolding transport_close encode encode_connection_close
  transport_close-length render e h = simp length-append (
      omega (
        arith,
        encode_bounds e.code h,
        encode_bounds 0 (omega arith),
        length-take max_reason_length (render e.reason),
        encode_bounds (length (take max_reason_length (render e.reason))),
      ))

  -- With an error code below 2^62, the CONNECTION_CLOSE frame of the application fits a record of
  -- the default size, however long its message.
  pub application_close-length :
      (code : ℕ) (msg : List ℕ)
      → code < 2 ^ 62
      → length (encode (connection_close (application_close code msg).1)) ≤ default_max_record_size
  unfolding application_close encode encode_connection_close
  application_close-length code msg h = simp length-append (
      omega (
        arith,
        encode_bounds code h,
        length-take max_reason_length msg,
        encode_bounds (length (take max_reason_length msg)),
      ))
