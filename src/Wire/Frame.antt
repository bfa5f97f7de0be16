-- ===== src/Wire/Frame.antt =====
-- The frames of qmux/internal/wire/frame.go and their encoding. `Append(b)` of a frame is `b`
-- followed by the bytes that `encode` gives.
use qmux_go.Base.{Bool, List, [], if◌then◌else◌, length, ltb, ℕ, ◌++◌, ◌+◌, ◌∷◌}
use qmux_go.Varint.{Varint}
use qmux_go.Wire.Params.{Parameters, encode_parameters}
use Prim.Native.Nat.{bit_or}

abbrev pub type_reset_stream : ℕ
type_reset_stream = 0x04

abbrev pub type_stop_sending : ℕ
type_stop_sending = 0x05

abbrev pub type_stream : ℕ
type_stream = 0x08

abbrev pub type_stream_max : ℕ
type_stream_max = 0x0f

abbrev pub type_max_data : ℕ
type_max_data = 0x10

abbrev pub type_max_stream_data : ℕ
type_max_stream_data = 0x11

abbrev pub type_max_streams_bidi : ℕ
type_max_streams_bidi = 0x12

abbrev pub type_max_streams_uni : ℕ
type_max_streams_uni = 0x13

abbrev pub type_data_blocked : ℕ
type_data_blocked = 0x14

abbrev pub type_stream_data_blocked : ℕ
type_stream_data_blocked = 0x15

abbrev pub type_streams_blocked : ℕ
type_streams_blocked = 0x16

abbrev pub type_streams_blocked_uni : ℕ
type_streams_blocked_uni = 0x17

abbrev pub type_connection_close : ℕ
type_connection_close = 0x1c

abbrev pub type_application_close : ℕ
type_application_close = 0x1d

abbrev pub type_datagram : ℕ
type_datagram = 0x30

abbrev pub type_datagram_len : ℕ
type_datagram_len = 0x31

abbrev pub type_transport_parameters : ℕ
type_transport_parameters = 0x3f5153300d0a0d0a

abbrev pub type_ping_request : ℕ
type_ping_request = 0x348c67529ef8c7bd

abbrev pub type_ping_response : ℕ
type_ping_response = 0x348c67529ef8c7be

abbrev pub stream_bit_fin : ℕ
stream_bit_fin = 0x01

abbrev pub stream_bit_len : ℕ
stream_bit_len = 0x02

abbrev pub stream_bit_off : ℕ
stream_bit_off = 0x04

-- The largest encoding of a STREAM frame without its data.
abbrev pub stream_overhead : ℕ
stream_overhead = 1 + 8 + 8 + 8

pub record ResetStream : Type 0 where
  pub stream_id : ℕ
  pub code : ℕ
  pub final_size : ℕ

pub record StopSending : Type 0 where
  pub stream_id : ℕ
  pub code : ℕ

pub record StreamFrame : Type 0 where
  pub stream_id : ℕ
  pub offset : ℕ
  pub payload : List ℕ
  pub fin : Bool

pub record MaxData : Type 0 where
  pub maximum : ℕ

pub record MaxStreamData : Type 0 where
  pub stream_id : ℕ
  pub maximum : ℕ

pub record MaxStreams : Type 0 where
  pub uni : Bool
  pub maximum : ℕ

-- The reason is the bytes of a Go string.
pub record ConnectionClose : Type 0 where
  pub application : Bool
  pub code : ℕ
  pub frame_type : ℕ
  pub reason : List ℕ

pub record Datagram : Type 0 where
  pub payload : List ℕ

pub record Ping : Type 0 where
  pub response : Bool
  pub sequence : ℕ

-- The `Frame` interface: the frames that an endpoint can send.
pub data Frame : Type 0 where
  reset_stream : ResetStream → Frame
  stop_sending : StopSending → Frame
  stream : StreamFrame → Frame
  max_data : MaxData → Frame
  max_stream_data : MaxStreamData → Frame
  max_streams : MaxStreams → Frame
  connection_close : ConnectionClose → Frame
  datagram : Datagram → Frame
  ping : Ping → Frame
  transport_parameters : Parameters → Frame

-- What `Parse` returns as `any`: also the informational `Blocked`, which has no encoding.
pub data Parsed : Type 0 where
  frame : Frame → Parsed
  blocked : Parsed

-- The type byte of a STREAM frame, which always carries its length, by whether it carries an
-- offset and whether it is the last.
unfoldable pub stream_type_bits : Bool → Bool → ℕ
stream_type_bits off fin =
    let t = bit_or type_stream stream_bit_len in
    let t₁ = if off then bit_or t stream_bit_off else t in
    if fin then bit_or t₁ stream_bit_fin else t₁

abbrev pub stream_type : StreamFrame → ℕ
stream_type f = stream_type_bits (ltb 0 f.offset) f.fin

abbrev pub max_streams_type : Bool → ℕ
max_streams_type one_way = if one_way then type_max_streams_uni else type_max_streams_bidi

abbrev pub ping_type : Bool → ℕ
ping_type response = if response then type_ping_response else type_ping_request

module _ ⦃q : Varint⦄ where
  -- A varint length, and the bytes.
  abbrev pub with_length : List ℕ → List ℕ
  with_length p = q.encode (length p) ++ p

  unfoldable pub encode_reset_stream : ResetStream → List ℕ
  encode_reset_stream f =
      type_reset_stream ∷ (q.encode f.stream_id ++ (q.encode f.code ++ q.encode f.final_size))

  unfoldable pub encode_stop_sending : StopSending → List ℕ
  encode_stop_sending f = type_stop_sending ∷ (q.encode f.stream_id ++ q.encode f.code)

  unfoldable pub encode_stream : StreamFrame → List ℕ
  encode_stream f =
      stream_type f
      ∷ (q.encode f.stream_id
          ++ ((if ltb 0 f.offset then q.encode f.offset else []) ++ with_length f.payload))

  unfoldable pub encode_max_data : MaxData → List ℕ
  encode_max_data f = type_max_data ∷ q.encode f.maximum

  unfoldable pub encode_max_stream_data : MaxStreamData → List ℕ
  encode_max_stream_data f = type_max_stream_data ∷ (q.encode f.stream_id ++ q.encode f.maximum)

  unfoldable pub encode_max_streams : MaxStreams → List ℕ
  encode_max_streams f = max_streams_type f.uni ∷ q.encode f.maximum

  unfoldable pub encode_connection_close : ConnectionClose → List ℕ
  encode_connection_close f =
      if f.application
      then type_application_close ∷ (q.encode f.code ++ with_length f.reason)
      else type_connection_close
        ∷ (q.encode f.code ++ (q.encode f.frame_type ++ with_length f.reason))

  unfoldable pub encode_datagram : Datagram → List ℕ
  encode_datagram f = type_datagram_len ∷ with_length f.payload

  -- `Len` of a DATAGRAM frame.
  unfoldable pub datagram_len : Datagram → ℕ
  datagram_len f = 1 + q.len (length f.payload) + length f.payload

  unfoldable pub encode_ping : Ping → List ℕ
  encode_ping f = q.encode (ping_type f.response) ++ q.encode f.sequence

  unfoldable pub encode_transport_parameters : Parameters → List ℕ
  encode_transport_parameters p =
      q.encode type_transport_parameters ++ with_length (encode_parameters p)

  unfoldable pub encode : Frame → List ℕ
  encode (reset_stream f) = encode_reset_stream f
  encode (stop_sending f) = encode_stop_sending f
  encode (stream f) = encode_stream f
  encode (max_data f) = encode_max_data f
  encode (max_stream_data f) = encode_max_stream_data f
  encode (max_streams f) = encode_max_streams f
  encode (connection_close f) = encode_connection_close f
  encode (datagram f) = encode_datagram f
  encode (ping f) = encode_ping f
  encode (transport_parameters p) = encode_transport_parameters p
