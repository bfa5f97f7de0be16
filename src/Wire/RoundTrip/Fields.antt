-- ===== src/Wire/RoundTrip/Fields.antt =====
-- The cases of the switch in `Parse` on the fields behind the frame type.
use qmux_go.Base.{
  Bool, Bool-cases, List, [], append_assoc, arith, false, if◌then◌else◌, inl, inr, length, le→ltb,
  ltb, refl, true, ℕ, ◌++◌, ◌<◌, ◌^◌, ◌≡◌, ◌≤◌,
}
use qmux_go.Varint.{Varint}
use qmux_go.Wire.Error.{ok}
use qmux_go.Wire.Frame.{
  ConnectionClose, Datagram, MaxData, MaxStreamData, MaxStreams, Ping, ResetStream, StopSending,
  StreamFrame, connection_close, datagram, frame, max_data, max_stream_data, max_streams,
  max_streams_type, ping, ping_type, reset_stream, stop_sending, stream, stream_bit_fin,
  stream_bit_len, stream_bit_off, stream_type, stream_type_bits, transport_parameters,
  type_application_close, type_connection_close, type_stream, type_stream_max, with_length,
}
use qmux_go.Wire.Params.{Parameters, encode_parameters, max_stream_count}
use qmux_go.Wire.Parse.{
  has_bit, parameters_frame, read_connection_close, read_data, read_datagram, read_frame_type,
  read_max_data, read_max_stream_data, read_max_streams, read_offset, read_ping, read_reset_stream,
  read_stop_sending, read_stream, read_transport_parameters,
}
use qmux_go.Wire.Reader.{bytes_exact, reader, varint-encode}
use qmux_go.Wire.RoundTrip.Params.{parse_parameters-encode}
use qmux_go.Wire.RoundTrip.Valid.{IsDeclarable, IsEncodable, filled}

-- The bits of a STREAM frame's type.
stream_type_offset : (off fin : Bool) → has_bit (stream_type_bits off fin) stream_bit_off ≡ off
unfolding stream_type_bits
stream_type_offset true true = refl
stream_type_offset true false = refl
stream_type_offset false true = refl
stream_type_offset false false = refl

stream_type_length : (off fin : Bool) → has_bit (stream_type_bits off fin) stream_bit_len ≡ true
unfolding stream_type_bits
stream_type_length true true = refl
stream_type_length true false = refl
stream_type_length false true = refl
stream_type_length false false = refl

stream_type_fin : (off fin : Bool) → has_bit (stream_type_bits off fin) stream_bit_fin ≡ fin
unfolding stream_type_bits
stream_type_fin true true = refl
stream_type_fin true false = refl
stream_type_fin false true = refl
stream_type_fin false false = refl

pub stream_type_bounds :
    (off fin : Bool)
    → (type_stream ≤ stream_type_bits off fin) × (stream_type_bits off fin ≤ type_stream_max)
unfolding stream_type_bits
stream_type_bounds true true = omega arith
stream_type_bounds true false = omega arith
stream_type_bounds false true = omega arith
stream_type_bounds false false = omega arith

module _ ⦃q : Varint⦄ where
  pub read_data-with_length :
      (p tail : List ℕ)
      → length p < 2 ^ 62
      → read_data true (reader (with_length p ++ tail)) ≡ (p, reader tail)
  unfolding read_data
  read_data-with_length p tail h =
      rw (append_assoc, varint-encode (length p) (p ++ tail) h, bytes_exact p tail)

  pub read_reset_stream-encode :
      (f : ResetStream) (tail : List ℕ)
      → IsEncodable (reset_stream f)
      → read_reset_stream
          (reader ((q.encode f.stream_id ++ (q.encode f.code ++ q.encode f.final_size)) ++ tail))
        ≡ (reset_stream f, reader tail)
  unfolding read_reset_stream
  read_reset_stream-encode f tail h = rw (
    append_assoc,
    varint-encode f.stream_id _ h.0,
    append_assoc,
    varint-encode f.code _ h.1,
    varint-encode f.final_size _ h.2,
  )

  pub read_stop_sending-encode :
      (f : StopSending) (tail : List ℕ)
      → IsEncodable (stop_sending f)
      → read_stop_sending (reader ((q.encode f.stream_id ++ q.encode f.code) ++ tail))
        ≡ (stop_sending f, reader tail)
  unfolding read_stop_sending
  read_stop_sending-encode f tail h =
      rw (append_assoc, varint-encode f.stream_id _ h.0, varint-encode f.code _ h.1)

  read_offset-encode :
      (f : StreamFrame) (tail : List ℕ)
      → f.offset < 2 ^ 62
      → read_offset
          (stream_type f)
          (reader ((if ltb 0 f.offset then q.encode f.offset else []) ++ tail))
        ≡ (f.offset, reader tail)
  unfolding read_offset
  read_offset-encode f tail h =
      rw (stream_type_offset (ltb 0 f.offset) f.fin) (elim (Bool-cases (ltb 0 f.offset)) [
        | inl e ↦ rw (e, varint-encode f.offset tail h)
        | inr e ↦ ground arith
      ])

  pub read_stream-encode :
      (f : StreamFrame) (tail : List ℕ)
      → IsEncodable (stream f)
      → read_stream (stream_type f) (
          reader (
            (q.encode f.stream_id
              ++ ((if ltb 0 f.offset then q.encode f.offset else []) ++ with_length f.payload))
            ++ tail))
        ≡ (stream f, reader tail)
  unfolding read_stream
  read_stream-encode f tail h = rw (
    append_assoc,
    varint-encode f.stream_id _ h.0,
    append_assoc,
    read_offset-encode f _ h.1,
    stream_type_length (ltb 0 f.offset) f.fin,
    read_data-with_length f.payload tail h.2,
    stream_type_fin (ltb 0 f.offset) f.fin,
  )

  pub read_max_data-encode :
      (f : MaxData) (tail : List ℕ)
      → IsEncodable (max_data f)
      → read_max_data (reader (q.encode f.maximum ++ tail)) ≡ (max_data f, reader tail)
  unfolding read_max_data
  read_max_data-encode f tail h = rw (varint-encode f.maximum tail h)

  pub read_max_stream_data-encode :
      (f : MaxStreamData) (tail : List ℕ)
      → IsEncodable (max_stream_data f)
      → read_max_stream_data (reader ((q.encode f.stream_id ++ q.encode f.maximum) ++ tail))
        ≡ (max_stream_data f, reader tail)
  unfolding read_max_stream_data
  read_max_stream_data-encode f tail h =
      rw (append_assoc, varint-encode f.stream_id _ h.0, varint-encode f.maximum _ h.1)

  pub read_max_streams-encode :
      (f : MaxStreams) (tail : List ℕ)
      → IsEncodable (max_streams f)
      → read_max_streams (max_streams_type f.uni) (reader (q.encode f.maximum ++ tail))
        ≡ ok (frame (max_streams f), reader tail)
  unfolding read_max_streams
  read_max_streams-encode f tail h =
      rw (varint-encode f.maximum tail (omega arith), le→ltb max_stream_count f.maximum h)
        (ground arith)

  pub read_application_close-encode :
      (f : ConnectionClose) (tail : List ℕ)
      → IsEncodable (connection_close f)
      → f.application ≡ true
      → read_connection_close type_application_close
          (reader ((q.encode f.code ++ with_length f.reason) ++ tail))
        ≡ (connection_close f, reader tail)
  unfolding read_connection_close read_frame_type
  read_application_close-encode f tail h e =
      rw
        (
          append_assoc,
          varint-encode f.code _ h.0,
          append_assoc,
          varint-encode (length f.reason) _ h.2,
          bytes_exact f.reason tail,
        )
        (ground (arith, h.3 e))

  pub read_transport_close-encode :
      (f : ConnectionClose) (tail : List ℕ)
      → IsEncodable (connection_close f)
      → f.application ≡ false
      → read_connection_close type_connection_close
          (reader ((q.encode f.code ++ (q.encode f.frame_type ++ with_length f.reason)) ++ tail))
        ≡ (connection_close f, reader tail)
  unfolding read_connection_close read_frame_type
  read_transport_close-encode f tail h e =
      rw
        (
          append_assoc,
          varint-encode f.code _ h.0,
          append_assoc,
          varint-encode f.frame_type _ h.1,
          append_assoc,
          varint-encode (length f.reason) _ h.2,
          bytes_exact f.reason tail,
        )
        (ground arith)

  pub read_datagram-encode :
      (f : Datagram) (tail : List ℕ)
      → IsEncodable (datagram f)
      → read_datagram true (reader (with_length f.payload ++ tail)) ≡ (datagram f, reader tail)
  unfolding read_datagram
  read_datagram-encode f tail h = rw (read_data-with_length f.payload tail h)

  pub read_ping-encode :
      (f : Ping) (tail : List ℕ)
      → IsEncodable (ping f)
      → read_ping (ping_type f.response) (reader (q.encode f.sequence ++ tail))
        ≡ (ping f, reader tail)
  unfolding read_ping
  read_ping-encode f tail h = rw (varint-encode f.sequence tail h) (ground arith)

  pub read_transport_parameters-encode :
      (p : Parameters) (tail : List ℕ)
      → IsDeclarable p
      → length (encode_parameters p) < 2 ^ 62
      → read_transport_parameters (reader (with_length (encode_parameters p) ++ tail))
        ≡ ok (frame (transport_parameters (filled p)), reader tail)
  unfolding read_transport_parameters parameters_frame
  read_transport_parameters-encode p tail h l =
      rw (read_data-with_length (encode_parameters p) tail l, parse_parameters-encode p h)
