-- ===== src/Wire/RoundTrip/Frames.antt =====
-- `Parse` on each frame that `Append` of qmux/internal/wire/frame.go writes.
use qmux_go.Base.{
  Bool, Bool-cases, List, append_assoc, arith, false, inl, inr, ltb, refl, some, true, ℕ, ◌++◌, ◌<◌,
  ◌==◌, ◌^◌, ◌∙◌, ◌∷◌, ◌≡◌, ◌≢◌, ◌≤◌,
}
use qmux_go.Varint.{Varint}
use qmux_go.Wire.Error.{ok, ◌>>=◌}
use qmux_go.Wire.Frame.{
  ConnectionClose, Frame, MaxStreams, Parsed, Ping, StreamFrame, connection_close, datagram, encode,
  encode_connection_close, encode_datagram, encode_max_data, encode_max_stream_data,
  encode_max_streams, encode_ping, encode_reset_stream, encode_stop_sending, encode_stream,
  encode_transport_parameters, frame, max_data, max_stream_data, max_streams, max_streams_type,
  ping, ping_type, reset_stream, stop_sending, stream, stream_type, transport_parameters,
  type_application_close, type_connection_close, type_datagram_len, type_max_data,
  type_max_stream_data, type_reset_stream, type_stop_sending, type_stream, type_stream_max,
  type_transport_parameters,
}
use qmux_go.Wire.Params.{Parameters}
use qmux_go.Wire.Parse.{
  conclude, parse, parse_unpadded, read_body, read_max_streams, read_ping, read_stream,
  skip_padding,
}
use qmux_go.Wire.Reader.{Reader, reader, varint, varint-encode, varint_small}
use qmux_go.Wire.RoundTrip.Fields.{
  read_application_close-encode, read_datagram-encode, read_max_data-encode,
  read_max_stream_data-encode, read_max_streams-encode, read_ping-encode, read_reset_stream-encode,
  read_stop_sending-encode, read_stream-encode, read_transport_close-encode,
  read_transport_parameters-encode, stream_type_bounds,
}
use qmux_go.Wire.RoundTrip.Params.{length-encode_parameters}
use qmux_go.Wire.RoundTrip.Valid.{IsDeclarable, IsEncodable, filled, received}

module _ ⦃q : Varint⦄ where
  -- A frame behind a type of one byte.
  parse_small :
      (t : ℕ) (bs : List ℕ) (f : Parsed) (s : List ℕ)
      → t < 64
      → t ≢ 0
      → read_body t (reader bs) ≡ ok (f, reader s)
      → parse (t ∷ bs) ≡ ok (some f, s)
  unfolding parse skip_padding parse_unpadded conclude
  parse_small t bs f s h n e = rw (neq, varint_small t bs h, e)
    where
      neq : (t == 0) ≡ false
      neq = ground arith

  -- Or behind any bytes that do not start with PADDING.
  parse_first :
      (xs bs : List ℕ)
      → ((h : ℕ) × (t : List ℕ) × (xs ≡ h ∷ t) × (h ≢ 0))
      → parse (xs ++ bs) ≡ (
          read_body (varint (reader (xs ++ bs))).0 (varint (reader (xs ++ bs))).1
          >>= conclude (varint (reader (xs ++ bs))).0)
  unfolding parse skip_padding parse_unpadded
  parse_first xs bs (h, t, e, n) = rw (e, neq)
    where
      neq : (h == 0) ≡ false
      neq = ground arith

  parse_large :
      (t : ℕ) (bs : List ℕ) (f : Parsed) (s : List ℕ)
      → 64 ≤ t
      → t < 2 ^ 62
      → read_body t (reader bs) ≡ ok (f, reader s)
      → parse (q.encode t ++ bs) ≡ ok (some f, s)
  unfolding conclude
  parse_large t bs f s l h e =
      parse_first (q.encode t) bs (q.encode_large t l h) ∙ rw (varint-encode t bs h, e)

  read_body_stream :
      (t : ℕ) (r : Reader)
      → type_stream ≤ t
      → t ≤ type_stream_max
      → read_body t r ≡ ok (frame (read_stream t r).0, (read_stream t r).1)
  unfolding read_body
  read_body_stream t r lo hi = ground arith

  read_body_max_streams :
      (one_way : Bool) (r : Reader)
      → read_body (max_streams_type one_way) r ≡ read_max_streams (max_streams_type one_way) r
  unfolding read_body
  read_body_max_streams true r = refl
  read_body_max_streams false r = refl

  read_body_ping :
      (response : Bool) (r : Reader)
      → read_body (ping_type response) r
        ≡ ok (frame (read_ping (ping_type response) r).0, (read_ping (ping_type response) r).1)
  unfolding read_body
  read_body_ping true r = refl
  read_body_ping false r = refl

  parse-encode_stream :
      (f : StreamFrame) (tail : List ℕ)
      → IsEncodable (stream f)
      → parse (encode (stream f) ++ tail) ≡ ok (some (frame (stream f)), tail)
  unfolding encode encode_stream
  parse-encode_stream f tail h =
      let (lo, hi) = stream_type_bounds (ltb 0 f.offset) f.fin in
      parse_small (stream_type f) _ _ tail (omega arith) (omega arith)
        (read_body_stream (stream_type f) _ lo hi ∙ rw (read_stream-encode f tail h))

  parse-encode_close :
      (f : ConnectionClose) (tail : List ℕ)
      → IsEncodable (connection_close f)
      → parse (encode (connection_close f) ++ tail) ≡ ok (some (frame (connection_close f)), tail)
  unfolding encode encode_connection_close read_body
  parse-encode_close f tail h = elim (Bool-cases f.application) [
    | inl e ↦ simp e (
        parse_small type_application_close _ _ tail (omega arith) (omega arith)
          (rw (read_application_close-encode f tail h e)))
    | inr e ↦ simp e (
        parse_small type_connection_close _ _ tail (omega arith) (omega arith)
          (rw (read_transport_close-encode f tail h e)))
  ]

  parse-encode_max_streams :
      (f : MaxStreams) (tail : List ℕ)
      → IsEncodable (max_streams f)
      → parse (encode (max_streams f) ++ tail) ≡ ok (some (frame (max_streams f)), tail)
  unfolding encode encode_max_streams
  parse-encode_max_streams f tail h =
      parse_small (max_streams_type f.uni) _ _ tail (ground arith) (ground arith)
        (read_body_max_streams f.uni _ ∙ read_max_streams-encode f tail h)

  parse-encode_ping :
      (f : Ping) (tail : List ℕ)
      → IsEncodable (ping f)
      → parse (encode (ping f) ++ tail) ≡ ok (some (frame (ping f)), tail)
  unfolding encode encode_ping
  parse-encode_ping f tail h = rw append_assoc (
      parse_large (ping_type f.response) _ _ tail (ground arith) (ground arith)
        (read_body_ping f.response _ ∙ rw (read_ping-encode f tail h)))

  parse-encode_parameters :
      (p : Parameters) (tail : List ℕ)
      → IsDeclarable p
      → parse (encode (transport_parameters p) ++ tail)
        ≡ ok (some (frame (transport_parameters (filled p))), tail)
  unfolding encode encode_transport_parameters read_body
  parse-encode_parameters p tail h = rw append_assoc (
      parse_large type_transport_parameters _ _ tail (omega arith) (omega arith)
        (read_transport_parameters-encode p tail h (omega (arith, length-encode_parameters p h))))

  -- For every frame with values that can be encoded, `Parse` reads back from its encoding,
  -- whatever follows it in the record, the frame itself, transport parameters with the default of
  -- an absent `max_record_size`, and leaves what follows.
  pub parse-encode :
      (f : Frame) (tail : List ℕ)
      → IsEncodable f
      → parse (encode f ++ tail) ≡ ok (some (frame (received f)), tail)
  parse-encode (stream f) tail h = parse-encode_stream f tail h
  parse-encode (connection_close f) tail h = parse-encode_close f tail h
  parse-encode (max_streams f) tail h = parse-encode_max_streams f tail h
  parse-encode (ping f) tail h = parse-encode_ping f tail h
  parse-encode (transport_parameters p) tail h = parse-encode_parameters p tail h
  parse-encode (reset_stream f) tail h =
      unfold encode encode_reset_stream read_body in
      parse_small type_reset_stream _ _ tail (omega arith) (omega arith)
        (rw (read_reset_stream-encode f tail h))
  parse-encode (stop_sending f) tail h =
      unfold encode encode_stop_sending read_body in
      parse_small type_stop_sending _ _ tail (omega arith) (omega arith)
        (rw (read_stop_sending-encode f tail h))
  parse-encode (max_data f) tail h =
      unfold encode encode_max_data read_body in
      parse_small type_max_data _ _ tail (omega arith) (omega arith)
        (rw (read_max_data-encode f tail h))
  parse-encode (max_stream_data f) tail h =
      unfold encode encode_max_stream_data read_body in
      parse_small type_max_stream_data _ _ tail (omega arith) (omega arith)
        (rw (read_max_stream_data-encode f tail h))
  parse-encode (datagram f) tail h =
      unfold encode encode_datagram read_body in
      parse_small type_datagram_len _ _ tail (omega arith) (omega arith)
        (rw (read_datagram-encode f tail h))
