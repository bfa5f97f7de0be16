-- ===== src/Wire/Parse.antt =====
-- `Parse` of qmux/internal/wire/frame.go.
use qmux_go.Base.{
  Bool, List, Option, [], false, if◌then◌else◌, leb, ltb, none, not, some, true, ℕ, ◌&&◌, ◌==◌,
  ◌||◌, ◌∷◌,
}
use qmux_go.Varint.{Varint}
use qmux_go.Wire.Error.{
  Result, err, frame_encoding_error, frame_not_allowed, frame_truncated, max_streams_above, ok,
  streams_blocked_above, stuck, ◌>>=◌,
}
use qmux_go.Wire.Frame.{
  Frame, Parsed, blocked, connection_close, datagram, frame, max_data, max_stream_data, max_streams,
  ping, reset_stream, stop_sending, stream, stream_bit_fin, stream_bit_len, stream_bit_off,
  transport_parameters, type_application_close, type_connection_close, type_data_blocked,
  type_datagram, type_datagram_len, type_max_data, type_max_stream_data, type_max_streams_bidi,
  type_max_streams_uni, type_ping_request, type_ping_response, type_reset_stream, type_stop_sending,
  type_stream, type_stream_data_blocked, type_stream_max, type_streams_blocked,
  type_streams_blocked_uni, type_transport_parameters,
}
use qmux_go.Wire.Params.{Parameters, max_stream_count, no_parameters}
use qmux_go.Wire.Params.Parse.{parse_parameters}
use qmux_go.Wire.Reader.{Reader, bytes, reader, rest, varint}
use Prim.Native.Nat.{bit_and}
pub mod Progress

-- `t & bit != 0`.
abbrev pub has_bit : ℕ → ℕ → Bool
has_bit t bit = not (bit_and t bit == 0)

-- PADDING frames are skipped.
unfoldable pub skip_padding : List ℕ → List ℕ
skip_padding [] = []
skip_padding (b ∷ bs) = if b == 0 then skip_padding bs else b ∷ bs

module _ ⦃q : Varint⦄ where
  -- The cases of the switch on the frame type, behind the type.
  unfoldable pub read_reset_stream : Reader → Frame × Reader
  read_reset_stream r =
      let (id, r₁) = varint r in
      let (code, r₂) = varint r₁ in
      let (size, r₃) = varint r₂ in
      (reset_stream (record { stream_id = id; code = code; final_size = size }), r₃)

  unfoldable pub read_stop_sending : Reader → Frame × Reader
  read_stop_sending r =
      let (id, r₁) = varint r in
      let (code, r₂) = varint r₁ in (stop_sending (record { stream_id = id; code = code }), r₂)

  -- The offset and the data of a STREAM frame, each by its bit of the type.
  unfoldable pub read_offset : ℕ → Reader → ℕ × Reader
  read_offset t r = if has_bit t stream_bit_off then varint r else (0, r)

  unfoldable pub read_data : Bool → Reader → List ℕ × Reader
  read_data true r = let (n, s) = varint r in bytes n s
  read_data false r = rest r

  unfoldable pub read_stream : ℕ → Reader → Frame × Reader
  read_stream t r =
      let (id, r₁) = varint r in
      let (offset, r₂) = read_offset t r₁ in
      let (payload, r₃) = read_data (has_bit t stream_bit_len) r₂ in
      (
        stream (record {
          stream_id = id;
          offset = offset;
          payload = payload;
          fin = has_bit t stream_bit_fin;
        }),
        r₃,
      )

  unfoldable pub read_max_data : Reader → Frame × Reader
  read_max_data r = let (m, s) = varint r in (max_data (record { maximum = m }), s)

  unfoldable pub read_max_stream_data : Reader → Frame × Reader
  read_max_stream_data r =
      let (id, r₁) = varint r in
      let (m, r₂) = varint r₁ in (max_stream_data (record { stream_id = id; maximum = m }), r₂)

  unfoldable pub read_max_streams : ℕ → Reader → Result (Parsed × Reader)
  read_max_streams t r =
      let (m, s) = varint r in
      if ltb max_stream_count m
      then err (frame_encoding_error max_streams_above)
      else ok (frame (max_streams (record { uni = t == type_max_streams_uni; maximum = m })), s)

  unfoldable pub read_streams_blocked : Reader → Result (Parsed × Reader)
  read_streams_blocked r =
      let (m, s) = varint r in
      if ltb max_stream_count m
      then err (frame_encoding_error streams_blocked_above)
      else ok (blocked, s)

  -- Only the transport kind has a frame type.
  unfoldable pub read_frame_type : Bool → Reader → ℕ × Reader
  read_frame_type true r = (0, r)
  read_frame_type false r = varint r

  unfoldable pub read_connection_close : ℕ → Reader → Frame × Reader
  read_connection_close t r =
      let application = t == type_application_close in
      let (code, r₁) = varint r in
      let (frame_type, r₂) = read_frame_type application r₁ in
      let (n, r₃) = varint r₂ in
      let (reason, r₄) = bytes n r₃ in
      (
        connection_close (record {
          application = application;
          code = code;
          frame_type = frame_type;
          reason = reason;
        }),
        r₄,
      )

  unfoldable pub read_datagram : Bool → Reader → Frame × Reader
  read_datagram with_len r =
      let (payload, s) = read_data with_len r in (datagram (record { payload = payload }), s)

  -- An error of the parameters counts only if the frame itself was complete.
  unfoldable pub parameters_frame : Result Parameters → Reader → Result (Parsed × Reader)
  parameters_frame (ok params) s = ok (frame (transport_parameters params), s)
  parameters_frame (err e) s =
      if s.failed then ok (frame (transport_parameters no_parameters), s) else err e
  parameters_frame stuck s = stuck

  unfoldable pub read_transport_parameters : Reader → Result (Parsed × Reader)
  read_transport_parameters r =
      let (p, s) = read_data true r in parameters_frame (parse_parameters p) s

  unfoldable pub read_ping : ℕ → Reader → Frame × Reader
  read_ping t r =
      let (n, s) = varint r in
      (ping (record { response = t == type_ping_response; sequence = n }), s)

  abbrev pub parsed : Frame × Reader → Result (Parsed × Reader)
  parsed (f, r) = ok (frame f, r)

  -- The switch.
  unfoldable pub read_body : ℕ → Reader → Result (Parsed × Reader)
  read_body t r =
      if t == type_reset_stream
      then parsed (read_reset_stream r)
      else if t == type_stop_sending
      then parsed (read_stop_sending r)
      else if leb type_stream t && leb t type_stream_max
      then parsed (read_stream t r)
      else if t == type_max_data
      then parsed (read_max_data r)
      else if t == type_max_stream_data
      then parsed (read_max_stream_data r)
      else if t == type_max_streams_bidi || t == type_max_streams_uni
      then read_max_streams t r
      else if t == type_data_blocked
      then ok (blocked, (varint r).1)
      else if t == type_stream_data_blocked
      then ok (blocked, (varint (varint r).1).1)
      else if t == type_streams_blocked || t == type_streams_blocked_uni
      then read_streams_blocked r
      else if t == type_connection_close || t == type_application_close
      then parsed (read_connection_close t r)
      else if t == type_datagram
      then parsed (read_datagram false r)
      else if t == type_datagram_len
      then parsed (read_datagram true r)
      else if t == type_transport_parameters
      then read_transport_parameters r
      else if t == type_ping_request || t == type_ping_response
      then parsed (read_ping t r)
      else err (frame_encoding_error (frame_not_allowed t))

  -- The one check for truncation, at the end.
  unfoldable pub conclude : ℕ → Parsed × Reader → Result (Option Parsed × List ℕ)
  conclude t (f, r) =
      if r.failed then err (frame_encoding_error (frame_truncated t)) else ok (some f, r.b)

  unfoldable pub parse_unpadded : List ℕ → Result (Option Parsed × List ℕ)
  parse_unpadded [] = ok (none, [])
  parse_unpadded (b ∷ bs) = let (t, r) = varint (reader (b ∷ bs)) in (read_body t r >>= conclude t)

  -- The first frame and what follows it; no frame if only padding was left.
  unfoldable pub parse : List ℕ → Result (Option Parsed × List ℕ)
  parse b = parse_unpadded (skip_padding b)
