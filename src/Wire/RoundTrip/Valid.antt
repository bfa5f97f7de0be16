-- ===== src/Wire/RoundTrip/Valid.antt =====
-- The values that the encoders of qmux/internal/wire are given: variable-length integers, and
-- stream counts and record sizes within the protocol's limits.
use qmux_go.Base.{◌≤◌, ◌≡◌, ◌⊎◌, length, ◌==◌, if◌then◌else◌, true}
use qmux_go.Varint.{IsVarint}
use qmux_go.Wire.Params.{Parameters, max_stream_count, default_max_record_size}
use qmux_go.Wire.Frame.{
  Frame, reset_stream, stop_sending, stream, max_data, max_stream_data, max_streams,
  connection_close, datagram, ping, transport_parameters,
}

-- Transport parameters that a peer accepts. A zero `max_record_size` is the default.
pub record IsDeclarable (p : Parameters) : Type 0 where
  pub idle : IsVarint p.max_idle_timeout
  pub data_limit : IsVarint p.initial_max_data
  pub bidi_local_limit : IsVarint p.initial_max_stream_data_bidi_local
  pub bidi_remote_limit : IsVarint p.initial_max_stream_data_bidi_remote
  pub uni_limit : IsVarint p.initial_max_stream_data_uni
  pub streams_bidi_limit : p.initial_max_streams_bidi ≤ max_stream_count
  pub streams_uni_limit : p.initial_max_streams_uni ≤ max_stream_count
  pub datagram_limit : IsVarint p.max_datagram_frame_size
  pub record_limit : IsVarint p.max_record_size
  pub record_least : (p.max_record_size ≡ 0) ⊎ (default_max_record_size ≤ p.max_record_size)

-- A zero field of a CONNECTION_CLOSE of the application kind is not sent.
abbrev pub IsEncodable : Frame → Type 0
IsEncodable (reset_stream f) = IsVarint f.stream_id × IsVarint f.code × IsVarint f.final_size
IsEncodable (stop_sending f) = IsVarint f.stream_id × IsVarint f.code
IsEncodable (stream f) = IsVarint f.stream_id × IsVarint f.offset × IsVarint (length f.payload)
IsEncodable (max_data f) = IsVarint f.maximum
IsEncodable (max_stream_data f) = IsVarint f.stream_id × IsVarint f.maximum
IsEncodable (max_streams f) = f.maximum ≤ max_stream_count
IsEncodable (connection_close f) =
    IsVarint f.code
    × IsVarint f.frame_type
    × IsVarint (length f.reason)
    × (f.application ≡ true → f.frame_type ≡ 0)
IsEncodable (datagram f) = IsVarint (length f.payload)
IsEncodable (ping f) = IsVarint f.sequence
IsEncodable (transport_parameters p) = IsDeclarable p

-- What the peer has after parsing: the absent `max_record_size` takes its default.
abbrev pub filled : Parameters → Parameters
filled p = record p {
  max_record_size = if p.max_record_size == 0 then default_max_record_size else p.max_record_size;
}

abbrev pub received : Frame → Frame
received (transport_parameters p) = transport_parameters (filled p)
received f = f
