-- ===== src/Config.antt =====
-- The configuration of qmux/qmux.go and its normalization, and the transport parameters that
-- `localParameters` of qmux/conn.go declares for it. An int64 and a time.Duration is a ℤ.
use qmux_go.Base.{
  Bool, Option, false, if◌then◌else◌, ltb, max, min, none, some, sub64, true, ℕ, ◌%◌, ◌&&◌, ◌*◌,
  ◌+◌, ◌-◌, ◌/◌, ◌==◌, ◌^◌,
}
use qmux_go.Wire.Params.{Parameters, default_max_record_size, record_size}
pub mod Bounds

-- `negsuc n` is -(n + 1).
pub data ℤ : Type 0 where
  pos : ℕ → ℤ
  negsuc : ℕ → ℤ

-- `uint64(v)`.
unfoldable pub to_u64 : ℤ → ℕ
to_u64 (pos n) = n % 2 ^ 64
to_u64 (negsuc n) = sub64 (2 ^ 64 - 1) n

-- `v / d` rounds towards zero.
unfoldable pub div_ℤ : ℤ → ℕ → ℤ
div_ℤ (pos n) d = pos (n / d)
div_ℤ (negsuc n) d = if (n + 1) / d == 0 then pos 0 else negsuc ((n + 1) / d - 1)

pub record Config : Type 0 where
  pub max_incoming_streams : ℤ
  pub max_incoming_uni_streams : ℤ
  pub initial_stream_receive_window : ℕ
  pub initial_connection_receive_window : ℕ
  pub max_record_size : ℕ
  pub keep_alive_period : ℤ
  pub handshake_idle_timeout : ℤ
  pub max_idle_timeout : ℤ
  pub enable_datagrams : Bool
  pub max_datagram_frame_size : ℕ

abbrev pub default_max_incoming_streams : ℕ
default_max_incoming_streams = 100

abbrev pub default_max_incoming_uni_streams : ℕ
default_max_incoming_uni_streams = 100

abbrev pub default_stream_receive_window : ℕ
default_stream_receive_window = 512 * 1024

abbrev pub default_connection_receive_window : ℕ
default_connection_receive_window = 1024 * 1024

-- Durations are in nanoseconds.
abbrev pub default_max_idle_timeout : ℕ
default_max_idle_timeout = 30_000_000_000

abbrev pub default_handshake_idle_timeout : ℕ
default_handshake_idle_timeout = 5_000_000_000

abbrev pub default_max_datagram_frame_size : ℕ
default_max_datagram_frame_size = 1200

abbrev pub millisecond : ℕ
millisecond = 1_000_000

-- `quicvarint.Max`.
abbrev pub max_varint : ℕ
max_varint = 2 ^ 62 - 1

-- The configuration that a nil pointer stands for.
abbrev pub zero_config : Config
zero_config = record {
  max_incoming_streams = pos 0;
  max_incoming_uni_streams = pos 0;
  initial_stream_receive_window = 0;
  initial_connection_receive_window = 0;
  max_record_size = 0;
  keep_alive_period = pos 0;
  handshake_idle_timeout = pos 0;
  max_idle_timeout = pos 0;
  enable_datagrams = false;
  max_datagram_frame_size = 0;
}

unfoldable pub stream_limit : ℤ → ℕ → ℤ
stream_limit (pos v) def = if v == 0 then pos def else pos (min v (2 ^ 60))
stream_limit (negsuc v) def = pos 0

unfoldable pub receive_window : ℕ → ℕ → ℕ
receive_window v def = min (if v == 0 then def else v) max_varint

-- A negative timeout declares none.
unfoldable pub idle_timeout_of : ℤ → ℤ
idle_timeout_of (pos v) = if v == 0 then pos default_max_idle_timeout else pos v
idle_timeout_of (negsuc v) = pos 0

unfoldable pub handshake_timeout_of : ℤ → ℤ
handshake_timeout_of (pos v) = if v == 0 then pos default_handshake_idle_timeout else pos v
handshake_timeout_of (negsuc v) = pos default_handshake_idle_timeout

-- At most half of the idle timeout, when both are positive.
unfoldable pub keep_alive_of : ℤ → ℤ → ℤ
keep_alive_of (pos k) (pos idle) = if ltb 0 k && ltb 0 idle then pos (min k (idle / 2)) else pos k
keep_alive_of k idle = k

unfoldable pub datagram_size_of : Bool → ℕ → ℕ
datagram_size_of false v = 0
datagram_size_of true v = if v == 0 then default_max_datagram_frame_size else v

unfoldable pub normalized_from : Config → Config
normalized_from n =
    let record_size = min (max n.max_record_size default_max_record_size) max_varint in
    let idle = idle_timeout_of n.max_idle_timeout in
    record n {
      max_incoming_streams = stream_limit n.max_incoming_streams default_max_incoming_streams;
      max_incoming_uni_streams =
          stream_limit n.max_incoming_uni_streams default_max_incoming_uni_streams;
      initial_stream_receive_window =
          receive_window n.initial_stream_receive_window default_stream_receive_window;
      initial_connection_receive_window =
          receive_window n.initial_connection_receive_window default_connection_receive_window;
      max_record_size = record_size;
      keep_alive_period = keep_alive_of n.keep_alive_period idle;
      handshake_idle_timeout = handshake_timeout_of n.handshake_idle_timeout;
      max_idle_timeout = idle;
      max_datagram_frame_size =
          min (datagram_size_of n.enable_datagrams n.max_datagram_frame_size) record_size;
    }

-- `none` is the nil configuration.
unfoldable pub normalized : Option Config → Config
unfolding normalized_from
normalized none = normalized_from zero_config
normalized (some c) = normalized_from c

-- `DefaultConfig`.
unfoldable pub default_config : Config
default_config = normalized none

-- `localParameters` of qmux/conn.go. The default record size is not sent.
unfoldable pub local_parameters : Config → Parameters
local_parameters c = record {
  max_idle_timeout = to_u64 (div_ℤ c.max_idle_timeout millisecond);
  initial_max_data = c.initial_connection_receive_window;
  initial_max_stream_data_bidi_local = c.initial_stream_receive_window;
  initial_max_stream_data_bidi_remote = c.initial_stream_receive_window;
  initial_max_stream_data_uni = c.initial_stream_receive_window;
  initial_max_streams_bidi = to_u64 c.max_incoming_streams;
  initial_max_streams_uni = to_u64 c.max_incoming_uni_streams;
  max_datagram_frame_size = c.max_datagram_frame_size;
  max_record_size = if c.max_record_size == default_max_record_size then 0 else c.max_record_size;
}
