-- ===== src/Config/Bounds.antt =====
-- `normalized` and `localParameters` on the configurations that a caller can pass.
use qmux_go.Base.{List, Option, arith, none, refl, some, ℕ, ◌++◌, ◌+◌, ◌<◌, ◌^◌, ◌≡◌, ◌≤◌}
use qmux_go.Config.{
  Config, div_ℤ, idle_timeout_of, keep_alive_of, local_parameters, max_varint, millisecond, negsuc,
  normalized, normalized_from, pos, receive_window, stream_limit, to_u64, zero_config, ℤ,
}
use qmux_go.Varint.{Varint}
use qmux_go.Wire.Error.{ok}
use qmux_go.Wire.Frame.{encode, frame, transport_parameters}
use qmux_go.Wire.Params.{max_stream_count}
use qmux_go.Wire.Parse.{parse}
use qmux_go.Wire.RoundTrip.Frames.{parse-encode}
use qmux_go.Wire.RoundTrip.Valid.{IsDeclarable, filled}

-- The values that an int64 and a uint64 can have.
abbrev pub IsInt64 : ℤ → Type 0
IsInt64 (pos n) = n < 2 ^ 63
IsInt64 (negsuc n) = n < 2 ^ 63

pub record IsConfig (c : Config) : Type 0 where
  pub streams : IsInt64 c.max_incoming_streams
  pub uni_streams : IsInt64 c.max_incoming_uni_streams
  pub idle : IsInt64 c.max_idle_timeout

-- A limit within the protocol's, as a natural number.
abbrev IsStreamLimit : ℤ → Type 0
IsStreamLimit v = to_u64 v ≤ max_stream_count

stream_limit-IsStreamLimit :
    (v : ℤ) (def : ℕ) → def ≤ max_stream_count → IsStreamLimit (stream_limit v def)
unfolding stream_limit to_u64
stream_limit-IsStreamLimit (pos v) def h = ground arith
stream_limit-IsStreamLimit (negsuc v) def h = omega arith

idle_declared : (v : ℤ) → IsInt64 v → to_u64 (div_ℤ (idle_timeout_of v) millisecond) < 2 ^ 62
unfolding idle_timeout_of div_ℤ to_u64
idle_declared (pos v) h = ground arith
idle_declared (negsuc v) h = omega arith

receive_window-le : (v def : ℕ) → receive_window v def ≤ max_varint
unfolding receive_window
receive_window-le v def = omega arith

normalized_from-IsDeclarable :
    (c : Config) → IsConfig c → IsDeclarable (local_parameters (normalized_from c))
unfolding normalized_from local_parameters
normalized_from-IsDeclarable c h = record {
  idle = idle_declared c.max_idle_timeout h.idle;
  data_limit = omega (arith, receive_window-le c.initial_connection_receive_window _);
  bidi_local_limit = omega (arith, receive_window-le c.initial_stream_receive_window _);
  bidi_remote_limit = omega (arith, receive_window-le c.initial_stream_receive_window _);
  uni_limit = omega (arith, receive_window-le c.initial_stream_receive_window _);
  streams_bidi_limit = stream_limit-IsStreamLimit c.max_incoming_streams _ (omega arith);
  streams_uni_limit = stream_limit-IsStreamLimit c.max_incoming_uni_streams _ (omega arith);
  datagram_limit = omega arith;
  record_limit = ground arith;
  record_least = ground arith;
}

-- The configurations that a caller can pass, the nil one included.
abbrev pub IsPassed : Option Config → Type 0
IsPassed none = Unit {0}
IsPassed (some c) = IsConfig c

-- Whatever the configuration, with int64 and uint64 fields or none at all, what an endpoint
-- declares for it is within the limits that a peer checks.
pub normalized-IsDeclarable :
    (c : Option Config) → IsPassed c → IsDeclarable (local_parameters (normalized c))
unfolding normalized
normalized-IsDeclarable none h = normalized_from-IsDeclarable zero_config (omega arith)
normalized-IsDeclarable (some c) h = normalized_from-IsDeclarable c h

module _ ⦃q : Varint⦄ where
  -- Whatever configuration an endpoint is given, with int64 and uint64 fields or none at all, the
  -- peer's `Parse` accepts the QX_TRANSPORT_PARAMETERS frame that it declares, and reads its
  -- values back.
  pub parse-local_parameters :
      (c : Option Config) (tail : List ℕ)
      → IsPassed c
      → parse (encode (transport_parameters (local_parameters (normalized c))) ++ tail)
        ≡ ok (some (frame (transport_parameters (filled (local_parameters (normalized c))))), tail)
  parse-local_parameters c tail h =
      parse-encode (transport_parameters (local_parameters (normalized c))) tail
        (normalized-IsDeclarable c h)

-- The normalized record size survives the omission of the default.
pub filled-local_parameters :
    (c : Option Config)
    → (filled (local_parameters (normalized c))).max_record_size ≡ (normalized c).max_record_size
unfolding normalized local_parameters
filled-local_parameters none = refl
filled-local_parameters (some c) = ground arith

-- With a positive idle timeout, a keep-alive period of a configuration that is not negative is at
-- most half of it.
pub keep_alive_of-half : (k i n : ℕ) → 0 < i → keep_alive_of (pos k) (pos i) ≡ pos n → n + n ≤ i
unfolding keep_alive_of
keep_alive_of-half k i n h e = ground arith
