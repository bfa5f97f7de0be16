-- ===== src/Tests/Wire.antt =====
-- Witnesses for the encodings.
use qmux_go.Base.{All, [], arith, inl, refl, some, true, ◌++◌, ◌^◌, ◌∷◌, ◌≡◌, ◌≢◌}
use qmux_go.Config.{Config, local_parameters, negsuc, normalized, zero_config}
use qmux_go.Config.Bounds.{IsPassed, parse-local_parameters}
use qmux_go.Tests.{exact_growth, steady_link}
use qmux_go.Varint.Rfc.{rfc9000}
use qmux_go.Wire.Error.{ok, stuck}
use qmux_go.Wire.Frame.{Frame, encode, frame, stream, transport_parameters}
use qmux_go.Wire.Params.{Parameters, encode_parameters, no_parameters}
use qmux_go.Wire.Params.Accepts.{Distinct, IsAccepted, IsAllowed, declared, parse_parameters-ok}
use qmux_go.Wire.Params.Parse.{default_parameters, parse_parameters}
use qmux_go.Wire.Parse.{parse}
use qmux_go.Wire.Parse.Progress.{parse-ne-stuck}
use qmux_go.Wire.Reader.{reader}
use qmux_go.Wire.RoundTrip.Frames.{parse-encode}
use qmux_go.Wire.RoundTrip.Params.{parse_parameters-encode}
use qmux_go.Wire.RoundTrip.Valid.{IsDeclarable, filled}
use qmux_go.WriteLock.Scan.{scanned}

-- A last STREAM frame at an offset of two bytes, with what follows it.
abbrev last_frame : Frame
last_frame = stream (record { stream_id = 4; offset = 300; payload = 7 ∷ 8 ∷ []; fin = true })

parse-encode_example :
    parse (encode last_frame ++ (0 ∷ 0 ∷ [])) ≡ ok (some (frame last_frame), 0 ∷ 0 ∷ [])
parse-encode_example = parse-encode last_frame (0 ∷ 0 ∷ []) (omega arith, omega arith, omega arith)

abbrev some_parameters : Parameters
some_parameters = record no_parameters { initial_max_data = 100000; initial_max_streams_bidi = 5 }

some_parameters-IsDeclarable : IsDeclarable some_parameters
some_parameters-IsDeclarable = record {
  idle = omega arith;
  data_limit = omega arith;
  bidi_local_limit = omega arith;
  bidi_remote_limit = omega arith;
  uni_limit = omega arith;
  streams_bidi_limit = omega arith;
  streams_uni_limit = omega arith;
  datagram_limit = omega arith;
  record_limit = omega arith;
  record_least = inl refl;
}

parse_parameters-encode_example :
    parse_parameters (encode_parameters some_parameters) ≡ ok (filled some_parameters)
parse_parameters-encode_example =
    parse_parameters-encode some_parameters some_parameters-IsDeclarable

-- A datagram of 2 bytes with its length left out, and a truncated frame.
parse-ne-stuck_example : parse (4 ∷ 1 ∷ []) ≢ stuck
parse-ne-stuck_example = parse-ne-stuck (4 ∷ 1 ∷ [])

-- The parameter 1, an idle timeout of 9 ms.
parse_parameters-ok_example :
    All IsAllowed (declared 4 (reader (1 ∷ 1 ∷ 9 ∷ [])))
    × Distinct (declared 4 (reader (1 ∷ 1 ∷ 9 ∷ [])))
    × IsAccepted (record default_parameters { max_idle_timeout = 9 })
unfolding parse_parameters qmux_go.Wire.Params.Parse.parse_loop qmux_go.Wire.Params.Parse.read_param
    qmux_go.Wire.Reader.bytes qmux_go.Wire.Reader.varint qmux_go.Varint.Rfc.parse_rfc
    qmux_go.Wire.Params.Parse.accept qmux_go.Wire.Params.prohibited_param
    qmux_go.Wire.Params.Parse.store_value qmux_go.Wire.Params.field
    qmux_go.Wire.Params.Parse.integer qmux_go.Wire.Params.Parse.check_parameters
parse_parameters-ok_example =
    parse_parameters-ok (1 ∷ 1 ∷ 9 ∷ []) (record default_parameters { max_idle_timeout = 9 }) refl

-- A caller's configuration with a negative limit and a huge window.
abbrev odd_config : Config
odd_config = record zero_config {
  max_incoming_streams = negsuc 0;
  initial_stream_receive_window = 2 ^ 63;
  max_record_size = 20000;
  enable_datagrams = true;
}

odd_config-IsPassed : IsPassed (some odd_config)
odd_config-IsPassed = record {
  streams = omega arith;
  uni_streams = omega arith;
  idle = omega arith;
}

parse-local_parameters_example :
    parse
      (encode (transport_parameters (local_parameters (normalized (some odd_config)))) ++ (0 ∷ []))
    ≡ ok (
      some
          (frame (transport_parameters (filled (local_parameters (normalized (some odd_config)))))),
      0 ∷ [],
    )
parse-local_parameters_example =
    parse-local_parameters (some odd_config) (0 ∷ []) odd_config-IsPassed
