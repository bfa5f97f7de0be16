-- ===== src/Wire/Parse/Progress.antt =====
-- `Parse` on any input, well formed or not.
use qmux_go.Base.{
  Bool, Bool-cases, List, [], ap, arith, false, inl, inr, length, refl, some, true, ℕ, ◌<◌, ◌==◌,
  ◌∷◌, ◌≡◌, ◌≢◌, ◌≤◌,
}
use qmux_go.Varint.{Varint}
use qmux_go.Wire.Error.{
  Result, Result-cases, err, frame_encoding_error, frame_not_allowed, ok, stuck,
}
use qmux_go.Wire.Frame.{Parsed, stream_bit_off, type_application_close}
use qmux_go.Wire.Params.{Parameters}
use qmux_go.Wire.Params.Parse.{parse_parameters, parse_parameters-ne-stuck}
use qmux_go.Wire.Parse.{
  conclude, has_bit, parameters_frame, parse, parse_unpadded, read_body, read_connection_close,
  read_data, read_datagram, read_frame_type, read_max_data, read_max_stream_data, read_max_streams,
  read_offset, read_ping, read_reset_stream, read_stop_sending, read_stream, read_streams_blocked,
  read_transport_parameters, skip_padding,
}
use qmux_go.Wire.Reader.{
  Reader, Shrinks, bytes-Shrinks, reader, rest-Shrinks, varint, varint-Shrinks, varint_takes,
  varint_zero,
}

module _ ⦃q : Varint⦄ where
  read_data-Shrinks : (b : Bool) (r : Reader) → Shrinks r (read_data b r).1
  unfolding read_data
  read_data-Shrinks true r =
      omega (arith, bytes-Shrinks (varint r).0 (varint r).1, varint-Shrinks r)
  read_data-Shrinks false r = rest-Shrinks r

  read_stream-Shrinks : (t : ℕ) (r : Reader) → Shrinks r (read_stream t r).1
  unfolding read_stream read_offset
  read_stream-Shrinks t r = elim (Bool-cases (has_bit t stream_bit_off)) [
    | inl e ↦
        rw e (omega (arith, varint-Shrinks r, varint-Shrinks (varint r).1, read_data-Shrinks _ _))
    | inr e ↦ rw e (omega (arith, varint-Shrinks r, read_data-Shrinks _ _))
  ]

  read_frame_type-Shrinks : (b : Bool) (r : Reader) → Shrinks r (read_frame_type b r).1
  unfolding read_frame_type
  read_frame_type-Shrinks true r = omega arith
  read_frame_type-Shrinks false r = varint-Shrinks r

  read_close-Shrinks : (t : ℕ) (r : Reader) → Shrinks r (read_connection_close t r).1
  unfolding read_connection_close
  read_close-Shrinks t r =
      let r₂ = (read_frame_type (t == type_application_close) (varint r).1).1 in
      omega (
        arith,
        varint-Shrinks r,
        read_frame_type-Shrinks (t == type_application_close) (varint r).1,
        varint-Shrinks r₂,
        bytes-Shrinks (varint r₂).0 (varint r₂).1,
      )

  read_small-Shrinks :
      (r : Reader)
      → Shrinks r (read_reset_stream r).1
        × Shrinks r (read_stop_sending r).1
        × Shrinks r (read_max_data r).1
        × Shrinks r (read_max_stream_data r).1
        × Shrinks r (varint (varint r).1).1
  unfolding read_reset_stream read_stop_sending read_max_data read_max_stream_data
  read_small-Shrinks r =
      omega (
        arith,
        varint-Shrinks r,
        varint-Shrinks (varint r).1,
        varint-Shrinks (varint (varint r).1).1,
      )

  read_datagram-Shrinks : (b : Bool) (r : Reader) → Shrinks r (read_datagram b r).1
  unfolding read_datagram
  read_datagram-Shrinks b r = read_data-Shrinks b r

  read_ping-Shrinks : (t : ℕ) (r : Reader) → Shrinks r (read_ping t r).1
  unfolding read_ping
  read_ping-Shrinks t r = varint-Shrinks r

  parameters_frame-Shrinks :
      (p : Result Parameters) (r s : Reader) (f : Parsed)
      → parameters_frame p r ≡ ok (f, s)
      → Shrinks r s
  unfolding parameters_frame
  parameters_frame-Shrinks (ok p) r s f e = ground arith
  parameters_frame-Shrinks (err x) r s f e = ground arith
  parameters_frame-Shrinks stuck r s f e = cc

  -- The switch reads over what is left.
  read_body-Shrinks : (t : ℕ) (r s : Reader) (f : Parsed) → read_body t r ≡ ok (f, s) → Shrinks r s
  unfolding read_body read_max_streams read_streams_blocked read_transport_parameters
  read_body-Shrinks t r s f e = ground (
    arith,
    varint-Shrinks r,
    read_small-Shrinks r,
    read_stream-Shrinks t r,
    read_close-Shrinks t r,
    read_datagram-Shrinks true r,
    read_datagram-Shrinks false r,
    read_ping-Shrinks t r,
    read_data-Shrinks true r,
    parameters_frame-Shrinks (parse_parameters (read_data true r).0) (read_data true r).1 s f,
  )

  parameters_frame-ne-stuck :
      (p : Result Parameters) (r : Reader) → p ≢ stuck → parameters_frame p r ≢ stuck
  unfolding parameters_frame
  parameters_frame-ne-stuck (ok p) r h e = ground arith
  parameters_frame-ne-stuck (err x) r h e = ground arith
  parameters_frame-ne-stuck stuck r h e = h refl

  read_body-ne-stuck : (t : ℕ) (r : Reader) → read_body t r ≢ stuck
  unfolding read_body read_max_streams read_streams_blocked read_transport_parameters
  read_body-ne-stuck t r e = ground (
    arith,
    parameters_frame-ne-stuck (parse_parameters (read_data true r).0) (read_data true r).1
        (parse_parameters-ne-stuck (read_data true r).0),
  )

  conclude-ne-stuck : (t : ℕ) (f : Parsed) (r : Reader) → conclude t (f, r) ≢ stuck
  unfolding conclude
  conclude-ne-stuck t f r e = ground arith

  parse_unpadded-ne-stuck : (b : List ℕ) → parse_unpadded b ≢ stuck
  unfolding parse_unpadded
  parse_unpadded-ne-stuck [] e = cc
  parse_unpadded-ne-stuck (b ∷ bs) e =
      let (t, r) = varint (reader (b ∷ bs)) in
      elim (Result-cases (read_body t r)) [
        | inl ((f, s), h) ↦ conclude-ne-stuck t f s (rw h at e)
        | inr (inl (x, h)) ↦ cc
        | inr (inr h) ↦ read_body-ne-stuck t r h
      ]

  -- `Parse` gives a frame, the end of the record or an error on every input.
  pub parse-ne-stuck : (b : List ℕ) → parse b ≢ stuck
  unfolding parse
  parse-ne-stuck b = parse_unpadded-ne-stuck (skip_padding b)

  -- The type 0, which a failed read stands for, is not accepted.
  read_body-zero : (r : Reader) → read_body 0 r ≡ err (frame_encoding_error (frame_not_allowed 0))
  unfolding read_body
  read_body-zero r = refl

  type_takes :
      (r s : Reader) (f : Parsed)
      → read_body (varint r).0 (varint r).1 ≡ ok (f, s)
      → length s.b < length r.b
  type_takes r s f e = elim (Bool-cases (varint r).1.failed) [
    | inl h ↦ cc (read_body-zero (varint r).1, varint_zero r h)
    | inr h ↦ omega (arith, varint_takes r h, read_body-Shrinks (varint r).0 (varint r).1 s f e)
  ]

  length-skip_padding : (b : List ℕ) → length (skip_padding b) ≤ length b
  unfolding skip_padding
  length-skip_padding [] = omega arith
  length-skip_padding (b ∷ bs) = ground (arith, length-skip_padding bs)

  conclude-ok :
      (t : ℕ) (f g : Parsed) (r : Reader) (s : List ℕ)
      → conclude t (f, r) ≡ ok (some g, s)
      → (r.b ≡ s) × (r.failed ≡ false) × (f ≡ g)
  unfolding conclude
  conclude-ok t f g r s e = ground arith

  parse_unpadded_takes :
      (b s : List ℕ) (f : Parsed) → parse_unpadded b ≡ ok (some f, s) → length s < length b
  unfolding parse_unpadded
  parse_unpadded_takes [] s f e = cc
  parse_unpadded_takes (b ∷ bs) s f e =
      let r₀ = reader (b ∷ bs) in
      let (t, r) = varint r₀ in
      elim (Result-cases (read_body t r)) [
        | inl ((g, r'), h) ↦
            omega (arith, type_takes r₀ r' g h, ap length (conclude-ok t g f r' s (rw h at e)).0)
        | inr (inl (x, h)) ↦ cc
        | inr (inr h) ↦ cc
      ]

  -- A frame that `Parse` gives takes at least one byte of the record.
  pub parse_takes : (b s : List ℕ) (f : Parsed) → parse b ≡ ok (some f, s) → length s < length b
  unfolding parse
  parse_takes b s f e =
      omega (arith, length-skip_padding b, parse_unpadded_takes (skip_padding b) s f e)
