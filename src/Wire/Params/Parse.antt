-- ===== src/Wire/Params/Parse.antt =====
-- `parseParameters` of qmux/internal/wire/params.go.
use qmux_go.Base.{
  ℕ, zero, suc, ◌<◌, ◌≡◌, ◌≢◌, inl, inr, false, ◌||◌, List, [], ◌∷◌, Option, none, some, length,
  ltb, ◌==◌, contains, if◌then◌else◌, arith,
}
use qmux_go.Varint.{Varint}
use qmux_go.Wire.Error.{
  Result, ok, err, stuck, ◌>>=◌, Result-cases, parameter_error, params_truncated, param_not_allowed,
  param_repeated, param_not_integer, initial_max_streams_above, max_record_size_below,
}
use qmux_go.Wire.Params.{
  Parameters, field, store, prohibited_param, no_parameters, default_max_record_size,
  max_stream_count,
}
use qmux_go.Wire.Reader.{
  Reader, reader, bytes, varint, varint-Shrinks, bytes-Shrinks, varint_takes, bytes_keeps,
  varint_keeps,
}

-- The final checks of `parseParameters`.
unfoldable pub check_parameters : Parameters → Result Parameters
check_parameters p =
    if ltb max_stream_count p.initial_max_streams_bidi
      || ltb max_stream_count p.initial_max_streams_uni
    then err (parameter_error initial_max_streams_above)
    else if ltb p.max_record_size default_max_record_size
    then err (parameter_error max_record_size_below)
    else ok p

-- The parameters that parsing starts from.
abbrev pub default_parameters : Parameters
default_parameters = record no_parameters { max_record_size = default_max_record_size }

module _ ⦃q : Varint⦄ where
  -- Whether `value` is one integer and nothing more, and which.
  unfoldable pub integer : List ℕ → Option ℕ
  integer value = elim (q.parse value) [
    | none ↦ none
    | some (v, n) ↦ if n == length value then some v else none
  ]

  -- The part of the loop body below the duplicate check: an unknown parameter is skipped.
  unfoldable pub store_value : ℕ → List ℕ → Parameters → Result Parameters
  store_value id value p = elim (field id) [
    | none ↦ ok p
    | some f ↦ elim (integer value) [
      | none ↦ err (parameter_error (param_not_integer id))
      | some v ↦ ok (store f v p)
    ]
  ]

  -- The checks of the loop body, in their order, on a parameter that was read.
  unfoldable pub accept : ℕ → List ℕ → List ℕ → Parameters → Result Parameters
  accept id value seen p = elim (prohibited_param id) [
    | some name ↦ err (parameter_error (param_not_allowed name))
    | none ↦
        if contains id seen
        then err (parameter_error (param_repeated id))
        else store_value id value p
  ]

  -- Reading a parameter's identifier and its value.
  unfoldable pub read_param : Reader → ℕ × List ℕ × Reader
  read_param r =
      let (id, r₁) = varint r in
      let (n, r₂) = varint r₁ in let (value, r₃) = bytes n r₂ in (id, value, r₃)

  -- The loop, and then the checks.
  unfoldable pub parse_loop : ℕ → Reader → List ℕ → Parameters → Result Parameters
  parse_loop zero r seen p = stuck
  parse_loop (suc fuel) r seen p =
      let (id, value, s) = read_param r in
      let more = λ (p' : Parameters). parse_loop fuel s (id ∷ seen) p' in
      if length r.b == 0
      then check_parameters p
      else if s.failed
      then err (parameter_error params_truncated)
      else (accept id value seen p >>= more)

  -- Each round takes a byte at least, so one round more than there are bytes is enough.
  unfoldable pub parse_parameters : List ℕ → Result Parameters
  parse_parameters b = parse_loop (suc (length b)) (reader b) [] default_parameters

  pub read_param_takes :
      (r : Reader) → (read_param r).2.failed ≡ false → length (read_param r).2.b < length r.b
  unfolding read_param
  read_param_takes r h =
      let (id, r₁) = varint r in
      let (n, r₂) = varint r₁ in
      omega (
        arith,
        bytes-Shrinks n r₂,
        varint-Shrinks r₁,
        varint_takes r (varint_keeps r₁ (bytes_keeps n r₂ h)),
      )

  accept-ne-stuck : (id : ℕ) (value seen : List ℕ) (p : Parameters) → accept id value seen p ≢ stuck
  unfolding accept store_value integer
  accept-ne-stuck id value seen p e = ground arith

  -- The loop ends on every input, whatever it has read so far.
  pub parse_loop-ne-stuck :
      (fuel : ℕ) (r : Reader) (seen : List ℕ) (p : Parameters)
      → length r.b < fuel
      → parse_loop fuel r seen p ≢ stuck
  unfolding parse_loop check_parameters
  parse_loop-ne-stuck zero r seen p h e = elim h [ ]
  parse_loop-ne-stuck (suc fuel) r seen p h e =
      let (id, value, s) = read_param r in
      elim (Result-cases (accept id value seen p)) [
        | inl (p', a) ↦
            ground (arith, read_param_takes r, parse_loop-ne-stuck fuel s (id ∷ seen) p')
        | inr (inl (x, a)) ↦ ground arith
        | inr (inr a) ↦ absurd (accept-ne-stuck id value seen p a)
      ]

  -- Parsing transport parameters ends with parameters or an error.
  pub parse_parameters-ne-stuck : (b : List ℕ) → parse_parameters b ≢ stuck
  unfolding parse_parameters
  parse_parameters-ne-stuck b =
      parse_loop-ne-stuck (suc (length b)) (reader b) [] default_parameters (omega arith)
