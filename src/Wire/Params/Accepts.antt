-- ===== src/Wire/Params/Accepts.antt =====
-- What `parseParameters` of qmux/internal/wire/params.go demands of the parameters it accepts.
use qmux_go.Base.{
  All, Bool-cases, List, [], arith, contains, false, if◌then◌else◌, inl, inr, length, none, refl,
  suc, zero, ℕ, ◌==◌, ◌∷◌, ◌≡◌, ◌≤◌,
}
use qmux_go.Varint.{Varint}
use qmux_go.Wire.Error.{>>=-ok, ok}
use qmux_go.Wire.Params.{Parameters, default_max_record_size, max_stream_count, prohibited_param}
use qmux_go.Wire.Params.Parse.{
  accept, check_parameters, default_parameters, parse_loop, parse_parameters, read_param,
}
use qmux_go.Wire.Reader.{Reader, reader}

-- Every parameter stands once.
abbrev pub Distinct : List ℕ → Type 0
Distinct [] = Unit {0}
Distinct (x ∷ xs) = (contains x xs ≡ false) × Distinct xs

abbrev pub IsAllowed : ℕ → Type 0
IsAllowed id = prohibited_param id ≡ none

abbrev IsNew : List ℕ → ℕ → Type 0
IsNew seen id = contains id seen ≡ false

All-IsNew_tail : (x : ℕ) (seen ids : List ℕ) → All (IsNew (x ∷ seen)) ids → All (IsNew seen) ids
All-IsNew_tail x seen [] h = tt
All-IsNew_tail x seen (id ∷ ids) h = (ground (arith, h.0), All-IsNew_tail x seen ids h.1)

All-IsNew_head : (x : ℕ) (seen ids : List ℕ) → All (IsNew (x ∷ seen)) ids → contains x ids ≡ false
All-IsNew_head x seen [] h = refl
All-IsNew_head x seen (id ∷ ids) h = ground (arith, h.0, All-IsNew_head x seen ids h.1)

-- The limits that hold for parameters that were accepted.
pub record IsAccepted (p : Parameters) : Type 0 where
  pub streams_bidi_limit : p.initial_max_streams_bidi ≤ max_stream_count
  pub streams_uni_limit : p.initial_max_streams_uni ≤ max_stream_count
  pub record_least : default_max_record_size ≤ p.max_record_size

check_parameters-IsAccepted : (p p' : Parameters) → check_parameters p ≡ ok p' → IsAccepted p'
unfolding check_parameters
check_parameters-IsAccepted p p' e = ground arith

module _ ⦃q : Varint⦄ where
  -- The identifiers of the parameters in a field, in order.
  pub declared : ℕ → Reader → List ℕ
  declared zero r = []
  declared (suc fuel) r =
      let (id, value, s) = read_param r in
      let more = declared fuel s in if length r.b == 0 then [] else id ∷ more

  accept-ok :
      (id : ℕ) (value seen : List ℕ) (p p' : Parameters)
      → accept id value seen p ≡ ok p'
      → IsAllowed id × IsNew seen id
  unfolding accept
  accept-ok id value seen p p' e = ground arith

  parse_loop_round :
      (fuel : ℕ) (r : Reader) (seen : List ℕ) (p p' : Parameters)
      → (length r.b == 0) ≡ false
      → parse_loop (suc fuel) r seen p ≡ ok p'
      → (p₁ : Parameters) × (accept (read_param r).0 (read_param r).1 seen p ≡ ok p₁)
        × (parse_loop fuel (read_param r).2 ((read_param r).0 ∷ seen) p₁ ≡ ok p')
  unfolding parse_loop
  parse_loop_round fuel r seen p p' h e = elim (Bool-cases (read_param r).2.failed) [
    | inl k ↦ cc (rw (h, k) at e)
    | inr k ↦ >>=-ok (accept (read_param r).0 (read_param r).1 seen p) _ (rw (h, k) at e)
  ]

  parse_loop-ok :
      (fuel : ℕ) (r : Reader) (seen : List ℕ) (p p' : Parameters)
      → parse_loop fuel r seen p ≡ ok p'
      → All IsAllowed (declared fuel r)
        × Distinct (declared fuel r)
        × All (IsNew seen) (declared fuel r)
        × IsAccepted p'
  unfolding declared
  parse_loop-ok zero r seen p p' e = unfold parse_loop in cc
  parse_loop-ok (suc fuel) r seen p p' e = elim (Bool-cases (length r.b == 0)) [
    | inl h ↦ rw h (tt, tt, tt, check_parameters-IsAccepted p p' (unfold parse_loop in (rw h at e)))
    | inr h ↦
        let id = (read_param r).0 in
        let s = (read_param r).2 in
        let (p₁, a, k) = parse_loop_round fuel r seen p p' h e in
        let (allowed, distinct, new, accepted) = parse_loop-ok fuel s (id ∷ seen) p₁ p' k in
        let (ok_id, new_id) = accept-ok id (read_param r).1 seen p p₁ a in
        rw h (
          (ok_id, allowed),
          (All-IsNew_head id seen (declared fuel s) new, distinct),
          (new_id, All-IsNew_tail id seen (declared fuel s) new),
          accepted,
        )
  ]

  -- Transport parameters are accepted only if none is prohibited and none is repeated, known or
  -- not, and then the stream limits and the record size are within the protocol's bounds.
  pub parse_parameters-ok :
      (b : List ℕ) (p : Parameters)
      → parse_parameters b ≡ ok p
      → All IsAllowed (declared (suc (length b)) (reader b))
        × Distinct (declared (suc (length b)) (reader b))
        × IsAccepted p
  unfolding parse_parameters
  parse_parameters-ok b p e =
      let (allowed, distinct, _, accepted) =
        parse_loop-ok (suc (length b)) (reader b) [] default_parameters p e in
      (allowed, distinct, accepted)
