-- ===== src/Wire/RoundTrip/Params.antt =====
-- Parsing the transport parameters that `append` wrote.
use qmux_go.Base.{
  ==→eq, Bool-cases, List, [], ap, append-nil, append_assoc, arith, contains, eq→==, false,
  if◌then◌else◌, inl, inr, length, length-append, none, refl, some, suc, zero, ℕ, ◌*◌, ◌++◌, ◌<◌,
  ◌==◌, ◌^◌, ◌∙◌, ◌∷◌, ◌≡◌, ◌≤◌,
}
use qmux_go.Varint.{IsVarint, Varint}
use qmux_go.Varint.Sizes.{encode_bounds}
use qmux_go.Wire.Error.{ok}
use qmux_go.Wire.Params.{
  Field, Parameters, append_field, append_fields, append_order, bidi_local, bidi_remote,
  connection_data, datagram_size, default_max_record_size, encode_parameters, field, idle_timeout,
  load, param_id, prohibited_param, record_size, store, streams_bidi, streams_uni, uni_remote,
}
use qmux_go.Wire.Params.Parse.{
  accept, check_parameters, default_parameters, integer, parse_loop, parse_parameters, read_param,
  store_value,
}
use qmux_go.Wire.Reader.{bytes_exact, reader, varint-encode}
use qmux_go.Wire.RoundTrip.Valid.{IsDeclarable, filled}

-- The identifiers are known, not prohibited, and small enough for a varint.
field-param_id : (f : Field) → field (param_id f) ≡ some f
unfolding field
field-param_id idle_timeout = refl
field-param_id _ = refl

prohibited_param-param_id : (f : Field) → prohibited_param (param_id f) ≡ none
unfolding prohibited_param
prohibited_param-param_id idle_timeout = refl
prohibited_param-param_id _ = refl

param_id_IsVarint : (f : Field) → IsVarint (param_id f)
param_id_IsVarint idle_timeout = omega arith
param_id_IsVarint _ = omega arith

-- The fields of a list have identifiers that are not in `seen` and differ.
abbrev Fresh : List Field → List ℕ → Type 0
Fresh [] seen = Unit {0}
Fresh (f ∷ fs) seen = (contains (param_id f) seen ≡ false) × Fresh fs (param_id f ∷ seen)

Fresh-less :
    (fs : List Field) (s t : List ℕ)
    → ((a : ℕ) → contains a s ≡ false → contains a t ≡ false)
    → Fresh fs s
    → Fresh fs t
Fresh-less [] s t h fresh = tt
Fresh-less (f ∷ fs) s t h fresh = (
  h (param_id f) fresh.0,
  Fresh-less fs (param_id f ∷ s) (param_id f ∷ t) (λ a e. ground (arith, h a)) fresh.1,
)

Fresh-tail : (fs : List Field) (x : ℕ) (seen : List ℕ) → Fresh fs (x ∷ seen) → Fresh fs seen
Fresh-tail fs x seen fresh = Fresh-less fs (x ∷ seen) seen (λ a e. ground arith) fresh

append_order-Fresh : Fresh append_order []
append_order-Fresh = (refl, (refl, (refl, (refl, (refl, (refl, (refl, (refl, (refl, tt)))))))))

-- What parsing the fields `fs` of `p` makes of `acc`.
copy : Parameters → List Field → Parameters → Parameters
copy p [] acc = acc
copy p (f ∷ fs) acc = copy p fs (if load f p == 0 then acc else store f (load f p) acc)

store-zero : (f : Field) (p : Parameters) → load f p ≡ 0 → store f 0 p ≡ p
store-zero idle_timeout p h = ground arith
store-zero _ p h = ground arith

copy-cons :
    (p : Parameters) (f : Field) (fs : List Field) (acc : Parameters)
    → load f acc ≡ 0
    → copy p (f ∷ fs) acc ≡ copy p fs (store f (load f p) acc)
unfolding copy
copy-cons p f fs acc h = elim (Bool-cases (load f p == 0)) [
  | inl e ↦ rw (e, ==→eq (load f p) 0 e, store-zero f acc h)
  | inr e ↦ rw e
]

-- `p` but for the record size, which is still the default.
abbrev all_but_record_size : Parameters → Parameters
all_but_record_size p = record p { max_record_size = default_max_record_size }

copy-last : (p : Parameters) → copy p (record_size ∷ []) (all_but_record_size p) ≡ filled p
unfolding copy
copy-last p = ground arith

copy-filled : (p : Parameters) → copy p append_order default_parameters ≡ filled p
copy-filled p =
    copy-cons p idle_timeout _ _ refl
    ∙ copy-cons p connection_data _ _ refl
    ∙ copy-cons p bidi_local _ _ refl
    ∙ copy-cons p bidi_remote _ _ refl
    ∙ copy-cons p uni_remote _ _ refl
    ∙ copy-cons p streams_bidi _ _ refl
    ∙ copy-cons p streams_uni _ _ refl
    ∙ copy-cons p datagram_size _ _ refl
    ∙ copy-last p

check-filled : (p : Parameters) → IsDeclarable p → check_parameters (filled p) ≡ ok (filled p)
unfolding check_parameters
check-filled p h = ground arith

small : {p : Parameters} → IsDeclarable p → (f : Field) → IsVarint (load f p)
small h idle_timeout = omega arith
small h _ = omega arith

module _ ⦃q : Varint⦄ where
  integer-encode : (v : ℕ) → v < 2 ^ 62 → integer (q.encode v) ≡ some v
  unfolding integer
  integer-encode v h =
      let e = rw append-nil at (q.parse-encode v [] h) in
      rw (e, integer, q.length-encode v h, eq→== (q.len v) (q.len v) refl)

  accept-encode :
      (f : Field) (v : ℕ) (seen : List ℕ) (p : Parameters)
      → v < 2 ^ 62
      → contains (param_id f) seen ≡ false
      → accept (param_id f) (q.encode v) seen p ≡ ok (store f v p)
  unfolding accept store_value
  accept-encode f v seen p h new =
      rw (
        prohibited_param-param_id f,
        accept,
        new,
        field-param_id f,
        store_value,
        integer-encode v h,
      )

  abbrev one_param : Field → ℕ → List ℕ → List ℕ
  one_param f v tail = (q.encode (param_id f) ++ (q.encode (q.len v) ++ q.encode v)) ++ tail

  read_param-encode :
      (f : Field) (v : ℕ) (tail : List ℕ)
      → v < 2 ^ 62
      → read_param (reader (one_param f v tail)) ≡ (param_id f, q.encode v, reader tail)
  unfolding read_param
  read_param-encode f v tail h = rw (
    append_assoc,
    varint-encode (param_id f) _ (param_id_IsVarint f),
    append_assoc,
    varint-encode (q.len v) _ (omega (arith, q.len_bounds v h)),
    ← q.length-encode v h,
    bytes_exact (q.encode v) tail,
  )

  length-one_param : (f : Field) (v : ℕ) (tail : List ℕ) → length tail < length (one_param f v tail)
  length-one_param f v tail = simp length-append (
      omega (
        arith,
        q.length-encode (param_id f) (param_id_IsVarint f),
        q.len_bounds (param_id f) (param_id_IsVarint f),
      ))

  parse_loop_step :
      (f : Field) (v : ℕ) (tail : List ℕ) (fuel : ℕ) (seen : List ℕ) (acc : Parameters)
      → v < 2 ^ 62
      → contains (param_id f) seen ≡ false
      → parse_loop (suc fuel) (reader (one_param f v tail)) seen acc
        ≡ parse_loop fuel (reader tail) (param_id f ∷ seen) (store f v acc)
  unfolding parse_loop
  parse_loop_step f v tail fuel seen acc h new =
      let filled : ((length (one_param f v tail) == 0) ≡ false) =
        ground (arith, length-one_param f v tail) in
      rw (read_param-encode f v tail h, accept-encode f v seen acc h new, filled)

  module _ (p : Parameters) (small : (f : Field) → IsVarint (load f p)) where
    parse_loop-append_fields :
        (fs : List Field) (fuel : ℕ) (seen : List ℕ) (acc : Parameters)
        → Fresh fs seen
        → length (append_fields p fs) < fuel
        → parse_loop fuel (reader (append_fields p fs)) seen acc ≡ check_parameters (copy p fs acc)
    unfolding append_fields append_field copy
    parse_loop-append_fields [] zero seen acc fresh h = elim h [ ]
    parse_loop-append_fields [] (suc fuel) seen acc fresh h = unfold parse_loop in refl
    parse_loop-append_fields (f ∷ fs) fuel seen acc fresh h = elim (Bool-cases (load f p == 0)) [
      | inl e ↦ rw e (
          parse_loop-append_fields fs fuel seen acc (Fresh-tail fs (param_id f) seen fresh.1)
            (rw e at h))
      | inr e ↦ rw e (
          sent
            (λ k.
              parse_loop-append_fields fs k (param_id f ∷ seen) (store f (load f p) acc) fresh.1)
            fuel (rw e at h))
    ]
      where
        tail : List ℕ
        tail = append_fields p fs

        sent :
            ((k : ℕ)
              → length tail < k
              → parse_loop k (reader tail) (param_id f ∷ seen) (store f (load f p) acc)
                ≡ check_parameters (copy p fs (store f (load f p) acc)))
            → (fuel : ℕ) → length (one_param f (load f p) tail) < fuel
            → parse_loop fuel (reader (one_param f (load f p) tail)) seen acc
              ≡ check_parameters (copy p fs (store f (load f p) acc))
        sent ih zero h = elim h [ ]
        sent ih (suc fuel) h =
            parse_loop_step f (load f p) tail fuel seen acc (small f) fresh.0
            ∙ ih fuel (omega (arith, length-one_param f (load f p) tail))

  -- At most 24 bytes for each parameter.
  length-append_field :
      (p : Parameters) (f : Field) → IsVarint (load f p) → length (append_field p f) ≤ 24
  unfolding append_field
  length-append_field p f h = elim (Bool-cases (load f p == 0)) [
    | inl e ↦ rw e (omega arith)
    | inr e ↦ rw e (
        simp length-append (
          omega (
            arith,
            encode_bounds (param_id f) (param_id_IsVarint f),
            encode_bounds (load f p) h,
            encode_bounds (q.len (load f p)) (omega (arith, q.len_bounds (load f p) h)),
          )))
  ]

  length-append_fields :
      (p : Parameters) (fs : List Field)
      → ((f : Field) → IsVarint (load f p))
      → length (append_fields p fs) ≤ 24 * length fs
  unfolding append_fields
  length-append_fields p [] h = omega arith
  length-append_fields p (f ∷ fs) h =
      rw (length-append (append_field p f))
        (omega (arith, length-append_field p f (h f), length-append_fields p fs h))

  pub length-encode_parameters :
      (p : Parameters) → IsDeclarable p → length (encode_parameters p) ≤ 216
  unfolding encode_parameters
  length-encode_parameters p h = length-append_fields p append_order (small h)

  -- Parsing what `append` wrote for parameters within the protocol's bounds gives them back, with
  -- the default for an absent `max_record_size`.
  pub parse_parameters-encode :
      (p : Parameters) → IsDeclarable p → parse_parameters (encode_parameters p) ≡ ok (filled p)
  unfolding parse_parameters encode_parameters
  parse_parameters-encode p h =
      parse_loop-append_fields p (small h) append_order _ [] default_parameters append_order-Fresh
        (omega arith)
      ∙ ap check_parameters (copy-filled p)
      ∙ check-filled p h
