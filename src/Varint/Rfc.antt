-- ===== src/Varint/Rfc.antt =====
-- The variable-length integers of RFC 9000, Section 16, as a concrete `Varint`: the laws of the
-- interface can be met, and the witnesses run on it.
use qmux_go.Base.{
  Bool-cases, List, Option, [], arith, if◌then◌else◌, inl, inr, length, ltb, none, some, ℕ, ◌%◌,
  ◌*◌, ◌++◌, ◌+◌, ◌-◌, ◌/◌, ◌<◌, ◌^◌, ◌∷◌, ◌≡◌, ◌≢◌, ◌≤◌,
}
use qmux_go.Varint.{Varint}
use qmux_go.Wire.Reader.{rest}

-- The seven bytes below the first of an encoding in eight.
abbrev low_bytes : ℕ → List ℕ
low_bytes v =
    (v / 281474976710656 % 256)
    ∷ (v / 1099511627776 % 256)
    ∷ (v / 4294967296 % 256)
    ∷ (v / 16777216 % 256)
    ∷ (v / 65536 % 256)
    ∷ (v / 256 % 256)
    ∷ (v % 256)
    ∷ []

unfoldable pub encode_rfc : ℕ → List ℕ
encode_rfc v =
    if ltb v 64
    then v ∷ []
    else if ltb v 16384
    then (64 + v / 256) ∷ (v % 256) ∷ []
    else if ltb v 1073741824
    then (128 + v / 16777216) ∷ (v / 65536 % 256) ∷ (v / 256 % 256) ∷ (v % 256) ∷ []
    else (192 + v / 72057594037927936) ∷ low_bytes v

unfoldable pub len_rfc : ℕ → ℕ
len_rfc v = if ltb v 64 then 1 else if ltb v 16384 then 2 else if ltb v 1073741824 then 4 else 8

unfoldable pub parse2 : ℕ → List ℕ → Option (ℕ × ℕ)
parse2 h (b ∷ bs) = some ((h * 256 + b) % 2 ^ 62, 2)
parse2 h [] = none

unfoldable pub parse4 : ℕ → List ℕ → Option (ℕ × ℕ)
parse4 h (b ∷ c ∷ d ∷ bs) = some ((h * 16777216 + b * 65536 + c * 256 + d) % 2 ^ 62, 4)
parse4 h _ = none

unfoldable pub parse8 : ℕ → List ℕ → Option (ℕ × ℕ)
parse8 h (a ∷ b ∷ c ∷ d ∷ e ∷ f ∷ g ∷ bs) = some (
  (h * 72057594037927936
        + a * 281474976710656
        + b * 1099511627776
        + c * 4294967296
        + d * 16777216
        + e * 65536
        + f * 256
        + g)
      % 2 ^ 62,
  8,
)
parse8 h _ = none

unfoldable pub parse_rfc : List ℕ → Option (ℕ × ℕ)
parse_rfc [] = none
parse_rfc (h ∷ bs) =
    if ltb h 64
    then some (h, 1)
    else if ltb h 128
    then parse2 (h - 64) bs
    else if ltb h 192
    then parse4 (h - 128) bs
    else parse8 (h - 192) bs

pub parse-encode_rfc :
    (v : ℕ) (rest : List ℕ) → v < 2 ^ 62 → parse_rfc (encode_rfc v ++ rest) ≡ some (v, len_rfc v)
unfolding parse_rfc parse2 parse4 parse8 encode_rfc len_rfc
parse-encode_rfc v rest h = ground arith

pub length-encode_rfc : (v : ℕ) → v < 2 ^ 62 → length (encode_rfc v) ≡ len_rfc v
unfolding encode_rfc len_rfc
length-encode_rfc v h = ground arith

pub len_rfc_bounds : (v : ℕ) → v < 2 ^ 62 → (1 ≤ len_rfc v) × (len_rfc v ≤ 8)
unfolding len_rfc
len_rfc_bounds v h = ground arith

pub len_rfc_mono : (v w : ℕ) → v ≤ w → w < 2 ^ 62 → len_rfc v ≤ len_rfc w
unfolding len_rfc
len_rfc_mono v w p h = ground arith

abbrev pub Bounded : List ℕ → Option (ℕ × ℕ) → Type 0
Bounded b r = (v n : ℕ) → r ≡ some (v, n) → (v < 2 ^ 62) × (1 ≤ n) × (n ≤ length b)

parse2_bounds : (h k : ℕ) (bs : List ℕ) → Bounded (k ∷ bs) (parse2 h bs)
unfolding parse2
parse2_bounds h k [] v n e = cc
parse2_bounds h k (b ∷ bs) v n e = ground arith

parse4_bounds : (h k : ℕ) (bs : List ℕ) → Bounded (k ∷ bs) (parse4 h bs)
unfolding parse4
parse4_bounds h k (b ∷ c ∷ d ∷ bs) v n e = ground arith
parse4_bounds h k _ v n e = cc

parse8_bounds : (h k : ℕ) (bs : List ℕ) → Bounded (k ∷ bs) (parse8 h bs)
unfolding parse8
parse8_bounds h k (a ∷ b ∷ c ∷ d ∷ e ∷ f ∷ g ∷ bs) v n p = ground arith
parse8_bounds h k _ v n e = cc

pub parse_rfc_bounds : (b : List ℕ) → Bounded b (parse_rfc b)
parse_rfc_bounds [] v n e = unfold parse_rfc in cc
parse_rfc_bounds (h ∷ bs) v n e =
    unfold parse_rfc in
    ground (
      arith,
      parse2_bounds (h - 64) h bs v n,
      parse4_bounds (h - 128) h bs v n,
      parse8_bounds (h - 192) h bs v n,
    )

pub encode_rfc_small : (v : ℕ) → v < 64 → encode_rfc v ≡ v ∷ []
unfolding encode_rfc
encode_rfc_small v h = ground arith

pub encode_rfc_large :
    (v : ℕ) → 64 ≤ v → v < 2 ^ 62 → (h : ℕ) × (t : List ℕ) × (encode_rfc v ≡ h ∷ t) × (h ≢ 0)
unfolding encode_rfc
encode_rfc_large v h k = elim (Bool-cases (ltb v 16384)) [
  | inl p ↦ (64 + v / 256, (v % 256) ∷ [], ground arith, omega arith)
  | inr p ↦ elim (Bool-cases (ltb v 1073741824)) [
    | inl r ↦ (
      128 + v / 16777216,
      (v / 65536 % 256) ∷ (v / 256 % 256) ∷ (v % 256) ∷ [],
      ground arith,
      omega arith,
    )
    | inr r ↦ (192 + v / 72057594037927936, low_bytes v, ground arith, omega arith)
  ]
]

instance abbrev pub rfc9000 : Varint
rfc9000 = record {
  encode = encode_rfc;
  parse = parse_rfc;
  len = len_rfc;
  parse-encode = parse-encode_rfc;
  length-encode = length-encode_rfc;
  len_bounds = len_rfc_bounds;
  len_mono = len_rfc_mono;
  parse_bounds = parse_rfc_bounds;
  encode_small = encode_rfc_small;
  encode_large = encode_rfc_large;
}
