-- ===== src/Varint.antt =====
-- The package github.com/quic-go/quic-go/quicvarint, which qmux/internal/wire and qmux/transport.go
-- call and which is not part of the repository: an interface with the documented behaviour that
-- the code relies on (variable-length integers of RFC 9000, Section 16).
use qmux_go.Base.{
  ℕ, suc, ◌+◌, ◌-◌, ◌^◌, ◌≤◌, ◌<◌, ◌≡◌, ◌≢◌, List, [], ◌∷◌, ◌++◌, Option, some, length,
}
pub mod Rfc
pub mod Sizes

-- `quicvarint.Max` is 2^62 - 1.
abbrev pub IsVarint : ℕ → Type 0
IsVarint v = v < 2 ^ 62

pub record Varint : Type 0 where
  -- What `Append(b, v)` appends to `b`; it panics above the maximum, and no law speaks of that.
  pub encode : ℕ → List ℕ
  -- `Parse(b)`: the value and the number of bytes it took, `none` for its error.
  pub parse : List ℕ → Option (ℕ × ℕ)
  -- `Len(v)`.
  pub len : ℕ → ℕ
  pub parse-encode :
      (v : ℕ) (rest : List ℕ) → v < 2 ^ 62 → parse (encode v ++ rest) ≡ some (v, len v)
  pub length-encode : (v : ℕ) → v < 2 ^ 62 → length (encode v) ≡ len v
  pub len_bounds : (v : ℕ) → v < 2 ^ 62 → (1 ≤ len v) × (len v ≤ 8)
  pub len_mono : (v w : ℕ) → v ≤ w → w < 2 ^ 62 → len v ≤ len w
  -- A value is below 2^62, and is read from at least one byte of the input.
  pub parse_bounds :
      (b : List ℕ) (v n : ℕ) → parse b ≡ some (v, n) → (v < 2 ^ 62) × (1 ≤ n) × (n ≤ length b)
  -- A value below 64 is its own encoding; any other starts with a length prefix that is not 0.
  pub encode_small : (v : ℕ) → v < 64 → encode v ≡ v ∷ []
  pub encode_large :
      (v : ℕ) → 64 ≤ v → v < 2 ^ 62 → (h : ℕ) × (t : List ℕ) × (encode v ≡ h ∷ t) × (h ≢ 0)
