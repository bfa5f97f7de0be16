-- ===== src/Varint/Sizes.antt =====
-- The size of an encoded variable-length integer.
use qmux_go.Base.{length, ℕ, ◌<◌, ◌^◌, ◌≤◌}
use qmux_go.Varint.{Varint}

module _ ⦃q : Varint⦄ where
  pub encode_bounds : (v : ℕ) → v < 2 ^ 62 → (1 ≤ length (q.encode v)) × (length (q.encode v) ≤ 8)
  encode_bounds v h = rw (q.length-encode v h) (q.len_bounds v h)
