-- ===== src/Wire/Reader.antt =====
-- The record reader of qmux/internal/wire/frame.go. Each read returns its value and the reader.
use qmux_go.Base.{
  Bool, List, Option-cases, [], arith, drop, drop-length-append, false, if◌then◌else◌, inl, inr,
  length, length-append, length-drop, le→ltb, ltb, none, some, take, take-length-append, true, ℕ,
  ◌++◌, ◌<◌, ◌^◌, ◌||◌, ◌∷◌, ◌≡◌, ◌≤◌,
}
use qmux_go.Varint.{Varint}

pub record Reader : Type 0 where
  pub b : List ℕ
  pub failed : Bool

-- `&reader{b: b}`.
abbrev pub reader : List ℕ → Reader
reader b = record { b = b; failed = false }

unfoldable pub bytes : ℕ → Reader → List ℕ × Reader
bytes n r =
    if r.failed || ltb (length r.b) n
    then ([], record r { failed = true })
    else (take n r.b, record r { b = drop n r.b })

unfoldable pub rest : Reader → List ℕ × Reader
rest r = if r.failed then ([], r) else (r.b, record r { b = [] })

-- Reading is over the bytes that are left.
abbrev pub Shrinks : Reader → Reader → Type 0
Shrinks r s = length s.b ≤ length r.b

pub bytes-Shrinks : (n : ℕ) (r : Reader) → Shrinks r (bytes n r).1
unfolding bytes
bytes-Shrinks n r = ground (arith, length-drop n r.b)

pub rest-Shrinks : (r : Reader) → Shrinks r (rest r).1
unfolding rest
rest-Shrinks r = ground arith

-- A reader that has failed stays failed.
pub bytes_keeps : (n : ℕ) (r : Reader) → (bytes n r).1.failed ≡ false → r.failed ≡ false
unfolding bytes
bytes_keeps n r h = ground arith

pub rest_keeps : (r : Reader) → (rest r).1.failed ≡ false → r.failed ≡ false
unfolding rest
rest_keeps r h = ground arith

pub bytes_exact : (p tail : List ℕ) → bytes (length p) (reader (p ++ tail)) ≡ (p, reader tail)
unfolding bytes
bytes_exact p tail = rw (
  le→ltb (length (p ++ tail)) (length p) (omega (arith, length-append p tail)),
  take-length-append,
  drop-length-append,
)

module _ ⦃q : Varint⦄ where
  unfoldable pub varint : Reader → ℕ × Reader
  varint r = if r.failed then (0, r) else elim (q.parse r.b) [
    | none ↦ (0, record r { failed = true })
    | some (v, n) ↦ (v, record r { b = drop n r.b })
  ]

  pub varint-Shrinks : (r : Reader) → Shrinks r (varint r).1
  unfolding varint
  varint-Shrinks r = elim (Option-cases (q.parse r.b)) [
    | inl e ↦ ground arith
    | inr ((v, n), e) ↦ ground (arith, length-drop n r.b)
  ]

  -- A read that does not fail takes at least one byte.
  pub varint_takes : (r : Reader) → (varint r).1.failed ≡ false → length (varint r).1.b < length r.b
  unfolding varint
  varint_takes r h = elim (Option-cases (q.parse r.b)) [
    | inl e ↦ ground arith
    | inr ((v, n), e) ↦ ground (arith, length-drop n r.b, q.parse_bounds r.b v n e)
  ]

  pub varint_keeps : (r : Reader) → (varint r).1.failed ≡ false → r.failed ≡ false
  unfolding varint
  varint_keeps r h = ground arith

  -- What a failed read returns.
  pub varint_zero : (r : Reader) → (varint r).1.failed ≡ true → (varint r).0 ≡ 0
  unfolding varint
  varint_zero r h = ground arith

  pub varint_failed : (r : Reader) → r.failed ≡ true → varint r ≡ (0, r)
  unfolding varint
  varint_failed r h = rw h

  pub varint_bounds : (r : Reader) → (varint r).0 < 2 ^ 62
  unfolding varint
  varint_bounds r = elim (Option-cases (q.parse r.b)) [
    | inl e ↦ ground arith
    | inr ((v, n), e) ↦ ground (arith, q.parse_bounds r.b v n e)
  ]

  pub varint-encode :
      (v : ℕ) (tail : List ℕ) → v < 2 ^ 62 → varint (reader (q.encode v ++ tail)) ≡ (v, reader tail)
  unfolding varint
  varint-encode v tail h = rw (q.parse-encode v tail h, ← q.length-encode v h, drop-length-append)

  -- A frame type below 64 is one byte.
  pub varint_small :
      (v : ℕ) (tail : List ℕ) → v < 64 → varint (reader (v ∷ tail)) ≡ (v, reader tail)
  varint_small v tail h = rw (q.encode_small v h) at (varint-encode v tail (omega arith))
