-- ===== src/Conn/Handle/Total.antt =====
-- `handleRecord` on whole records.
use qmux_go.Base.{
  Bool-cases, List, Option-cases, arith, inl, inr, is_some, length, none, refl, some, suc, zero, ℕ,
  ◌<◌, ◌==◌, ◌||◌, ◌≡◌, ◌≢◌, ◌⊎◌,
}
use qmux_go.Conn.Failure.{Failure}
use qmux_go.Conn.Handle.{handle_frame, handle_record, record_loop}
use qmux_go.Conn.Receive.{Growth, Outcome, closed, fine, violation}
use qmux_go.Conn.State.{Conn}
use qmux_go.Varint.{Varint}
use qmux_go.Wire.Error.{Error, Result-cases}
use qmux_go.Wire.Parse.{parse}
use qmux_go.Wire.Parse.Progress.{parse-ne-stuck, parse_takes}
use qmux_go.Wire.Reader.{rest}

pub Outcome-cases :
    (o : Outcome)
    → (o ≡ fine) ⊎ (((e : Error) × (o ≡ violation e)) ⊎ ((e : Failure) × (o ≡ closed e)))
Outcome-cases fine = inl refl
Outcome-cases (violation e) = inr (inl (e, refl))
Outcome-cases (closed e) = inr (inr (e, refl))

module _ ⦃q : Varint⦄ ⦃g : Growth⦄ where
  record_loop-total :
      (n now : ℕ) (c : Conn) (rec : List ℕ) → length rec < n → record_loop n now c rec ≢ none
  unfolding record_loop
  record_loop-total zero now c rec h = absurd (omega arith)
  record_loop-total (suc n) now c rec h =
      elim (Bool-cases (length rec == 0 || is_some c.close_err)) [
        | inl e ↦ simp e (λ k. ground arith)
        | inr e ↦ simp e (
            unfold record_loop in
            (elim (Result-cases (parse rec)) [
              | inr (inr p) ↦ absurd (parse-ne-stuck rec p)
              | inr (inl (x, p)) ↦ simp p (λ k. ground arith)
              | inl ((none, rest), p) ↦ simp p (λ k. ground arith)
              | inl ((some f, rest), p) ↦ elim (Outcome-cases (handle_frame now c f).1) [
                | inl o ↦
                    simp (p, o)
                      (record_loop-total n now _ rest (omega (arith, parse_takes rec rest f p)))
                | inr (inl (x, o)) ↦ simp (p, o) (λ k. ground arith)
                | inr (inr (x, o)) ↦ simp (p, o) (λ k. ground arith)
              ]
            ]))
      ]

  -- Every record is handled: the loop of `handleRecord` ends with a state and an outcome, on any
  -- bytes.
  pub handle_record-total :
      (now : ℕ) (c : Conn) (rec : List ℕ)
      → (c' : Conn) × (o : Outcome) × (handle_record now c rec ≡ some (c', o))
  unfolding handle_record
  handle_record-total now c rec = elim (Option-cases (record_loop (suc (length rec)) now c rec)) [
    | inl e ↦ absurd (record_loop-total (suc (length rec)) now c rec (omega arith) e)
    | inr (r, e) ↦ (r.0, r.1, e)
  ]
