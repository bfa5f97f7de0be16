-- ===== src/Adapter/Pending.antt =====
-- The byte stream that `NetConn` of qmux/adapter.go makes of messages.
use qmux_go.Base.{
  All, List, [], ap, append_assoc, arith, drop, inl, inr, length, length-append, length-take,
  length_zero, none, refl, some, sym, take, take-append-drop, ℕ, ◌++◌, ◌<◌, ◌∙◌, ◌∷◌, ◌≡◌, ◌≤◌, ◌⊎◌,
}
use qmux_go.Adapter.{Adapter, adapter_read, drain, refill}

unfoldable pub joined : List (List ℕ) → List ℕ
joined [] = []
joined (b ∷ bs) = b ++ joined bs

-- The bytes that are still to be read.
abbrev pub pending : Adapter → List ℕ
pending a = a.buf ++ joined a.messages

refill_cases :
    (messages : List (List ℕ)) (buf : List ℕ)
    → ((refill messages buf ≡ none) × (buf ++ joined messages ≡ []))
      ⊎ ((a : Adapter) × (refill messages buf ≡ some a)
          × (0 < length a.buf)
          × (pending a ≡ buf ++ joined messages))
unfolding refill joined
refill_cases messages (b ∷ bs) =
    inr (record { messages = messages; buf = b ∷ bs }, refl, omega arith, refl)
refill_cases [] [] = inl (refl, refl)
refill_cases (p ∷ messages) [] = refill_cases messages p

-- A `Read` of `NetConn` with room for a byte gives an error exactly as long as no byte of the
-- messages is left, and otherwise the next bytes of the messages, at least one and at most the
-- room, and leaves the others.
pub adapter_read_cases :
    (room : ℕ) (a : Adapter)
    → 0 < room
    → ((adapter_read room a ≡ none) × (pending a ≡ []))
      ⊎ ((b : List ℕ) × (a' : Adapter) × (adapter_read room a ≡ some (b, a'))
          × (0 < length b)
          × (length b ≤ room)
          × (b ++ pending a' ≡ pending a))
unfolding adapter_read
adapter_read_cases room a h = elim (refill_cases a.messages a.buf) [
  | inl (e, p) ↦ inl (rw (e, adapter_read) refl, p)
  | inr (a', e, n, p) ↦ inr (
    take room a'.buf,
    record a' { buf = drop room a'.buf },
    rw (e, adapter_read) refl,
    omega (arith, length-take room a'.buf),
    omega (arith, length-take room a'.buf),
    sym (append_assoc (take room a'.buf) (drop room a'.buf) (joined a'.messages))
        ∙ ap (λ b. b ++ joined a'.messages) (take-append-drop room a'.buf)
        ∙ p,
  )
]

abbrev pub IsRoom : ℕ → Type 0
IsRoom room = 0 < room

-- Enough reads.
pub drain-pending :
    (rooms : List ℕ) (a : Adapter)
    → All IsRoom rooms
    → length (pending a) ≤ length rooms
    → drain rooms a ≡ pending a
unfolding drain
drain-pending [] a h k = sym (length_zero (pending a) k)
drain-pending (room ∷ rooms) a (h, hs) k = elim (adapter_read_cases room a h) [
  | inl (e, p) ↦ rw (e, drain) (sym p)
  | inr (b, a', e, n, m, p) ↦
      rw (e, drain)
        (ap (λ x. b ++ x)
            (drain-pending rooms a' hs (omega (arith, length-append b (pending a'), ap length p)))
          ∙ p)
]
