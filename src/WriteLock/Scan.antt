-- ===== src/WriteLock/Scan.antt =====
-- A heap that is searched for its least element, as a concrete `Heap`: the laws of the interface
-- can be met, and the witnesses run on it.
use qmux_go.Base.{
  ==→eq, All, Bool, Bool-cases, List, Option, [], ap, arith, false, if◌then◌else◌, inl, inr, length,
  ltb, none, not, refl, some, subst, sym, true, ℕ, ◌<◌, ◌∙◌, ◌∷◌, ◌≡◌, ◌⊎◌,
}
use qmux_go.Config.{negsuc, pos, ℤ}
use qmux_go.Conn.Ids.{same}
use qmux_go.WriteLock.{Heap, Waiter, eq_ℤ, less, lt_ℤ}
use qmux_go.WriteLock.Turns.{All-map, eq_ℤ-refl}
use mathlib.Core.List.{Permᴰ}
use mathlib.Core.Option.{some-injective}

eq_ℤ→eq : (a b : ℤ) → eq_ℤ a b ≡ true → a ≡ b
unfolding eq_ℤ
eq_ℤ→eq (pos a) (pos b) h = ap pos (==→eq a b h)
eq_ℤ→eq (negsuc a) (negsuc b) h = ap negsuc (==→eq a b h)
eq_ℤ→eq (pos a) (negsuc b) h = ground arith
eq_ℤ→eq (negsuc a) (pos b) h = ground arith

-- The urgency as a natural number in the same order.
abbrev Below : ℤ → ℤ → Type 0
Below a b = (lt_ℤ a b ≡ true) × (eq_ℤ a b ≡ false)

Below-trans : (a b c : ℤ) → Below a b → Below b c → Below a c
unfolding lt_ℤ eq_ℤ
Below-trans (pos a) (pos b) (pos c) h k = ground arith
Below-trans (pos a) (pos b) (negsuc c) h k = ground arith
Below-trans (pos a) (negsuc b) c h k = ground arith
Below-trans (negsuc a) (pos b) (pos c) h k = ground arith
Below-trans (negsuc a) (pos b) (negsuc c) h k = ground arith
Below-trans (negsuc a) (negsuc b) (pos c) h k = ground arith
Below-trans (negsuc a) (negsuc b) (negsuc c) h k = ground arith

-- `less` as an order by urgency, then kind, then order.
abbrev RanksAlike : Waiter → Waiter → Type 0
RanksAlike a b =
    ((a.priority.incremental ≡ false) × (b.priority.incremental ≡ true))
    ⊎ ((a.priority.incremental ≡ b.priority.incremental) × (a.order < b.order))

abbrev RanksBefore : Waiter → Waiter → Type 0
RanksBefore a b =
    Below a.priority.urgency b.priority.urgency
    ⊎ ((a.priority.urgency ≡ b.priority.urgency) × RanksAlike a b)

same_ranks :
    (p q : Bool) (m n : ℕ)
    → (if not (same p q) then not p else ltb m n) ≡ true
    → ((p ≡ false) × (q ≡ true)) ⊎ ((p ≡ q) × (m < n))
same_ranks true true m n h = inr (refl, ground arith)
same_ranks true false m n h = ground arith
same_ranks false true m n h = inl (refl, refl)
same_ranks false false m n h = inr (refl, ground arith)

ranks_same :
    (p q : Bool) (m n : ℕ)
    → ((p ≡ false) × (q ≡ true)) ⊎ ((p ≡ q) × (m < n))
    → (if not (same p q) then not p else ltb m n) ≡ true
ranks_same true true m n h = ground arith
ranks_same true false m n h = ground arith
ranks_same false true m n h = refl
ranks_same false false m n h = ground arith

RanksAlike-trans : (a b c : Waiter) → RanksAlike a b → RanksAlike b c → RanksAlike a c
RanksAlike-trans a b c h k = ground arith

RanksBefore-trans : (a b c : Waiter) → RanksBefore a b → RanksBefore b c → RanksBefore a c
RanksBefore-trans a b c (inl h) (inl k) = inl (Below-trans _ _ _ h k)
RanksBefore-trans a b c (inl h) (inr (e, k)) = inl (subst (Below a.priority.urgency) e h)
RanksBefore-trans a b c (inr (e, h)) (inl k) =
    inl (subst (λ u. Below u c.priority.urgency) (sym e) k)
RanksBefore-trans a b c (inr (e, h)) (inr (e', k)) = inr (e ∙ e', RanksAlike-trans a b c h k)

less→RanksBefore : (a b : Waiter) → less a b ≡ true → RanksBefore a b
unfolding less
less→RanksBefore a b h = elim (Bool-cases (eq_ℤ a.priority.urgency b.priority.urgency)) [
  | inl e ↦ inr (eq_ℤ→eq _ _ e, same_ranks _ _ _ _ (simp e at h))
  | inr e ↦ inl (simp e at h, e)
]

RanksBefore→less : (a b : Waiter) → RanksBefore a b → less a b ≡ true
unfolding less
RanksBefore→less a b (inl (h, e)) = simp (e, h) refl
RanksBefore→less a b (inr (e, h)) = simp (e, eq_ℤ-refl b.priority.urgency) (ranks_same _ _ _ _ h)

less_trans : (a b c : Waiter) → less a b ≡ true → less b c ≡ true → less a c ≡ true
less_trans a b c h k =
    RanksBefore→less a c (RanksBefore-trans a b c (less→RanksBefore a b h) (less→RanksBefore b c k))

less_irrefl : (a : Waiter) → less a a ≡ false
unfolding less
less_irrefl a = simp (eq_ℤ-refl a.priority.urgency) (ground arith)

-- The least of `w` and the elements of a list, and the others.
unfoldable pub least : Waiter → List Waiter → Waiter × List Waiter
least w [] = (w, [])
least w (x ∷ xs) = let (m, t) = least w xs in if less x m then (x, m ∷ t) else (m, x ∷ t)

unfoldable pub scan : List Waiter → Option (Waiter × List Waiter)
scan [] = none
scan (w ∷ xs) = some (least w xs)

abbrev IsLeast : Waiter → Waiter → Type 0
IsLeast m x = less x m ≡ false

pub Permᴰ-refl {ℓ} : {A : Type ℓ} (xs : List A) → Permᴰ xs xs
Permᴰ-refl [] = Permᴰ.nil
Permᴰ-refl (x ∷ xs) = Permᴰ.cons refl (Permᴰ-refl xs)

-- What the search gives is all there was, the least first.
abbrev IsScan : List Waiter → Waiter × List Waiter → Type 0
IsScan xs (m, t) = Permᴰ xs (m ∷ t) × All (IsLeast m) xs

IsLeast-less : (x m y : Waiter) → less x m ≡ true → IsLeast m y → IsLeast x y
IsLeast-less x m y h k = elim (Bool-cases (less y x)) [
  | inl e ↦ absurd (ground (arith, less_trans y x m e h))
  | inr e ↦ e
]

least_step :
    (w x m : Waiter) (xs t : List Waiter) (b : Bool)
    → less x m ≡ b
    → IsScan (w ∷ xs) (m, t)
    → IsScan (w ∷ x ∷ xs) (if b then (x, m ∷ t) else (m, x ∷ t))
least_step w x m xs t true e (d, (a, l)) = (
  Permᴰ.trans (Permᴰ.swap refl refl) (Permᴰ.cons refl d),
  (IsLeast-less x m w e a, (less_irrefl x, All-map (λ y. IsLeast-less x m y e) xs l)),
)
least_step w x m xs t false e (d, (a, l)) = (
  Permᴰ.trans (Permᴰ.swap refl refl) (Permᴰ.trans (Permᴰ.cons refl d) (Permᴰ.swap refl refl)),
  (a, (e, l)),
)

least-IsScan : (w : Waiter) (xs : List Waiter) → IsScan (w ∷ xs) (least w xs)
unfolding least
least-IsScan w [] = (Permᴰ-refl _, (less_irrefl w, tt))
least-IsScan w (x ∷ xs) = least_step w x _ xs _ _ refl (least-IsScan w xs)

pub scan-some :
    (h : List Waiter) → 0 < length h → (w : Waiter) × (t : List Waiter) × (scan h ≡ some (w, t))
unfolding scan
scan-some [] k = ground arith
scan-some (w ∷ xs) k = ((least w xs).0, (least w xs).1, refl)

pub scan-IsScan : (h : List Waiter) (r : Waiter × List Waiter) → scan h ≡ some r → IsScan h r
unfolding scan
scan-IsScan [] r e = ground arith
scan-IsScan (w ∷ xs) r e = subst (IsScan (w ∷ xs)) (some-injective _ _ e) (least-IsScan w xs)

instance abbrev pub scanned : Heap
scanned = record {
  IsHeap = λ h. Unit;
  push = λ w h. w ∷ h;
  pop = scan;
  empty-IsHeap = tt;
  push-IsHeap = λ w h v. tt;
  push-Permᴰ = λ w h. Permᴰ-refl _;
  pop-some = λ h v k. scan-some h k;
  pop_least = λ h t w v e. let (d, a) = scan-IsScan h (w, t) e in (tt, d, a);
}
