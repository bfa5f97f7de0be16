-- ===== src/WriteLock/Turns.antt =====
-- `acquire` and `Unlock` of qmux/write_lock.go, and the waiters.
use qmux_go.Base.{
  All, Bool-cases, List, [], add64, ap, arith, false, if◌then◌else◌, inl, inr, length, none, refl,
  some, subst, sym, true, ℕ, ◌++◌, ◌+◌, ◌<◌, ◌==◌, ◌^◌, ◌∙◌, ◌∷◌, ◌≡◌, ◌≢◌, ◌≤◌, ◌⊎◌,
}
use qmux_go.Config.{negsuc, pos, ℤ}
use qmux_go.WriteLock.{
  Heap, Priority, Waiter, WriteLock, acquire, eq_ℤ, less, new_lock, unlock, waiter,
}
use mathlib.Core.List.{Permᴰ}

All-Permᴰ {ℓ κ} : {A : Type ℓ} (P : A → Type κ) {xs ys : List A} → Permᴰ xs ys → All P xs → All P ys
All-Permᴰ P Permᴰ.nil h = h
All-Permᴰ P (Permᴰ.cons e d) (p, h) = (subst P e p, All-Permᴰ P d h)
All-Permᴰ P (Permᴰ.swap e₁ e₂) (p, (q, h)) = (subst P e₂ q, (subst P e₁ p, h))
All-Permᴰ P (Permᴰ.trans d₁ d₂) h = All-Permᴰ P d₂ (All-Permᴰ P d₁ h)

pub All-map {ℓ κ} :
    {A : Type ℓ} {P Q : A → Type κ} (f : (a : A) → P a → Q a) (xs : List A) → All P xs → All Q xs
All-map f [] h = tt
All-map f (x ∷ xs) (p, h) = (f x p, All-map f xs h)

pub eq_ℤ-refl : (a : ℤ) → eq_ℤ a a ≡ true
unfolding eq_ℤ
eq_ℤ-refl (pos a) = ground arith
eq_ℤ-refl (negsuc a) = ground arith

-- A waiter's channel has been made, and an incremental waiter has arrived.
abbrev HasArrived : WriteLock → Waiter → Type 0
HasArrived l w = (w.ready < l.made) × (w.priority.incremental ≡ true → w.order ≤ l.arrivals)

All-middle {ℓ κ} :
    {A : Type ℓ} (P : A → Type κ) (a : A) (xs ys : List A) → All P (xs ++ a ∷ ys) → P a
All-middle P a [] ys (p, h) = p
All-middle P a (x ∷ xs) ys (p, h) = All-middle P a xs ys h

List-cases {ℓ} : {A : Type ℓ} (xs : List A) → (xs ≡ []) ⊎ (0 < length xs)
List-cases [] = inl refl
List-cases (x ∷ xs) = inr (omega arith)

empty_waiters : (xs : List Waiter) → xs ≡ [] → ¬ (0 < length xs)
empty_waiters [] e k = omega arith
empty_waiters (x ∷ xs) e k = ground arith

Permᴰ-symm {ℓ} : {A : Type ℓ} {xs ys : List A} → Permᴰ xs ys → Permᴰ ys xs
Permᴰ-symm Permᴰ.nil = Permᴰ.nil
Permᴰ-symm (Permᴰ.cons e d) = Permᴰ.cons (sym e) (Permᴰ-symm d)
Permᴰ-symm (Permᴰ.swap e₁ e₂) = Permᴰ.swap (sym e₂) (sym e₁)
Permᴰ-symm (Permᴰ.trans d₁ d₂) = Permᴰ.trans (Permᴰ-symm d₂) (Permᴰ-symm d₁)

waiter-priority : (p : Priority) (n m : ℕ) → (waiter p n m).priority ≡ p
unfolding waiter
waiter-priority p n m = refl

arrival_later :
    (l : WriteLock) (p : Priority) (w : Waiter)
    → l.arrivals + 1 < 2 ^ 64
    → p.incremental ≡ true
    → w.order ≤ l.arrivals
    → w.order < (waiter p (add64 l.arrivals 1) l.made).order
unfolding waiter
arrival_later l p w b i o = simp i (omega arith)

-- Incremental waiters of one urgency rank by their order.
less_arrival :
    (w x : Waiter)
    → w.priority.urgency ≡ x.priority.urgency
    → w.priority.incremental ≡ true
    → x.priority.incremental ≡ true
    → w.order < x.order
    → (less w x ≡ true) × (less x w ≡ false)
unfolding less
less_arrival w x u i j o = simp (u, i, j, eq_ℤ-refl x.priority.urgency) (ground arith)

module _ ⦃h : Heap⦄ where
  -- Nobody waits for a free lock.
  pub record IsLock (l : WriteLock) : Type 0 where
    pub free : l.held ≡ false → l.waiters ≡ []
    pub heap : h.IsHeap l.waiters
    pub arrived : All (HasArrived l) l.waiters

  pub new_lock-IsLock : IsLock new_lock
  new_lock-IsLock = record { free = λ e. refl; heap = h.empty-IsHeap; arrived = tt }

  arrived_later :
      (l : WriteLock) (n m : ℕ)
      → l.arrivals ≤ n
      → l.made ≤ m
      → (w : Waiter) → HasArrived l w
      → HasArrived (record l { arrivals = n; made = m }) w
  arrived_later l n m p q w (a, b) = (omega arith, λ e. omega (arith, b e))

  waiter-HasArrived :
      (l : WriteLock) (p : Priority)
      → l.arrivals + 1 < 2 ^ 64
      → HasArrived
          (acquire p (record l { held = true })).0
          (waiter p (if p.incremental then add64 l.arrivals 1 else l.arrivals) l.made)
  unfolding acquire waiter
  waiter-HasArrived l p b = ground arith

  arrivals_later :
      (l : WriteLock) (p : Priority)
      → l.arrivals + 1 < 2 ^ 64
      → l.arrivals ≤ (if p.incremental then add64 l.arrivals 1 else l.arrivals)
  arrivals_later l p b = ground arith

  queued-IsLock :
      (l : WriteLock) (p : Priority)
      → IsLock l
      → l.arrivals + 1 < 2 ^ 64
      → All (HasArrived (acquire p (record l { held = true })).0) l.waiters
      → IsLock (acquire p (record l { held = true })).0
  unfolding acquire
  queued-IsLock l p v b k = record {
    free = λ e. ground arith;
    heap = h.push-IsHeap _ _ v.heap;
    arrived = All-Permᴰ _ (Permᴰ-symm (h.push-Permᴰ _ _)) (waiter-HasArrived l p b, k);
  }

  waiters-HasArrived :
      (l : WriteLock) (p : Priority)
      → IsLock l
      → l.arrivals + 1 < 2 ^ 64
      → All (HasArrived (acquire p (record l { held = true })).0) l.waiters
  unfolding acquire
  waiters-HasArrived l p v b =
      All-map (arrived_later l _ (l.made + 1) (arrivals_later l p b) (omega arith)) l.waiters
        v.arrived

  pub acquire-IsLock :
      (l : WriteLock) (p : Priority) → IsLock l → l.arrivals + 1 < 2 ^ 64 → IsLock (acquire p l).0
  unfolding acquire
  acquire-IsLock l p v b = elim (Bool-cases l.held) [
    | inr e ↦ simp e (record { free = λ e'. v.free e; heap = v.heap; arrived = v.arrived })
    | inl e ↦ simp e (unfold acquire in (queued-IsLock l p v b (waiters-HasArrived l p v b)))
  ]

  handed_held : (l : WriteLock) → IsLock l → 0 < length l.waiters → l.held ≢ false
  handed_held l v k f = empty_waiters l.waiters (v.free f) k

  -- From a consistent lock, `Unlock` leaves a consistent lock, and frees it if nobody waits;
  -- otherwise it hands it to a waiter that no other ranks before, and every other waiter stays.
  pub unlock_serves :
      (l : WriteLock)
      → IsLock l
      → IsLock (unlock l).0
        × (((l.waiters ≡ []) × ((unlock l).0.held ≡ false) × ((unlock l).1 ≡ none))
            ⊎ ((w : Waiter) × ((unlock l).1 ≡ some w.ready)
                × ((unlock l).0.held ≡ l.held)
                × Permᴰ l.waiters (w ∷ (unlock l).0.waiters)
                × All (λ x. less x w ≡ false) l.waiters))
  unfolding unlock
  unlock_serves l v = elim (List-cases l.waiters) [
    | inl e ↦
        simp e (
          record { free = λ e'. refl; heap = h.empty-IsHeap; arrived = tt },
          inl (refl, refl, refl),
        )
    | inr k ↦
        let (w, t, e) = h.pop-some l.waiters v.heap k in
        let (q, d, a) = h.pop_least _ _ _ v.heap e in
        let n : (length l.waiters == 0) ≡ false = ground arith in
        simp (n, e)
          (
            record {
              free = λ f. absurd (handed_held l v k f);
              heap = q;
              arrived = (All-Permᴰ _ d v.arrived).1;
            },
            inr (w, refl, refl, d, a),
          )
  ]

  acquire-Permᴰ :
      (l : WriteLock) (p : Priority)
      → l.held ≡ true
      → p.incremental ≡ true
      → Permᴰ (acquire p l).0.waiters (waiter p (add64 l.arrivals 1) l.made ∷ l.waiters)
  unfolding acquire
  acquire-Permᴰ l p k i = simp (k, i) (h.push-Permᴰ _ _)

  -- An incremental writer that finds a consistent lock held, before 2^64 incremental ones have
  -- waited, is added to the waiters, behind every incremental writer of its urgency that waits
  -- already.
  pub acquire_turns :
      (l : WriteLock) (p : Priority) (before after : List Waiter) (w : Waiter)
      → IsLock l
      → l.held ≡ true
      → l.arrivals + 1 < 2 ^ 64
      → l.waiters ≡ before ++ w ∷ after
      → p.incremental ≡ true
      → w.priority.urgency ≡ p.urgency
      → w.priority.incremental ≡ true
      → (n : Waiter) × (n.priority ≡ p)
        × Permᴰ (acquire p l).0.waiters (n ∷ l.waiters)
        × (less w n ≡ true)
        × (less n w ≡ false)
  acquire_turns l p before after w v k b e i u j =
      let a = All-middle (HasArrived l) w before after (subst (All (HasArrived l)) e v.arrived) in
      let q = waiter-priority p (add64 l.arrivals 1) l.made in
      let (x, y) =
        less_arrival w (waiter p (add64 l.arrivals 1) l.made)
          (u ∙ ap (λ (x : Priority). x.urgency) (sym q)) j
          (ap (λ (x : Priority). x.incremental) q ∙ i) (arrival_later l p w b i (a.1 j)) in
      (waiter p (add64 l.arrivals 1) l.made, q, acquire-Permᴰ l p k i, x, y)
