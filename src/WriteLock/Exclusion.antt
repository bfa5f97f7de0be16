-- ===== src/WriteLock/Exclusion.antt =====
-- The writers of a connection, which take the lock and release it in any order.
use qmux_go.Base.{
  Bool, Bool-cases, List, Option, [], arith, false, if-elim, if◌then◌else◌, inl, inr, length, none,
  refl, some, true, ℕ, ◌+◌, ◌-◌, ◌<◌, ◌==◌, ◌^◌, ◌∷◌, ◌≡◌, ◌≤◌, ◌⊎◌,
}
use qmux_go.WriteLock.{Heap, Priority, WriteLock, acquire, new_lock, unlock}
use qmux_go.WriteLock.Turns.{IsLock, acquire-IsLock, new_lock-IsLock, unlock_serves}

pub data Turn : Type 0 where
  -- A writer calls `LockPriority`, or one that holds the lock calls `Unlock`.
  locks : Priority → Turn
  unlocks : Turn

-- The lock, and how many writers hold it: those that did not have to wait, and those whose channel
-- was closed, less those that released it.
pub record Writers : Type 0 where
  pub lock : WriteLock
  pub holders : ℕ

abbrev pub no_writers : Writers
no_writers = record { lock = new_lock; holders = 0 }

abbrev granted : Option ℕ → ℕ
granted none = 0
granted (some ready) = 1

module _ ⦃h : Heap⦄ where
  unfoldable pub turn : Writers → Turn → Writers
  turn s (locks p) =
      let (l, ready) = acquire p s.lock in
      record { lock = l; holders = s.holders + (1 - granted ready) }
  turn s unlocks =
      if s.holders == 0
      then s
      else (let (l, ready) = unlock s.lock in
          record { lock = l; holders = s.holders - 1 + granted ready })

  unfoldable pub turns : Writers → List Turn → Writers
  turns s [] = s
  turns s (t ∷ ts) = turns (turn s t) ts

  record IsExclusive (s : Writers) : Type 0 where
    lock_valid : IsLock s.lock
    one : s.holders ≡ (if s.lock.held then 1 else 0)

  -- The number of holders that the mark stands for.
  abbrev marked : Bool → ℕ
  marked b = if b then 1 else 0

  held_one : (b : Bool) (n : ℕ) → n ≡ marked b → (n == 0) ≡ false → (b ≡ true) × (n ≡ 1)
  held_one true n e k = (refl, e)
  held_one false n e k = ground arith

  unlock-arrivals : (l : WriteLock) → (unlock l).0.arrivals ≡ l.arrivals
  unfolding unlock
  unlock-arrivals l = ground arith

  unlock_one :
      (l : WriteLock)
      → IsLock l
      → l.held ≡ true
      → granted (unlock l).1 ≡ (if (unlock l).0.held then 1 else 0)
  unlock_one l v e = elim (unlock_serves l v).1 [
    | inl (a, b, c) ↦ simp (b, c) refl
    | inr (w, b, c, d, a) ↦ simp (b, c, e) refl
  ]

  acquire_one :
      (l : WriteLock) (p : Priority)
      → (if l.held then 1 else 0) + (1 - granted (acquire p l).1)
        ≡ (if (acquire p l).0.held then 1 else 0)
  unfolding acquire
  acquire_one l p = ground arith

  turn-arrivals : (s : Writers) (t : Turn) → (turn s t).lock.arrivals ≤ s.lock.arrivals + 1
  unfolding turn acquire
  turn-arrivals s (locks p) = ground arith
  turn-arrivals s unlocks =
      if-elim (λ (x : Writers). x.lock.arrivals ≤ s.lock.arrivals + 1) (s.holders == 0) _ _
        (omega arith) (omega (arith, unlock-arrivals s.lock))

  turn-IsExclusive :
      (s : Writers) (t : Turn)
      → s.lock.arrivals + 1 < 2 ^ 64
      → IsExclusive s
      → IsExclusive (turn s t)
  unfolding turn
  turn-IsExclusive s (locks p) b v = record {
    lock_valid = acquire-IsLock s.lock p v.lock_valid b;
    one = rw v.one (acquire_one s.lock p);
  }
  turn-IsExclusive s unlocks b v = elim (Bool-cases (s.holders == 0)) [
    | inl e ↦ simp e v
    | inr e ↦
        let (k, n) = held_one s.lock.held s.holders v.one e in
        simp e (record {
          lock_valid = (unlock_serves s.lock v.lock_valid).0;
          one = omega (arith, n, unlock_one s.lock v.lock_valid k);
        })
  ]

  turns-IsExclusive :
      (s : Writers) (ts : List Turn)
      → s.lock.arrivals + length ts < 2 ^ 64
      → IsExclusive s
      → IsExclusive (turns s ts)
  unfolding turns
  turns-IsExclusive s [] b v = v
  turns-IsExclusive s (t ∷ ts) b v =
      turns-IsExclusive (turn s t) ts (omega (arith, turn-arrivals s t))
        (turn-IsExclusive s t (omega arith) v)

  held_or_free : (l : WriteLock) → IsLock l → (l.held ≡ true) ⊎ (l.waiters ≡ [])
  held_or_free l v = elim (Bool-cases l.held) [ inl e ↦ inl e | inr e ↦ inr (v.free e) ]

  -- However writers take the lock and release it, for fewer than 2^64 calls, one of them holds it
  -- exactly when the lock is marked held and none otherwise, and nobody waits for a free lock.
  pub turns_exclude :
      (ts : List Turn)
      → length ts < 2 ^ 64
      → ((turns no_writers ts).holders ≡ (if (turns no_writers ts).lock.held then 1 else 0))
        × (((turns no_writers ts).lock.held ≡ true) ⊎ ((turns no_writers ts).lock.waiters ≡ []))
  turns_exclude ts b =
      let v =
        turns-IsExclusive no_writers ts (omega arith)
          (record { lock_valid = new_lock-IsLock; one = refl }) in
      (v.one, held_or_free _ v.lock_valid)
