-- ===== src/WriteLock.antt =====
-- The mutex of qmux/write_lock.go, which hands itself to its waiters by priority. The package
-- container/heap, which keeps the waiters, is the interface `Heap`.
use qmux_go.Base.{
  All, Bool, List, Option, [], add64, false, if◌then◌else◌, length, ltb, none, not, some, true, ℕ,
  ◌+◌, ◌<◌, ◌==◌, ◌∷◌, ◌≡◌,
}
use qmux_go.Config.{negsuc, pos, ℤ}
use qmux_go.Conn.Ids.{same}
use mathlib.Core.List.{Permᴰ}
pub mod Turns
pub mod Exclusion
pub mod Scan

pub record Priority : Type 0 where
  pub urgency : ℤ
  pub incremental : Bool
  pub stream_id : ℕ

-- A fresh channel is a number.
pub record Waiter : Type 0 where
  pub priority : Priority
  pub order : ℕ
  pub ready : ℕ

abbrev pub urgency_control : ℤ
urgency_control = negsuc 0

-- `<` and `==` on the urgencies.
unfoldable pub lt_ℤ : ℤ → ℤ → Bool
lt_ℤ (pos a) (pos b) = ltb a b
lt_ℤ (pos a) (negsuc b) = false
lt_ℤ (negsuc a) (pos b) = true
lt_ℤ (negsuc a) (negsuc b) = ltb b a

unfoldable pub eq_ℤ : ℤ → ℤ → Bool
eq_ℤ (pos a) (pos b) = a == b
eq_ℤ (pos a) (negsuc b) = false
eq_ℤ (negsuc a) (pos b) = false
eq_ℤ (negsuc a) (negsuc b) = a == b

-- `Less`, of two waiters.
unfoldable pub less : Waiter → Waiter → Bool
less a b =
    if not (eq_ℤ a.priority.urgency b.priority.urgency)
    then lt_ℤ a.priority.urgency b.priority.urgency
    else if not (same a.priority.incremental b.priority.incremental)
    then not a.priority.incremental
    else ltb a.order b.order

-- `heap.Push` and `heap.Pop` on a slice of waiters that is a heap for `less`: Push adds an element
-- and keeps the heap, Pop takes out one that no element of the heap is less than.
pub record Heap : Type 1 where
  pub IsHeap : List Waiter → Type 0
  pub push : Waiter → List Waiter → List Waiter
  pub pop : List Waiter → Option (Waiter × List Waiter)
  pub empty-IsHeap : IsHeap []
  pub push-IsHeap : (w : Waiter) (h : List Waiter) → IsHeap h → IsHeap (push w h)
  pub push-Permᴰ : (w : Waiter) (h : List Waiter) → Permᴰ (push w h) (w ∷ h)
  pub pop-some :
      (h : List Waiter)
      → IsHeap h
      → 0 < length h
      → (w : Waiter) × (t : List Waiter) × (pop h ≡ some (w, t))
  pub pop_least :
      (h t : List Waiter) (w : Waiter)
      → IsHeap h
      → pop h ≡ some (w, t)
      → IsHeap t × Permᴰ h (w ∷ t) × All (λ x. less x w ≡ false) h

-- The channels made so far are numbered below `made`.
pub record WriteLock : Type 0 where
  pub held : Bool
  pub arrivals : ℕ
  pub waiters : List Waiter
  pub made : ℕ

abbrev pub new_lock : WriteLock
new_lock = record { held = false; arrivals = 0; waiters = []; made = 0 }

-- The waiter that `acquire` makes for `p`, with the number of the arrival.
unfoldable pub waiter : Priority → ℕ → ℕ → Waiter
waiter p arrival ready = record {
  priority = p;
  order = if p.incremental then arrival else p.stream_id;
  ready = ready;
}

module _ ⦃h : Heap⦄ where
  -- The lock, and the channel to wait on if it is not free.
  unfoldable pub acquire : Priority → WriteLock → WriteLock × Option ℕ
  acquire p l =
      if not l.held
      then (record l { held = true }, none)
      else (let arrivals = if p.incremental then add64 l.arrivals 1 else l.arrivals in
          (
            record l {
              arrivals = arrivals;
              waiters = h.push (waiter p arrivals l.made) l.waiters;
              made = l.made + 1;
            },
            some l.made,
          ))

  -- The lock, and the channel that is closed, if a waiter gets it.
  unfoldable pub unlock : WriteLock → WriteLock × Option ℕ
  unlock l =
      if length l.waiters == 0 then (record l { held = false }, none) else elim (h.pop l.waiters) [
        | some (w, t) ↦ (record l { waiters = t }, some w.ready)
        | none ↦ (l, none)
      ]

-- The priority of `Lock`, which the writers of control frames call.
abbrev pub control_priority : Priority
control_priority = record { urgency = urgency_control; incremental = true; stream_id = 0 }
