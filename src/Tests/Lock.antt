-- ===== src/Tests/Lock.antt =====
-- Witnesses for the write lock.
use qmux_go.Base.{All, List, [], arith, false, if◌then◌else◌, none, refl, some, true, ◌∷◌, ◌≡◌, ◌⊎◌}
use qmux_go.Config.{pos}
use qmux_go.Tests.{exact_growth, steady_link}
use qmux_go.Varint.Rfc.{rfc9000}
use qmux_go.WriteLock.{
  Priority, Waiter, WriteLock, acquire, control_priority, less, new_lock, unlock, waiter,
}
use qmux_go.WriteLock.Exclusion.{Turn, locks, no_writers, turns, turns_exclude, unlocks}
use qmux_go.WriteLock.Scan.{scanned}
use qmux_go.WriteLock.Turns.{IsLock, acquire-IsLock, acquire_turns, new_lock-IsLock, unlock_serves}
use mathlib.Core.List.{Permᴰ}

-- An incremental stream of the default urgency.
abbrev stream_priority : Priority
stream_priority = record { urgency = pos 3; incremental = true; stream_id = 4 }

-- A writer holds the lock, and a stream and a control frame wait.
abbrev busy : WriteLock
busy = (acquire control_priority (acquire stream_priority (acquire stream_priority new_lock).0).0).0

busy-IsLock : IsLock busy
unfolding acquire
busy-IsLock =
    acquire-IsLock _ control_priority
      (acquire-IsLock _ stream_priority
        (acquire-IsLock new_lock stream_priority new_lock-IsLock (omega arith)) (omega arith))
      (omega arith)

unlock_serves_example :
    IsLock (unlock busy).0
    × (((busy.waiters ≡ []) × ((unlock busy).0.held ≡ false) × ((unlock busy).1 ≡ none))
        ⊎ ((w : Waiter) × ((unlock busy).1 ≡ some w.ready)
            × ((unlock busy).0.held ≡ busy.held)
            × Permᴰ busy.waiters (w ∷ (unlock busy).0.waiters)
            × All (λ x. less x w ≡ false) busy.waiters))
unlock_serves_example = unlock_serves busy busy-IsLock

-- The waiter of the stream.
abbrev first_waiter : Waiter
first_waiter = waiter stream_priority 1 0

acquire_turns_example :
    (n : Waiter) × (n.priority ≡ stream_priority)
    × Permᴰ (acquire stream_priority busy).0.waiters (n ∷ busy.waiters)
    × (less first_waiter n ≡ true)
    × (less n first_waiter ≡ false)
unfolding acquire waiter
acquire_turns_example =
    acquire_turns busy stream_priority (waiter control_priority 2 1 ∷ []) [] first_waiter
      busy-IsLock refl (omega arith) refl refl refl refl

abbrev turns_taken : List Turn
turns_taken = locks stream_priority ∷ locks control_priority ∷ unlocks ∷ unlocks ∷ unlocks ∷ []

turns_exclude_example :
    ((turns no_writers turns_taken).holders
      ≡ (if (turns no_writers turns_taken).lock.held then 1 else 0))
    × (((turns no_writers turns_taken).lock.held ≡ true)
        ⊎ ((turns no_writers turns_taken).lock.waiters ≡ []))
turns_exclude_example = turns_exclude turns_taken (omega arith)
