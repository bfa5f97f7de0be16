-- ===== src/Conn/Signal.antt =====
-- `signal` of qmux/conn.go: a channel that the next broadcast closes. Channels are numbered in the
-- order in which the signal makes them.
use qmux_go.Base.{Option, Option-cases, arith, inl, inr, none, some, ℕ, ◌+◌, ◌<◌, ◌≡◌, ◌≢◌}

pub record Signal : Type 0 where
  -- The channel that waits for the next broadcast; `none` is nil.
  pub ch : Option ℕ
  -- How many channels were made.
  pub made : ℕ

abbrev pub no_signal : Signal
no_signal = record { ch = none; made = 0 }

-- The channel to wait on, and the signal.
unfoldable pub wait : Signal → ℕ × Signal
wait s = elim s.ch [
  | some k ↦ (k, s)
  | none ↦ (s.made, record { ch = some s.made; made = s.made + 1 })
]

unfoldable pub broadcast : Signal → Signal
broadcast s = elim s.ch [ some k ↦ record s { ch = none } | none ↦ s ]

-- A channel is closed once it was made and no longer waits for a broadcast.
abbrev pub IsClosed : ℕ → Signal → Type 0
IsClosed k s = (k < s.made) × (s.ch ≢ some k)

-- The channel that waits is the last one made.
abbrev pub IsSignal : Signal → Type 0
IsSignal s = (k : ℕ) → s.ch ≡ some k → s.made ≡ k + 1

pub wait-IsSignal : (s : Signal) → IsSignal s → IsSignal (wait s).1
unfolding wait
wait-IsSignal s h k e = ground (arith, h k)

-- For a signal whose waiting channel is the last one made, the channel that a waiter gets is
-- open, and the next broadcast closes it.
pub wait-broadcast :
    (s : Signal)
    → IsSignal s
    → (¬ IsClosed (wait s).0 (wait s).1) × IsClosed (wait s).0 (broadcast (wait s).1)
unfolding wait broadcast
wait-broadcast s h = elim (Option-cases s.ch) [
  | inl e ↦ ground arith
  | inr (k, e) ↦ ground (arith, h k e)
]

pub broadcast-IsSignal : (s : Signal) → IsSignal s → IsSignal (broadcast s)
unfolding broadcast
broadcast-IsSignal s h k e = ground (arith, h k)
