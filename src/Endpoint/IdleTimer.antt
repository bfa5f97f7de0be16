-- ===== src/Endpoint/IdleTimer.antt =====
-- The timer of `idleLoop` of qmux/conn.go.
use qmux_go.Base.{arith, ℕ, ◌+◌, ◌<◌, ◌↔◌, ◌≡◌, ◌≤◌}
use qmux_go.Endpoint.{Endpoint}
use qmux_go.Endpoint.Loops.{expire, idle_decision, rearm}

-- If `idleLoop` sets its timer, it is to a positive time, and the connection has expired at a
-- later time, without a record in between, exactly when that time has passed.
pub idle_decision-exact :
    (now left later : ℕ) (e : Endpoint)
    → idle_decision now e ≡ rearm left
    → (0 < left) × (idle_decision (now + later) e ≡ expire ↔ (left ≤ later))
unfolding idle_decision
idle_decision-exact now left later e h =
    (ground (arith, h), (λ k. ground (arith, h, k), λ k. ground (arith, h, k)))
