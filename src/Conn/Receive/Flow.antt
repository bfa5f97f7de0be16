-- ===== src/Conn/Receive/Flow.antt =====
-- Connection-level flow control of the receiving side: the accounting of `receivedLocked` and
-- `consumeLocked`, with uint64 wrap-around. `buffered` is what the streams hold unread.
use qmux_go.Base.{Bool-cases, arith, inl, inr, ltb, true, ℕ, ◌+◌, ◌/◌, ◌<◌, ◌^◌, ◌≡◌, ◌≤◌, ◌⊎◌}
use qmux_go.Conn.Receive.{consume_locked, received_locked}
use qmux_go.Conn.State.{Conn}
use qmux_go.Wire.Error.{connection_flow_control, err, flow_control_error, ok}

abbrev pub connection_window : Conn → ℕ
connection_window c = c.config.initial_connection_receive_window

-- What was received and not consumed is in the buffers; the peer has kept to the limit, and the
-- limit is at most a window ahead of what was consumed.
pub record IsFlow (c : Conn) (buffered : ℕ) : Type 0 where
  pub balance : c.consumed + buffered ≡ c.received
  pub within : c.received ≤ c.recv_max
  pub ahead : c.recv_max ≤ c.consumed + connection_window c
  pub window_small : connection_window c < 2 ^ 62

-- The bounds that keep the counters from wrapping: before a frame, and inside its handler.
abbrev pub InRange : Conn → Type 0
InRange c = c.received < 2 ^ 63

abbrev pub InWideRange : Conn → Type 0
InWideRange c = c.received < 2 ^ 63 + 2 ^ 62

pub consume_locked-IsFlow :
    (c : Conn) (n buffered : ℕ)
    → InWideRange c
    → IsFlow c (n + buffered)
    → IsFlow (consume_locked c n) buffered
unfolding consume_locked
consume_locked-IsFlow c n buffered r v = ground arith

pub received_locked-IsFlow :
    (c c' : Conn) (n buffered : ℕ)
    → InRange c
    → n < 2 ^ 62
    → IsFlow c buffered
    → received_locked c n ≡ ok c'
    → IsFlow c' (n + buffered) × InWideRange c'
unfolding received_locked
received_locked-IsFlow c c' n buffered r h v e = ground arith

-- For a connection in range with consistent flow control, data of a size below 2^62 is accepted
-- and counted exactly when it keeps to the connection's limit, and is a flow control error
-- otherwise.
pub received_locked_exact :
    (c : Conn) (n buffered : ℕ)
    → InRange c
    → n < 2 ^ 62
    → IsFlow c buffered
    → ((c.received + n ≤ c.recv_max)
        × (received_locked c n ≡ ok (record c { received = c.received + n })))
      ⊎ ((c.recv_max < c.received + n)
          × (received_locked c n
              ≡ err (record { code = flow_control_error; reason = connection_flow_control })))
unfolding received_locked
received_locked_exact c n buffered r h v = elim (Bool-cases (ltb c.recv_max (c.received + n))) [
  | inl e ↦ inr (ground arith, ground arith)
  | inr e ↦ inl (ground arith, ground arith)
]

-- What `consumeLocked` does with the limit and the flags that tell the peer.
consumed_told :
    (c : Conn) (n : ℕ)
    → let c' = consume_locked c n in
      (c'.recv_max ≡ c.recv_max) ⊎ ((c'.max_data_pending ≡ true) × (c'.control_wake ≡ true))
unfolding consume_locked
consumed_told c n = ground arith

accepted_after :
    (c : Conn) (n buffered m : ℕ)
    → InWideRange c
    → IsFlow c (n + buffered)
    → m + buffered ≤ connection_window c / 2
    → let c' = consume_locked c n in
      received_locked c' m ≡ ok (record c' { received = c.received + m })
unfolding consume_locked received_locked
accepted_after c n buffered m r v h = ground arith

-- For a connection in range with consistent flow control that consumes some of its buffered data,
-- more data is accepted and counted as long as it and what is still buffered are at most half of
-- the window; and the limit is as it was, or the flag for a MAX_DATA frame is set and the writer
-- woken.
pub consume_locked_room :
    (c : Conn) (n buffered m : ℕ)
    → InWideRange c
    → IsFlow c (n + buffered)
    → m + buffered ≤ connection_window c / 2
    → let c' = consume_locked c n in
      (received_locked c' m ≡ ok (record c' { received = c.received + m }))
      × ((c'.recv_max ≡ c.recv_max) ⊎ ((c'.max_data_pending ≡ true) × (c'.control_wake ≡ true)))
consume_locked_room c n buffered m r v h = (accepted_after c n buffered m r v h, consumed_told c n)
