-- ===== src/Endpoint/Agreement.antt =====
-- What two endpoints agree on in the handshake: `handleParametersLocked` and `localParameters` of
-- qmux/conn.go at both of them.
use qmux_go.Base.{
  Bool, List, Option, ap, arith, false, sym, true, ℕ, ◌%◌, ◌*◌, ◌/◌, ◌<◌, ◌^◌, ◌∙◌, ◌≡◌,
}
use qmux_go.Config.{Config, div_ℤ, local_parameters, millisecond, normalized, pos, to_u64}
use qmux_go.Config.Bounds.{IsPassed}
use qmux_go.Conn.Handle.{handle_parameters, joined_idle_timeout}
use qmux_go.Conn.Receive.{Growth}
use qmux_go.Conn.State.{new_conn}
use qmux_go.Endpoint.{Link, parameters_record}
use qmux_go.Endpoint.Delivery.{handshake_conn}
use qmux_go.Endpoint.Loops.{dial, record_in, serve}
use qmux_go.Tests.{server}
use qmux_go.Varint.{Varint}
use qmux_go.Wire.Error.{Reason}
use qmux_go.Wire.RoundTrip.Valid.{filled}

joined_agree :
    (a b : ℕ)
    → a * millisecond < 2 ^ 63
    → b * millisecond < 2 ^ 63
    → joined_idle_timeout (a * millisecond) b ≡ joined_idle_timeout (b * millisecond) a
unfolding joined_idle_timeout
joined_agree a b h k = ground (arith, h, k)

handled_idle_timeout :
    (ours theirs : Config) (is_server : Bool) (a b : ℕ)
    → ours.max_idle_timeout ≡ pos (a * millisecond)
    → theirs.max_idle_timeout ≡ pos (b * millisecond)
    → a * millisecond < 2 ^ 63
    → b * millisecond < 2 ^ 63
    → (handle_parameters (new_conn ours is_server) (filled (local_parameters theirs))).idle_timeout
      ≡ joined_idle_timeout (a * millisecond) b
unfolding handle_parameters new_conn local_parameters to_u64 div_ℤ
handled_idle_timeout ours theirs is_server a b e f h k =
    let m : a * millisecond % 2 ^ 64 ≡ a * millisecond = omega (arith, h) in
    let n : b * millisecond / millisecond % 2 ^ 64 ≡ b = omega (arith, k) in
    rw (e, f)
      (ap (λ x. joined_idle_timeout x (b * millisecond / millisecond % 2 ^ 64)) m
        ∙ ap (joined_idle_timeout (a * millisecond)) n)

module _ ⦃q : Varint⦄ ⦃g : Growth⦄ ⦃l : Link⦄ (render : Reason → List ℕ) where
  -- If a client and a server are given configurations with int64 and uint64 fields or none at
  -- all, whose idle timeouts are whole milliseconds after normalization, below 2^63 nanoseconds,
  -- then once each has the other's first record, both have the same idle timeout.
  pub idle_timeouts_agree :
      (start now : ℕ) (client server : Option Config) (a b : ℕ)
      → IsPassed client
      → IsPassed server
      → (normalized client).max_idle_timeout ≡ pos (a * millisecond)
      → (normalized server).max_idle_timeout ≡ pos (b * millisecond)
      → a * millisecond < 2 ^ 63
      → b * millisecond < 2 ^ 63
      → (record_in render now
          (parameters_record (normalized server))
          (dial start client)).conn.idle_timeout
        ≡ (record_in render now
            (parameters_record (normalized client))
            (serve start server)).conn.idle_timeout
  unfolding dial serve
  idle_timeouts_agree start now client server a b u v e f h k =
      ap (λ c. c.idle_timeout) (handshake_conn render start now (normalized client) false server v)
      ∙ handled_idle_timeout (normalized client) (normalized server) false a b e f h k
      ∙ joined_agree a b h k
      ∙ sym (handled_idle_timeout (normalized server) (normalized client) true b a f e k h)
      ∙ sym (
          ap (λ c. c.idle_timeout)
            (handshake_conn render start now (normalized server) true client u))
