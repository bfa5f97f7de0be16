-- ===== src/Conn/Run/Wakeups.antt =====
-- The loop of `open` of qmux/conn.go misses no change, whatever happens on the connection while it
-- waits.
use qmux_go.Base.{Bool-cases, List, Option-cases, [], arith, inl, inr, refl, ℕ, ◌∷◌, ◌≡◌, ◌⊎◌}
use qmux_go.Conn.Handle.{handle_first, handle_frame, handle_ready, max_streams_dir}
use qmux_go.Conn.Handle.Open.{handle_ready_quiet}
use qmux_go.Conn.Ids.{Dir, one_way, two_way}
use qmux_go.Conn.Receive.{Growth}
use qmux_go.Conn.Run.{Step, arrives, ends, opens, run, step}
use qmux_go.Conn.Run.Open.{step_quiet}
use qmux_go.Conn.Run.Waiting.{
  IsWaiting, SameOut-IsWaiting, parameters-IsWaiting, raised-IsWaiting, terminate-IsWaiting,
  try_open-IsWaiting,
}
use qmux_go.Conn.Signal.{IsClosed, IsSignal, wait}
use qmux_go.Conn.State.{Conn, at}
use qmux_go.Conn.Streams.{try_open, wait_on}
use qmux_go.Wire.Frame.{Frame, Parsed, blocked, frame, max_streams, transport_parameters}

ready-IsWaiting :
    ⦃g : Growth⦄ (dir : Dir) (k now : ℕ) (c : Conn) (f : Frame)
    → IsWaiting dir k c
    → IsWaiting dir k (handle_ready now c f).0
ready-IsWaiting dir k now c (max_streams f) v =
    unfold handle_ready in raised-IsWaiting dir (max_streams_dir f.uni) k f.maximum c v
ready-IsWaiting dir k now c (transport_parameters p) v = unfold handle_ready in v
ready-IsWaiting dir k now c f v =
    SameOut-IsWaiting dir k c (handle_ready now c f).0 (handle_ready_quiet now c f refl) v

first-IsWaiting :
    ⦃g : Growth⦄ (dir : Dir) (k : ℕ) (c : Conn) (f : Parsed)
    → IsWaiting dir k c
    → IsWaiting dir k (handle_first c f).0
unfolding handle_first
first-IsWaiting dir k c (frame (transport_parameters p)) v = parameters-IsWaiting dir k c p v
first-IsWaiting dir k c _ v = v

handle_frame-IsWaiting :
    ⦃g : Growth⦄ (dir : Dir) (k now : ℕ) (c : Conn) (f : Parsed)
    → IsWaiting dir k c
    → IsWaiting dir k (handle_frame now c f).0
unfolding handle_frame
handle_frame-IsWaiting dir k now c (frame f) v = elim (Bool-cases c.ready) [
  | inl h ↦ simp h (ready-IsWaiting dir k now c f v)
  | inr h ↦ simp h (first-IsWaiting dir k c (frame f) v)
]
handle_frame-IsWaiting dir k now c blocked v = elim (Bool-cases c.ready) [
  | inl h ↦ simp h v
  | inr h ↦ simp h (first-IsWaiting dir k c blocked v)
]

step-IsWaiting :
    ⦃g : Growth⦄ (dir : Dir) (k : ℕ) (c : Conn) (t : Step)
    → IsWaiting dir k c
    → IsWaiting dir k (step c t)
step-IsWaiting dir k c (arrives now f) v = unfold step in handle_frame-IsWaiting dir k now c f v
step-IsWaiting dir k c (opens dir') v = unfold step in try_open-IsWaiting dir dir' k c v
step-IsWaiting dir k c (ends x) v = unfold step in terminate-IsWaiting dir k c x v
step-IsWaiting dir k c t v = SameOut-IsWaiting dir k c (step c t) (step_quiet c t refl) v

run-IsWaiting :
    ⦃g : Growth⦄ (dir : Dir) (k : ℕ) (c : Conn) (ts : List Step)
    → IsWaiting dir k c
    → IsWaiting dir k (run c ts)
unfolding run
run-IsWaiting dir k c [] v = v
run-IsWaiting dir k c (t ∷ ts) v = run-IsWaiting dir k (step c t) ts (step-IsWaiting dir k c t v)

-- What a caller waits on.
try_open_waits :
    (c c' : Conn) (dir : Dir) (k : ℕ)
    → IsSignal (at dir c.outgoing).signal
    → try_open c dir ≡ (c', wait_on k)
    → IsWaiting dir k c'
unfolding try_open wait
try_open_waits c c' two_way k i e = elim (Option-cases (at two_way c.outgoing).signal.ch) [
  | inl n ↦ inr (ground (arith, e, n))
  | inr (j, n) ↦ let m = i j n in inr (ground (arith, e, n, m))
]
try_open_waits c c' one_way k i e = elim (Option-cases (at one_way c.outgoing).signal.ch) [
  | inl n ↦ inr (ground (arith, e, n))
  | inr (j, n) ↦ let m = i j n in inr (ground (arith, e, n, m))
]

IsWaiting-try_open :
    (c : Conn) (dir : Dir) (k : ℕ)
    → IsWaiting dir k c
    → IsClosed k (at dir c.outgoing).signal ⊎ ((try_open c dir).1 ≡ wait_on k)
unfolding try_open wait
IsWaiting-try_open c dir k v = elim v [
  | inl x ↦ inl x
  | inr (d, a, l, n) ↦ inr (ground (arith, d, l, n))
]

-- For a signal whose waiting channel is the last one made, if `tryOpen` gives a channel to wait
-- on, then after any frames of the peer, any calls and whether or not the connection has ended,
-- the channel is closed, or `tryOpen` would still open no stream and give the same channel.
pub open_misses_nothing :
    ⦃g : Growth⦄ (c c' : Conn) (dir : Dir) (k : ℕ) (ts : List Step)
    → IsSignal (at dir c.outgoing).signal
    → try_open c dir ≡ (c', wait_on k)
    → IsClosed k (at dir (run c' ts).outgoing).signal ⊎ ((try_open (run c' ts) dir).1 ≡ wait_on k)
open_misses_nothing c c' dir k ts i e =
    IsWaiting-try_open (run c' ts) dir k (run-IsWaiting dir k c' ts (try_open_waits c c' dir k i e))
