-- ===== src/Conn/Run/Waiting.antt =====
-- What the loop of `open` of qmux/conn.go waits for: the channel that `tryOpen` returns, and the
-- changes that close it.
use qmux_go.Base.{
  Bool-cases, Option, ap, arith, inl, inr, is_some, ltb, none, some, subst, sym, ℕ, ◌+◌, ◌<◌, ◌≡◌,
  ◌≤◌, ◌⊎◌,
}
use qmux_go.Conn.Close.{terminate}
use qmux_go.Conn.Failure.{Failure}
use qmux_go.Conn.Handle.{handle_max_streams, handle_parameters, raise_outgoing}
use qmux_go.Conn.Handle.Open.{SameOut, lasting}
use qmux_go.Conn.Ids.{Dir, one_way, two_way}
use qmux_go.Conn.Signal.{IsClosed, broadcast, wait}
use qmux_go.Conn.State.{Both, Conn, Outgoing, at, put_at}
use qmux_go.Conn.Streams.{new_stream, try_open}
use qmux_go.Wire.Params.{Parameters}

-- The channel is closed, or nothing has changed: `tryOpen` would return it again.
abbrev pub IsWaitingOn : ℕ → Outgoing → Option Failure → Type 0
IsWaitingOn k o e =
    IsClosed k o.signal
    ⊎ ((o.signal.ch ≡ some k) × (k < o.signal.made) × (o.max ≤ o.next) × (e ≡ none))

abbrev pub IsWaiting : Dir → ℕ → Conn → Type 0
IsWaiting dir k c = IsWaitingOn k (at dir c.outgoing) c.close_err

-- A broadcast closes the channel.
broadcast-IsClosed :
    (k : ℕ) (o : Outgoing) (e : Option Failure)
    → IsWaitingOn k o e
    → IsClosed k (broadcast o.signal)
unfolding broadcast
broadcast-IsClosed k o e h = elim h [
  | inl (a, n) ↦ ground (arith, a, n)
  | inr (d, a, l, n) ↦ ground (arith, a, d)
]

-- Another caller waits.
wait-IsWaitingOn :
    (k : ℕ) (o : Outgoing) (e : Option Failure)
    → IsWaitingOn k o e
    → IsWaitingOn k (record o { signal = (wait o.signal).1 }) e
unfolding wait
wait-IsWaitingOn k o e h = elim h [
  | inl (a, n) ↦ inl (ground (arith, a, n))
  | inr (d, a, l, n) ↦ inr (ground (arith, d, a, l, n))
]

pub SameOut-IsWaiting :
    (dir : Dir) (k : ℕ) (c d : Conn) → SameOut c d → IsWaiting dir k c → IsWaiting dir k d
SameOut-IsWaiting dir k c d e v = rw (ap (λ z. z.0) e, ap (λ z. z.1) e) v

-- The limit grows, in this direction or the other.
pub raised-IsWaiting :
    (dir dir' : Dir) (k m : ℕ) (c : Conn)
    → IsWaiting dir k c
    → IsWaiting dir k (handle_max_streams c dir' m)
unfolding handle_max_streams raise_outgoing
raised-IsWaiting dir dir' k m c v = elim (Bool-cases (ltb (at dir' c.outgoing).max m)) [
  | inr h ↦ simp h v
  | inl h ↦ simp h (raised-IsWaitingOn dir dir' v)
]
  where
    raised-IsWaitingOn :
        (dir dir' : Dir)
        → IsWaiting dir k c
        → IsWaitingOn k
            (at dir (
              put_at dir'
                (record (at dir' c.outgoing) {
                  max = m;
                  signal = broadcast (at dir' c.outgoing).signal;
                })
                c.outgoing))
            c.close_err
    raised-IsWaitingOn two_way two_way v = inl (broadcast-IsClosed k _ _ v)
    raised-IsWaitingOn one_way one_way v = inl (broadcast-IsClosed k _ _ v)
    raised-IsWaitingOn two_way one_way v = v
    raised-IsWaitingOn one_way two_way v = v

pub parameters-IsWaiting :
    (dir : Dir) (k : ℕ) (c : Conn) (p : Parameters)
    → IsWaiting dir k c
    → IsWaiting dir k (handle_parameters c p)
unfolding handle_parameters raise_outgoing
parameters-IsWaiting two_way k c p v = inl (broadcast-IsClosed k _ _ v)
parameters-IsWaiting one_way k c p v = inl (broadcast-IsClosed k _ _ v)

pub terminate-IsWaiting :
    (dir : Dir) (k : ℕ) (c : Conn) (x : Failure)
    → IsWaiting dir k c
    → IsWaiting dir k (terminate c x).0
unfolding terminate
terminate-IsWaiting two_way k c x v = elim (Bool-cases (is_some c.close_err)) [
  | inl h ↦ rw (h, terminate) v
  | inr h ↦ rw (h, terminate) (inl (broadcast-IsClosed k _ _ v))
]
terminate-IsWaiting one_way k c x v = elim (Bool-cases (is_some c.close_err)) [
  | inl h ↦ rw (h, terminate) v
  | inr h ↦ rw (h, terminate) (inl (broadcast-IsClosed k _ _ v))
]

-- What `tryOpen` changes: nothing, the signal that it waits on, or the next index.
try_open_out :
    (c : Conn) (dir : Dir)
    → let o = at dir c.outgoing in
      (SameOut c (try_open c dir).0)
      ⊎ ((lasting (try_open c dir).0
            ≡ (c.close_err, put_at dir (record o { signal = (wait o.signal).1 }) c.outgoing))
          ⊎ ((o.next < o.max)
              × (lasting (try_open c dir).0
                  ≡ (c.close_err, put_at dir (record o { next = o.next + 1 }) c.outgoing))))
unfolding try_open new_stream
try_open_out c dir = ground arith

waited-IsWaitingOn :
    (dir dir' : Dir) (k : ℕ) (c : Conn)
    → IsWaiting dir k c
    → let o = at dir' c.outgoing in
      IsWaitingOn k
        (at dir (put_at dir' (record o { signal = (wait o.signal).1 }) c.outgoing))
        c.close_err
waited-IsWaitingOn two_way two_way k c v = wait-IsWaitingOn k _ _ v
waited-IsWaitingOn one_way one_way k c v = wait-IsWaitingOn k _ _ v
waited-IsWaitingOn two_way one_way k c v = v
waited-IsWaitingOn one_way two_way k c v = v

-- Nobody waits for a stream that can be opened.
next-IsWaitingOn :
    (k : ℕ) (o : Outgoing) (e : Option Failure)
    → o.next < o.max
    → IsWaitingOn k o e
    → IsWaitingOn k (record o { next = o.next + 1 }) e
next-IsWaitingOn k o e h v = elim v [
  | inl x ↦ inl x
  | inr (d, a, l, n) ↦ absurd (omega (arith, h, l))
]

opened-IsWaitingOn :
    (dir dir' : Dir) (k : ℕ) (c : Conn)
    → (at dir' c.outgoing).next < (at dir' c.outgoing).max
    → IsWaiting dir k c
    → let o = at dir' c.outgoing in
      IsWaitingOn k (at dir (put_at dir' (record o { next = o.next + 1 }) c.outgoing)) c.close_err
opened-IsWaitingOn two_way two_way k c h v = next-IsWaitingOn k _ _ h v
opened-IsWaitingOn one_way one_way k c h v = next-IsWaitingOn k _ _ h v
opened-IsWaitingOn two_way one_way k c h v = v
opened-IsWaitingOn one_way two_way k c h v = v

abbrev IsWaitingIn : Dir → ℕ → Option Failure × Both Outgoing → Type 0
IsWaitingIn dir k p = IsWaitingOn k (at dir p.1) p.0

pub try_open-IsWaiting :
    (dir dir' : Dir) (k : ℕ) (c : Conn) → IsWaiting dir k c → IsWaiting dir k (try_open c dir').0
try_open-IsWaiting dir dir' k c v = elim (try_open_out c dir') [
  | inl e ↦ SameOut-IsWaiting dir k c (try_open c dir').0 e v
  | inr (inl e) ↦ subst (IsWaitingIn dir k) (sym e) (waited-IsWaitingOn dir dir' k c v)
  | inr (inr (h, e)) ↦ subst (IsWaitingIn dir k) (sym e) (opened-IsWaitingOn dir dir' k c h v)
]
