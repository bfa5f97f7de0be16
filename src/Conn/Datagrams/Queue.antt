-- ===== src/Conn/Datagrams/Queue.antt =====
-- `ReceiveDatagram` of qmux/conn.go and the queue of datagrams.
use qmux_go.Base.{
  Bool, List, Option, [], ap, append-nil, append_assoc, arith, false, length, none, refl, some, sym,
  true, ℕ, ◌++◌, ◌+◌, ◌<◌, ◌∙◌, ◌∷◌, ◌≡◌, ◌≤◌,
}
use qmux_go.Conn.Failure.{Failure}
use qmux_go.Conn.Handle.{handle_datagram}
use qmux_go.Conn.State.{Conn, datagram_queue_size}
use qmux_go.Wire.Frame.{Datagram}

-- What `ReceiveDatagram` returns, unless the caller's context ends: a datagram, the cause that the
-- connection ended with, or nothing yet.
pub data Received : Type 0 where
  got_datagram : List ℕ → Received
  receive_failed : Failure → Received
  nothing_yet : Received

-- When both a datagram and the end of the connection are there, `select` takes either.
unfoldable pub receive_from : List (List ℕ) → Option Failure → Bool → Conn → Conn × Received
receive_from [] none queue_first c = (c, nothing_yet)
receive_from [] (some e) queue_first c = (c, receive_failed e)
receive_from (p ∷ ps) none queue_first c = (record c { datagrams = ps }, got_datagram p)
receive_from (p ∷ ps) (some e) true c = (record c { datagrams = ps }, got_datagram p)
receive_from (p ∷ ps) (some e) false c = (c, receive_failed e)

unfoldable pub receive_datagram : Bool → Conn → Conn × Received
receive_datagram queue_first c = receive_from c.datagrams c.cause queue_first c

-- What happens to the queue: a DATAGRAM frame of the peer, or a call.
pub data QueueEvent : Type 0 where
  datagram_in : Datagram → QueueEvent
  datagram_out : Bool → QueueEvent

abbrev pub got_of : Received → List (List ℕ)
got_of (got_datagram p) = p ∷ []
got_of _ = []

-- The connection and what the calls return, in order.
unfoldable pub queue_run : Conn → List QueueEvent → Conn × List (List ℕ)
queue_run c [] = (c, [])
queue_run c (datagram_in f ∷ events) = queue_run (handle_datagram c f).0 events
queue_run c (datagram_out first ∷ events) =
    let (c', r) = receive_datagram first c in
    let (d, results) = queue_run c' events in (d, got_of r ++ results)

-- The payloads that arrive.
abbrev pub arrivals : List QueueEvent → List (List ℕ)
arrivals [] = []
arrivals (datagram_in f ∷ events) = f.payload ∷ arrivals events
arrivals (datagram_out first ∷ events) = arrivals events

-- The application keeps up: no datagram finds the queue full, or is larger than the peer may send.
abbrev pub IsKeepingUp : Conn → List QueueEvent → Type 0
IsKeepingUp c [] = Unit {0}
IsKeepingUp c (datagram_in f ∷ events) =
    (length c.datagrams < datagram_queue_size)
    × (1 + length f.payload ≤ c.config.max_datagram_frame_size)
    × IsKeepingUp (handle_datagram c f).0 events
IsKeepingUp c (datagram_out first ∷ events) = IsKeepingUp (receive_datagram first c).0 events

-- A datagram is queued.
handle_datagram_queued :
    (c : Conn) (f : Datagram)
    → length c.datagrams < datagram_queue_size
    → 1 + length f.payload ≤ c.config.max_datagram_frame_size
    → (handle_datagram c f).0.datagrams ≡ c.datagrams ++ f.payload ∷ []
unfolding handle_datagram
handle_datagram_queued c f h k = ground (arith, h, k)

-- A call takes the first datagram or none.
receive_from_cases :
    (ps : List (List ℕ)) (o : Option Failure) (queue_first : Bool) (c : Conn)
    → c.datagrams ≡ ps
    → ps
      ≡ got_of (receive_from ps o queue_first c).1 ++ (receive_from ps o queue_first c).0.datagrams
unfolding receive_from
receive_from_cases [] none queue_first c e = sym e
receive_from_cases [] (some x) queue_first c e = sym e
receive_from_cases (p ∷ ps) none queue_first c e = refl
receive_from_cases (p ∷ ps) (some x) true c e = refl
receive_from_cases (p ∷ ps) (some x) false c e = sym e

receive_datagram_cases :
    (queue_first : Bool) (c : Conn)
    → c.datagrams
      ≡ got_of (receive_datagram queue_first c).1 ++ (receive_datagram queue_first c).0.datagrams
unfolding receive_datagram
receive_datagram_cases queue_first c = receive_from_cases c.datagrams c.cause queue_first c refl

-- Whatever order DATAGRAM frames and calls of `ReceiveDatagram` come in, if no datagram finds the
-- queue full or is larger than the peer may send, then the calls and the queue have all of the
-- datagrams, in the order in which they arrived.
pub queue_run_in_order :
    (c : Conn) (events : List QueueEvent)
    → IsKeepingUp c events
    → c.datagrams ++ arrivals events ≡ (queue_run c events).1 ++ (queue_run c events).0.datagrams
unfolding queue_run
queue_run_in_order c [] v = append-nil c.datagrams
queue_run_in_order c (datagram_in f ∷ events) (h, k, v) =
    sym (append_assoc c.datagrams (f.payload ∷ []) (arrivals events))
    ∙ ap (λ z. z ++ arrivals events) (sym (handle_datagram_queued c f h k))
    ∙ queue_run_in_order (handle_datagram c f).0 events v
queue_run_in_order c (datagram_out first ∷ events) v =
    let r = receive_datagram first c in
    ap (λ z. z ++ arrivals events) (receive_datagram_cases first c)
    ∙ append_assoc (got_of r.1) r.0.datagrams (arrivals events)
    ∙ ap (λ z. got_of r.1 ++ z) (queue_run_in_order r.0 events v)
    ∙ sym (append_assoc (got_of r.1) _ _)
