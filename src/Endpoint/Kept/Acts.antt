-- ===== src/Endpoint/Kept/Acts.antt =====
-- The goroutines and the calls keep what each way to take the write lock, to write and to close keeps.
use qmux_go.Base.{
  Bool, Bool-cases, List, [], arith, inl, inr, is_some, none, refl, some, subst, sym, true, ℕ, ◌∷◌,
  ◌≡◌,
}
use qmux_go.Conn.Control.{request_ping}
use qmux_go.Conn.Failure.{Failure, handshake_timed_out, idle_timed_out, transport_closed}
use qmux_go.Conn.Handle.{handle_record}
use qmux_go.Conn.Handle.Open.{SameOut-SameEnd, handle_record_same}
use qmux_go.Conn.Handle.Total.{handle_record-total}
use qmux_go.Conn.Receive.{Growth, Outcome, closed, fine, violation}
use qmux_go.Conn.Run.{Step, step}
use qmux_go.Conn.Run.Open.{request_ping_same}
use qmux_go.Conn.State.{Conn}
use qmux_go.Endpoint.{Endpoint, Link, abort, close_gracefully, close_link, shut_down}
use qmux_go.Endpoint.Acts.{
  Act, act, acts, advances, calls, checks_idle, closes_with, ends_stream, flushes, forces_close,
  gives_up, hears, is_call, keeps_alive, misses_handshake, says_farewell, sends_datagram,
  writes_chunk,
}
use qmux_go.Endpoint.Closed.{call_same, terminate-IsClosedConn}
use qmux_go.Endpoint.Kept.{Kept, SameTurn}
use qmux_go.Endpoint.Kept.Writers.{
  bid_kept, chunk_kept, datagram_kept, fin_kept, flush_kept, on_held_kept, when_free_kept,
}
use qmux_go.Endpoint.Loops.{
  Idle, counted, expire, handshake_expires, idle_decision, idle_round, keep_alive_tick, no_timeout,
  react, read_round, rearm, record_in,
}
use qmux_go.Transport.{ReadRecord, record_over, record_read, stream_ended}
use qmux_go.Varint.{Varint}
use qmux_go.Wire.Error.{Reason}
use qmux_go.Wire.Reader.{rest}

pub abort-SameTurn : (e : Endpoint) (x : Failure) → SameTurn e (abort e x)
unfolding abort
abort-SameTurn e x = ground (arith, terminate-IsClosedConn e.conn x)

pub shut_down-SameTurn : ⦃l : Link⦄ (b : Bool) (e : Endpoint) → SameTurn e (shut_down b e)
unfolding shut_down
shut_down-SameTurn b e = ground arith

module _ ⦃q : Varint⦄ ⦃g : Growth⦄ ⦃l : Link⦄ (render : Reason → List ℕ) (P : Endpoint → Type 0)
    (law : Kept P) where
  close_link-SameTurn : (e : Endpoint) → SameTurn e (close_link e)
  close_link-SameTurn e = ground arith

  gone_kept : (e : Endpoint) (x : Failure) → P e → P (close_link (abort e x))
  gone_kept e x v = law.same _ _ (close_link-SameTurn _) (law.same _ _ (abort-SameTurn e x) v)

  react_kept : (now : ℕ) (e : Endpoint) (o : Outcome) → P e → P (react render now e o)
  unfolding react
  react_kept now e fine v = v
  react_kept now e (violation x) v = law.closes now _ _ e v
  react_kept now e (closed x) v = gone_kept e x v

  -- A record that is handled.
  handled-SameTurn :
      (now : ℕ) (rec : List ℕ) (e : Endpoint) (c : Conn) (o : Outcome)
      → handle_record now e.conn rec ≡ some (c, o)
      → SameTurn e (record (counted now rec e) { conn = c })
  unfolding counted
  handled-SameTurn now rec e c o h = record {
    same_goodbye = refl;
    same_holder = refl;
    same_wire = refl;
    same_broken = refl;
    same_tally = refl;
    still_closed =
        λ k. subst (λ o. is_some o ≡ true) (sym (handle_record_same now e.conn rec c o h)) k;
    still_guarded =
        λ k m. k (subst (λ o. is_some o ≡ true) (handle_record_same now e.conn rec c o h) m);
  }

  record_in_kept : (now : ℕ) (rec : List ℕ) (e : Endpoint) → P e → P (record_in render now rec e)
  unfolding record_in
  record_in_kept now rec e v =
      let (c, o, h) = handle_record-total now e.conn rec in
      rw (h, record_in) (react_kept now _ o (law.same _ _ (handled-SameTurn now rec e c o h) v))

  read_round_kept : (now : ℕ) (r : ReadRecord) (e : Endpoint) → P e → P (read_round render now r e)
  unfolding read_round
  read_round_kept now (record_read rec rest) e v = record_in_kept now rec e v
  read_round_kept now (record_over size limit rest) e v = react_kept now e _ v
  read_round_kept now stream_ended e v = gone_kept e transport_closed v

  -- The timers.
  idle_round_kept : (now : ℕ) (e : Endpoint) → P e → P (idle_round now e)
  unfolding idle_round
  idle_round_kept now e v = decided_kept (idle_decision now e)
    where
      decided_kept :
          (d : Idle)
          → P (elim d as (λ x. Endpoint) [
            | expire ↦ close_gracefully now idle_timed_out none e
            | _ ↦ e
          ])
      decided_kept expire = law.closes now idle_timed_out none e v
      decided_kept (rearm n) = v
      decided_kept no_timeout = v

  handshake_expires_kept : (now : ℕ) (e : Endpoint) → P e → P (handshake_expires now e)
  unfolding handshake_expires
  handshake_expires_kept now e v = elim (Bool-cases e.conn.handshake) [
    | inl h ↦ simp h v
    | inr h ↦ simp h (law.closes now handshake_timed_out none e v)
  ]

  keep_alive_tick_kept : (now : ℕ) (e : Endpoint) → P e → P (keep_alive_tick now e)
  unfolding keep_alive_tick
  keep_alive_tick_kept now e v = elim (Bool-cases (request_ping now e.conn).1) [
    | inl h ↦ simp h (
        law.same e _
          (record {
            same_goodbye = refl;
            same_holder = refl;
            same_wire = refl;
            same_broken = refl;
            same_tally = refl;
            still_closed = λ k.
                subst (λ o. is_some o ≡ true)
                  (sym (
                    SameOut-SameEnd e.conn (request_ping now e.conn).0
                      (request_ping_same now e.conn)))
                  k;
            still_guarded = λ k m. k (
                subst (λ o. is_some o ≡ true)
                  (SameOut-SameEnd e.conn (request_ping now e.conn).0
                    (request_ping_same now e.conn))
                  m);
          })
          v)
    | inr h ↦ simp h (law.closes now idle_timed_out none e v)
  ]

  calls_kept :
      (e : Endpoint) (t : Step) → is_call t ≡ true → P e → P (record e { conn = step e.conn t })
  calls_kept e t h v =
      law.same e _
        (record {
          same_goodbye = refl;
          same_holder = refl;
          same_wire = refl;
          same_broken = refl;
          same_tally = refl;
          still_closed = λ k. subst (λ o. is_some o ≡ true) (sym (call_same e.conn t h)) k;
          still_guarded = λ k m. k (subst (λ o. is_some o ≡ true) (call_same e.conn t h) m);
        })
        v

  act_kept : (e : Endpoint) (a : Act) → P e → P (act render e a)
  unfolding act
  act_kept e (calls t) v = elim (Bool-cases (is_call t)) [
    | inl h ↦ simp h (calls_kept e t h v)
    | inr h ↦ simp h v
  ]
  act_kept e (writes_chunk id b) v =
      when_free_kept P law e _ v
        (λ h. on_held_kept P law e id _ v (λ s. chunk_kept P law e s b h v))
  act_kept e (ends_stream id) v =
      when_free_kept P law e _ v (λ h. on_held_kept P law e id _ v (λ s. fin_kept P law e s h v))
  act_kept e (flushes now) v = when_free_kept P law e _ v (λ h. flush_kept P law now e h v)
  act_kept e (sends_datagram b) v = when_free_kept P law e _ v (λ h. datagram_kept P law e b h v)
  act_kept e says_farewell v = when_free_kept P law e _ v (λ h. bid_kept P law e h v)
  act_kept e (advances now) v = law.goes_on now e v
  act_kept e (hears now r) v = read_round_kept now r e v
  act_kept e (checks_idle now) v = idle_round_kept now e v
  act_kept e (misses_handshake now) v = handshake_expires_kept now e v
  act_kept e (keeps_alive now) v = keep_alive_tick_kept now e v
  act_kept e (closes_with now code msg) v = law.closes now _ _ e v
  act_kept e (gives_up x) v = law.same _ _ (abort-SameTurn e x) v
  act_kept e forces_close v = elim (Bool-cases (is_some e.forced)) [
    | inl h ↦ simp h (law.same _ _ (close_link-SameTurn e) v)
    | inr h ↦ simp h v
  ]

  pub acts_kept : (e : Endpoint) (l : List Act) → P e → P (acts render e l)
  unfolding acts
  acts_kept e [] v = v
  acts_kept e (a ∷ later) v = acts_kept (act render e a) later (act_kept e a v)
