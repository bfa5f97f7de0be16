-- ===== src/Conn/Handle/Violations.antt =====
-- What a frame that is a violation leaves behind, in `handleFrameLocked` of qmux/conn.go and the
-- handlers that it calls.
use qmux_go.Base.{
  All, All-append, Bool, List, Option, [], ap, append_assoc, arith, false, if-elim, inl, inr, map,
  none, refl, some, subst, suc, sym, true, zero, ℕ, ◌++◌, ◌∙◌, ◌∷◌, ◌≡◌,
}
use qmux_go.Conn.Handle.{
  handle_datagram, handle_first, handle_frame, handle_ping, handle_ping_request,
  handle_ping_response, handle_ready, on_stream,
}
use qmux_go.Conn.Handle.Accounting.{stream_locked-ok}
use qmux_go.Conn.Ids.{Dir, one_way, stream_dir, stream_id, two_way}
use qmux_go.Conn.Receive.{Growth, Outcome, fine, stream_data, stream_reset}
use qmux_go.Conn.Receive.Cases.{is_violation, stream_data_cases, stream_reset_cases}
use qmux_go.Conn.State.{Conn, Stream, at}
use qmux_go.Conn.Streams.{fresh_stream, new_stream, open_incoming, open_next, stream_locked}
use qmux_go.Wire.Error.{Result-cases, ok}
use qmux_go.Wire.Frame.{
  Frame, Parsed, ResetStream, StreamFrame, blocked, connection_close, datagram, frame, max_data,
  max_stream_data, max_streams, ping, reset_stream, stop_sending, stream, transport_parameters,
}

-- A connection that differs from another in the streams that the peer has opened, which are new.
pub record IsUnharmed (c c' : Conn) : Type 0 where
  pub rest_same : c' ≡ record c { streams = c'.streams; heap = c'.heap; incoming = c'.incoming }
  pub opened : List Stream
  pub heap_grown : c'.heap ≡ opened ++ c.heap
  pub opened_fresh : All (λ s. s ≡ fresh_stream c s.id) opened
  pub streams_grown : c'.streams ≡ map (λ s. s.id) opened ++ c.streams
  pub limits_same : (dir : Dir) → (at dir c'.incoming).max ≡ (at dir c.incoming).max

IsUnharmed-refl : (c : Conn) → IsUnharmed c c
IsUnharmed-refl c = record {
  rest_same = refl;
  opened = [];
  heap_grown = refl;
  opened_fresh = tt;
  streams_grown = refl;
  limits_same = λ dir. refl;
}

open_next-limits :
    (c : Conn) (dir d : Dir) → (at d (open_next c dir).incoming).max ≡ (at d c.incoming).max
unfolding open_next
open_next-limits c two_way two_way = refl
open_next-limits c two_way one_way = refl
open_next-limits c one_way two_way = refl
open_next-limits c one_way one_way = refl

ids-append :
    (xs : List Stream) (s : Stream) (ys : List ℕ)
    → map (λ t. t.id) (xs ++ s ∷ []) ++ ys ≡ map (λ t. t.id) xs ++ s.id ∷ ys
ids-append [] s ys = refl
ids-append (x ∷ xs) s ys = ap (◌∷◌ x.id) (ids-append xs s ys)

open_incoming-IsUnharmed : (k : ℕ) (c : Conn) (dir : Dir) → IsUnharmed c (open_incoming k c dir)
unfolding open_incoming open_next new_stream fresh_stream
open_incoming-IsUnharmed zero c dir = IsUnharmed-refl c
open_incoming-IsUnharmed (suc k) c dir =
    let v = open_incoming-IsUnharmed k (open_next c dir) dir in
    let s = fresh_stream c (stream_id c.is_server (at dir c.incoming).next dir false) in
    record {
      rest_same = v.rest_same;
      opened = v.opened ++ s ∷ [];
      heap_grown = v.heap_grown ∙ sym (append_assoc v.opened (s ∷ []) c.heap);
      opened_fresh =
          All-append (λ s. s ≡ fresh_stream c s.id) v.opened (s ∷ []) v.opened_fresh (refl, tt);
      streams_grown = v.streams_grown ∙ sym (ids-append v.opened s c.streams);
      limits_same = λ d. v.limits_same d ∙ open_next-limits c dir d;
    }

stream_locked-IsUnharmed :
    (c c' : Conn) (id : ℕ) (recv : Bool) (o : Option Stream)
    → stream_locked c id recv ≡ ok (c', o)
    → IsUnharmed c c'
stream_locked-IsUnharmed c c' id recv o e = elim (stream_locked-ok c c' id recv o e).0 [
  | inl h ↦ subst (IsUnharmed c) (sym h) (IsUnharmed-refl c)
  | inr h ↦ subst (IsUnharmed c) (sym h) (open_incoming-IsUnharmed _ c (stream_dir id))
]

-- An outcome that is a violation, if it is one, leaves the connection as it was.
abbrev IsIdle : Conn → Conn × Outcome → Type 0
IsIdle c r = (is_violation r.1 ≡ true) → r.0 ≡ c

on_stream-IsUnharmed :
    (c : Conn) (id : ℕ) (recv : Bool) (h : Conn → Stream → Conn × Outcome)
    → ((c' : Conn) (s : Stream) → IsIdle c' (h c' s))
    → (is_violation (on_stream c (stream_locked c id recv) h).1 ≡ true)
    → IsUnharmed c (on_stream c (stream_locked c id recv) h).0
unfolding on_stream
on_stream-IsUnharmed c id recv h keep = elim (Result-cases (stream_locked c id recv)) [
  | inl ((c', none), e) ↦ rw (e, on_stream) (λ v. stream_locked-IsUnharmed c c' id recv none e)
  | inl ((c', some s), e) ↦
      rw (e, on_stream)
        (λ v.
          subst (IsUnharmed c) (sym (keep c' s v))
            (stream_locked-IsUnharmed c c' id recv (some s) e))
  | inr (inl (x, e)) ↦ rw (e, on_stream) (λ v. IsUnharmed-refl c)
  | inr (inr e) ↦ rw (e, on_stream) (λ v. IsUnharmed-refl c)
]

stream_reset-IsIdle : (c : Conn) (s : Stream) (f : ResetStream) → IsIdle c (stream_reset c s f)
stream_reset-IsIdle c s f v = elim (stream_reset_cases c s f) [
  | inl (e, x) ↦ e
  | inr (c', t) ↦
      let b : is_violation fine ≡ true = ap (λ r. is_violation r.1) (sym t.result) ∙ v in
      absurd (ground (arith, b))
]

idle-IsUnharmed :
    (c : Conn) (r : Conn × Outcome) → IsIdle c r → is_violation r.1 ≡ true → IsUnharmed c r.0
idle-IsUnharmed c r h v = subst (IsUnharmed c) (sym (h v)) (IsUnharmed-refl c)

module _ ⦃g : Growth⦄ where
  stream_data-IsIdle : (c : Conn) (s : Stream) (f : StreamFrame) → IsIdle c (stream_data c s f)
  stream_data-IsIdle c s f v = elim (stream_data_cases c s f) [
    | inl (e, x) ↦ e
    | inr (c', t) ↦
        let b : is_violation fine ≡ true = ap (λ r. is_violation r.1) (sym t.result) ∙ v in
        absurd (ground (arith, b))
  ]

  handle_ready-IsUnharmed :
      (now : ℕ) (c : Conn) (f : Frame)
      → is_violation (handle_ready now c f).1 ≡ true
      → IsUnharmed c (handle_ready now c f).0
  unfolding handle_ready
  handle_ready-IsUnharmed now c (stream f) v =
      on_stream-IsUnharmed c f.stream_id true _ (λ c' s. stream_data-IsIdle c' s f) v
  handle_ready-IsUnharmed now c (reset_stream f) v =
      on_stream-IsUnharmed c f.stream_id true _ (λ c' s. stream_reset-IsIdle c' s f) v
  handle_ready-IsUnharmed now c (stop_sending f) v =
      on_stream-IsUnharmed c f.stream_id false _ (λ c' s w. absurd (ground (arith, w))) v
  handle_ready-IsUnharmed now c (max_stream_data f) v =
      on_stream-IsUnharmed c f.stream_id false _ (λ c' s w. absurd (ground (arith, w))) v
  handle_ready-IsUnharmed now c (max_data f) v = absurd (ground (arith, v))
  handle_ready-IsUnharmed now c (max_streams f) v = absurd (ground (arith, v))
  handle_ready-IsUnharmed now c (ping f) v =
      idle-IsUnharmed c (handle_ping now c f)
        (unfold handle_ping handle_ping_response handle_ping_request in λ w. ground arith) v
  handle_ready-IsUnharmed now c (datagram f) v =
      idle-IsUnharmed c (handle_datagram c f) (unfold handle_datagram in λ w. ground arith) v
  handle_ready-IsUnharmed now c (connection_close f) v = IsUnharmed-refl c
  handle_ready-IsUnharmed now c (transport_parameters p) v = IsUnharmed-refl c

  handle_first-IsUnharmed :
      (c : Conn) (f : Parsed)
      → is_violation (handle_first c f).1 ≡ true
      → IsUnharmed c (handle_first c f).0
  unfolding handle_first
  handle_first-IsUnharmed c (frame (transport_parameters p)) v = absurd (ground (arith, v))
  handle_first-IsUnharmed c _ v = IsUnharmed-refl c

  -- If a frame is a violation, then handling it has at most opened streams, each as a new stream
  -- is, in front of those that the connection had; those, the limits on the peer's streams and
  -- everything else of the connection but the account of the peer's streams (`in`) are as they
  -- were.
  pub handle_frame-IsUnharmed :
      (now : ℕ) (c : Conn) (f : Parsed)
      → is_violation (handle_frame now c f).1 ≡ true
      → IsUnharmed c (handle_frame now c f).0
  unfolding handle_frame
  handle_frame-IsUnharmed now c (frame f) v =
      if-elim (λ (r : Conn × Outcome). is_violation r.1 ≡ true → IsUnharmed c r.0) c.ready _ _
        (handle_ready-IsUnharmed now c f) (handle_first-IsUnharmed c (frame f)) v
  handle_frame-IsUnharmed now c blocked v =
      if-elim (λ (r : Conn × Outcome). is_violation r.1 ≡ true → IsUnharmed c r.0) c.ready _ _
        (λ w. IsUnharmed-refl c) (handle_first-IsUnharmed c blocked) v
