-- ===== src/Exchange/Draining.antt =====
-- A stream between two connections of qmux/conn.go never gets stuck: when what is on its way has
-- arrived and was read, and the new limits have come back, there is credit.
use qmux_go.Base.{
  Bool-cases, List, [], ap, append-nil, arith, false, inl, inr, length, length-append, length-drop,
  length_zero, ltb, none, refl, some, subst, sym, take, take-length-append, ℕ, ◌++◌, ◌+◌, ◌<◌, ◌∙◌,
  ◌∷◌, ◌≡◌,
}
use qmux_go.Conn.Heap.{find-id}
use qmux_go.Conn.Receive.{Growth, try_read, unread}
use qmux_go.Conn.Run.{arrives, reads, step}
use qmux_go.Conn.Send.{send_credit_locked}
use qmux_go.Conn.Send.Whole.{payloads}
use qmux_go.Conn.State.{Conn, Stream, find}
use qmux_go.Exchange.{
  Ends, Move, data_of, far_handles, far_reads, far_reports, handled_back, handled_forth, move,
  moves, near_handles,
}
use qmux_go.Exchange.Answering.{far_reads-IsFlowing, far_reports-IsFlowing}
use qmux_go.Exchange.Flowing.{IsFlowing}
use qmux_go.Exchange.Moves.{costs, moves-IsMoved, on_id_found}
use qmux_go.Exchange.Reports.{conn_limit, most, stream_data_limit, take_control-IsReported}
use qmux_go.Exchange.States.{IsUnended}
use qmux_go.Exchange.Taking.{try_read-IsTaken, try_read_data, try_read_waits}
use qmux_go.Wire.Frame.{Frame, StreamFrame, frame}

-- Everything has arrived and was read, and every limit was told.
record IsSettled (e : Ends) (t : Stream) : Type 0 where
  all_arrived : e.forth ≡ []
  all_heard : e.back ≡ []
  none_queued : e.far.control ≡ []
  none_pending : e.far.max_data_pending ≡ false
  all_read : unread t ≡ []

settled_credit :
    (id n : ℕ) (e : Ends) (s t : Stream)
    → IsFlowing id n e s t
    → IsSettled e t
    → 0 < send_credit_locked e.near s
unfolding send_credit_locked payloads most
settled_credit id n e s t v h =
    let w = v.counters in
    let i = ap (λ z. length (payloads z)) h.all_arrived in
    let j = ap (most (stream_data_limit id)) h.all_heard in
    let k = ap (most (stream_data_limit id)) h.none_queued in
    let l = ap (most conn_limit) h.all_heard in
    let m = ap (most conn_limit) h.none_queued in
    let u = sym (length-drop t.roff t.rbuf) ∙ ap length h.all_read in
    let a : s.send_offset < s.send_max = ground (
      arith, i, j, k, u, w.stream_within, w.stream_room, w.stream_real, v.stream_gap, v.stream_told,
    ) in
    let d : e.near.sent < e.near.send_max = ground (
      arith, i, l, m, u, w.conn_within, w.conn_room, w.conn_real, h.none_pending, v.conn_gap,
      v.conn_told,
    ) in
    ground (arith, a, d)

-- A read into enough room takes everything.
all_taken :
    (c : Conn) (t : Stream)
    → c.close_err ≡ none
    → IsUnended t
    → data_of (try_read c t (length (unread t))).1 ≡ unread t
unfolding data_of
all_taken c t o w = elim (Bool-cases (ltb t.roff (length t.rbuf))) [
  | inl h ↦ rw (try_read_data c t (length (unread t)) o w.no_error h) (
      ap (take (length (unread t))) (sym (append-nil (unread t)))
      ∙ take-length-append (unread t) [])
  | inr h ↦
      rw (try_read_waits c t (length (unread t)) o w.no_error w.no_fin h)
        (sym (length_zero (unread t) (ground (arith, h, length-drop t.roff t.rbuf))))
]

costs-append : (xs ys : List Move) → costs (xs ++ ys) ≡ costs xs + costs ys
costs-append [] ys = omega arith
costs-append (x ∷ xs) ys = omega (arith, costs-append xs ys)

module _ ⦃g : Growth⦄ (now id : ℕ) where
  moves-append :
      (e : Ends) (xs ys : List Move)
      → (moves now id e (xs ++ ys)).0 ≡ (moves now id (moves now id e xs).0 ys).0
  unfolding moves
  moves-append e [] ys = refl
  moves-append e (x ∷ xs) ys = moves-append (move now id e x).0 xs ys

  -- As many frames arrive as are on their way.
  abbrev arrivals : List StreamFrame → List Move
  arrivals [] = []
  arrivals (f ∷ fs) = far_handles ∷ arrivals fs

  abbrev hearings : List Frame → List Move
  hearings [] = []
  hearings (f ∷ fs) = near_handles ∷ hearings fs

  arrivals_forth :
      (e : Ends) (fs : List StreamFrame)
      → e.forth ≡ fs
      → (moves now id e (arrivals fs)).0.forth ≡ []
  unfolding moves
  arrivals_forth e [] h = h
  arrivals_forth e (f ∷ fs) h =
      arrivals_forth (move now id e far_handles).0 fs (unfold move handled_forth in rw h refl)

  hearings_back :
      (e : Ends) (fs : List Frame)
      → e.back ≡ fs
      → ((moves now id e (hearings fs)).0.back ≡ [])
        × ((moves now id e (hearings fs)).0.far ≡ e.far)
        × ((moves now id e (hearings fs)).0.forth ≡ e.forth)
  unfolding moves
  hearings_back e [] h = (h, refl, refl)
  hearings_back e (f ∷ fs) h =
      let e' = (move now id e near_handles).0 in
      let m : e' ≡ record e { near = step e.near (arrives now (frame f)); back = fs } =
        unfold move handled_back in rw h refl in
      let (a, b, d) = hearings_back e' fs (ap (λ z. z.back) m) in
      (a, b ∙ ap (λ z. z.far) m, d ∙ ap (λ z. z.forth) m)

  -- There are moves from one state to another that write nothing.
  pub record IsReached (e e' : Ends) : Type 0 where
    pub path : List Move
    pub writes_nothing : costs path ≡ 0
    pub reached : (moves now id e path).0 ≡ e'

  IsReached-trans : (e e' e'' : Ends) → IsReached e e' → IsReached e' e'' → IsReached e e''
  IsReached-trans e e' e'' h k = record {
    path = h.path ++ k.path;
    writes_nothing = omega (arith, costs-append h.path k.path, h.writes_nothing, k.writes_nothing);
    reached =
        moves-append e h.path k.path ∙ ap (λ z. (moves now id z k.path).0) h.reached ∙ k.reached;
  }

  -- A state that is reached, with the streams that it has.
  record IsSomewhere (n : ℕ) (e e' : Ends) (s t : Stream) : Type 0 where
    way : IsReached e e'
    flowing : IsFlowing id n e' s t

  quiet_moves :
      (n : ℕ) (e : Ends) (s t : Stream) (ys : List Move)
      → costs ys ≡ 0
      → IsFlowing id n e s t
      → (s' : Stream) × (t' : Stream) × IsSomewhere n e (moves now id e ys).0 s' t'
  quiet_moves n e s t ys h v =
      let m =
        moves-IsMoved now id n e s t ys (subst (λ z. IsFlowing id z e s t) (omega (arith, h)) v) in
      (
        m.near_stream,
        m.far_stream,
        record {
          way = record { path = ys; writes_nothing = h; reached = refl };
          flowing = m.flowing;
        },
      )

  costs-arrivals : (fs : List StreamFrame) → costs (arrivals fs) ≡ 0
  costs-arrivals [] = refl
  costs-arrivals (f ∷ fs) = omega (arith, costs-arrivals fs)

  costs-hearings : (fs : List Frame) → costs (hearings fs) ≡ 0
  costs-hearings [] = refl
  costs-hearings (f ∷ fs) = omega (arith, costs-hearings fs)

  -- Everything that is there is read.
  reads_all :
      (n : ℕ) (e : Ends) (s t : Stream)
      → IsFlowing id n e s t
      → (e' : Ends) × (t' : Stream) × IsSomewhere n e e' s t'
        × (unread t' ≡ [])
        × (e'.forth ≡ e.forth)
  reads_all n e s t v =
      let room = length (unread t) in
      let o = v.far_route.is_open in
      let (c', t', k) =
        try_read-IsTaken id e.far t room v.counters v.unended (find-id id e.far.heap t v.far_found)
          o v.queued in
      let d = (try_read e.far t room).0 in
      let p = data_of (try_read e.far t room).1 in
      let l = ap length k.front ∙ length-append p (unread t') in
      let q = ap length (all_taken e.far t o v.unended) in
      let a : step e.far (reads id room) ≡ d =
        unfold step in on_id_found now id e.far t (λ z. (try_read e.far z room).0) v.far_found in
      (
        record e { far = d },
        t',
        record {
          way = record {
            path = far_reads room ∷ [];
            writes_nothing = refl;
            reached = unfold moves move in ap (λ z. record e { far = z }) a;
          };
          flowing = far_reads-IsFlowing id n e s t p d c' t' v k;
        },
        length_zero (unread t') (omega (arith, l, q)),
        refl,
      )

  -- Every limit is told.
  tells_all :
      (n : ℕ) (e : Ends) (s t : Stream)
      → IsFlowing id n e s t
      → let e' = (move now id e far_reports).0 in
        IsSomewhere n e e' s t
        × (e'.far.control ≡ [])
        × (e'.far.max_data_pending ≡ false)
        × (e'.forth ≡ e.forth)
  unfolding move step
  tells_all n e s t v =
      let k =
        take_control-IsReported now id e.far v.far_route.is_open v.no_pong v.no_ping v.queued in
      (
        record {
          way = record {
            path = far_reports ∷ [];
            writes_nothing = refl;
            reached = unfold moves in refl;
          };
          flowing = far_reports-IsFlowing now id n e s t v;
        },
        k.control_empty,
        k.none_pending,
        refl,
      )

  -- The last part: with nothing on its way forth and nothing to read or to tell, the reports are
  -- heard.
  hears_all :
      (n : ℕ) (e : Ends) (s t : Stream)
      → IsFlowing id n e s t
      → e.forth ≡ []
      → unread t ≡ []
      → e.far.control ≡ []
      → e.far.max_data_pending ≡ false
      → (e' : Ends) × (s' : Stream) × IsReached e e'
        × (find id e'.near.heap ≡ some s')
        × (0 < send_credit_locked e'.near s')
  hears_all n e s t v f r c p =
      let e' = (moves now id e (hearings e.back)).0 in
      let (s', t', w) = quiet_moves n e s t (hearings e.back) (costs-hearings e.back) v in
      let (x, y, z) = hearings_back e e.back refl in
      let same_stream : t ≡ t' =
        let h : some t ≡ some t' =
          sym v.far_found ∙ ap (λ d. find id d.heap) (sym y) ∙ w.flowing.far_found in
        cc in
      let settled : IsSettled e' t' = record {
        all_arrived = z ∙ f;
        all_heard = x;
        none_queued = ap (λ d. d.control) y ∙ c;
        none_pending = ap (λ d. d.max_data_pending) y ∙ p;
        all_read = subst (λ u. unread u ≡ []) same_stream r;
      } in
      (e', s', w.way, w.flowing.near_found, settled_credit id n e' s' t' w.flowing settled)

  -- From every state, without another write, the near end can come to have credit.
  pub credit_comes :
      (n : ℕ) (e : Ends) (s t : Stream)
      → IsFlowing id n e s t
      → (e' : Ends) × (s' : Stream) × IsReached e e'
        × (find id e'.near.heap ≡ some s')
        × (0 < send_credit_locked e'.near s')
  credit_comes n e s t v =
      let e₁ = (moves now id e (arrivals e.forth)).0 in
      let (s₁, t₁, w₁) = quiet_moves n e s t (arrivals e.forth) (costs-arrivals e.forth) v in
      let (e₂, t₂, w₂, r, f₂) = reads_all n e₁ s₁ t₁ w₁.flowing in
      let e₃ = (move now id e₂ far_reports).0 in
      let (w₃, c, p, f₃) = tells_all n e₂ s₁ t₂ w₂.flowing in
      let f = f₃ ∙ f₂ ∙ arrivals_forth e e.forth refl in
      let (e₄, s₄, w₄, h, k) = hears_all n e₃ s₁ t₂ w₃.flowing f r c p in
      (
        e₄,
        s₄,
        IsReached-trans e e₃ e₄
            (IsReached-trans e e₂ e₃ (IsReached-trans e e₁ e₂ w₁.way w₂.way) w₃.way) w₄,
        h,
        k,
      )
