-- ===== src/Exchange/Arriving.antt =====
-- What a frame that arrives makes of the state of the stream: `handleFrameLocked` of qmux/conn.go.
use qmux_go.Base.{
  All, List, add64, ap, arith, false, length, length-append, length-drop, refl, some, subst, sym,
  true, ℕ, ◌+◌, ◌∙◌, ◌∷◌, ◌≡◌,
}
use qmux_go.Conn.Handle.{handle_frame}
use qmux_go.Conn.Heap.{find-commit}
use qmux_go.Conn.Receive.{Growth, buffer_locked, fine, unread}
use qmux_go.Conn.Receive.Buffers.{unread_length}
use qmux_go.Conn.Send.Whole.{payloads}
use qmux_go.Conn.State.{Stream, commit, find}
use qmux_go.Exchange.{Ends}
use qmux_go.Exchange.Counting.{IsSmall}
use qmux_go.Exchange.Flowing.{IsFlowing, IsInOrder}
use qmux_go.Exchange.Hearing.{handle_frame-IsHeard}
use qmux_go.Exchange.Reports.{IsReport, conn_limit, most, stream_data_limit}
use qmux_go.Exchange.Route.{IsRoute, SameRoute-IsRoute}
use qmux_go.Exchange.States.{handle_frame_lem, taken, taken-IsUnended, unread-taken}
use qmux_go.Wire.Frame.{Frame, StreamFrame, frame, stream}

first_gap :
    (id n : ℕ) (e : Ends) (s t : Stream) (f : StreamFrame) (fs : List StreamFrame)
    → e.forth ≡ f ∷ fs
    → IsFlowing id n e s t
    → IsInOrder id t.recv_offset (f ∷ fs)
      × (t.recv_offset + (length f.payload + length (payloads fs)) ≡ s.send_offset)
      × (e.far.received + (length f.payload + length (payloads fs)) ≡ e.near.sent)
unfolding payloads
first_gap id n e s t f fs h v =
    let l = ap (λ z. length (payloads z)) h ∙ length-append f.payload (payloads fs) in
    (
      subst (IsInOrder id t.recv_offset) h v.in_order,
      omega (arith, l, v.stream_gap),
      omega (arith, l, v.conn_gap),
    )

module _ ⦃g : Growth⦄ where
  taken_same :
      (t : Stream) (f : StreamFrame)
      → ((taken t f).recv_offset ≡ add64 t.recv_offset (length f.payload))
        × ((taken t f).read_offset ≡ t.read_offset)
        × ((taken t f).recv_max ≡ t.recv_max)
        × ((taken t f).id ≡ t.id)
  unfolding buffer_locked
  taken_same t f = ground arith

  -- The oldest frame on its way is taken by the far end.
  pub far_takes :
      (now id n : ℕ) (e : Ends) (s t : Stream) (f : StreamFrame) (fs : List StreamFrame)
      → e.forth ≡ f ∷ fs
      → IsFlowing id n e s t
      → handle_frame now e.far (frame (stream f))
        ≡ (commit (record e.far { received = e.far.received + length f.payload }, taken t f), fine)
  far_takes now id n e s t f fs h v =
      let ((i, o, fin, others), sg, cg) = first_gap id n e s t f fs h v in
      let w = v.counters in
      handle_frame_lem now e.far t f (subst (λ z. IsRoute e.far z true) (sym i) v.far_route)
        (subst (λ z. find z e.far.heap ≡ some t) (sym i) v.far_found) v.unended o fin
        (omega (arith, sg, v.stream_kept, v.stream_told))
        (omega (arith, cg, v.conn_kept, v.conn_told))
        (omega (arith, w.stream_ahead, w.stream_within, w.stream_small))
        (omega (arith, w.conn_ahead, w.conn_within, w.conn_small))

  taken-IsSmall :
      (id n : ℕ) (e : Ends) (s t : Stream) (f : StreamFrame) (fs : List StreamFrame)
      → e.forth ≡ f ∷ fs
      → IsFlowing id n e s t
      → IsSmall
          (commit (record e.far { received = e.far.received + length f.payload }, taken t f))
          (taken t f)
          (unread_length (taken t f))
  unfolding commit
  taken-IsSmall id n e s t f fs h v =
      let (x, sg, cg) = first_gap id n e s t f fs h v in
      let (a, b, d, i) = taken_same t f in
      let w = v.counters in
      let u : unread_length (taken t f) ≡ unread_length t + length f.payload =
        sym (length-drop (taken t f).roff (taken t f).rbuf)
        ∙ ap length (unread-taken e.far t f v.unended)
        ∙ length-append (unread t) f.payload
        ∙ ap (λ z. z + length f.payload) (length-drop t.roff t.rbuf) in
      let r : (taken t f).recv_offset ≡ t.recv_offset + length f.payload =
        a ∙ omega (arith, sg, v.stream_left) in
      record {
        conn_within = omega (arith, u, w.conn_within);
        conn_ahead = w.conn_ahead;
        conn_small = omega (arith, cg, v.conn_left);
        stream_within = omega (arith, u, r, b, w.stream_within);
        stream_ahead = omega (arith, b, d, w.stream_ahead);
        stream_small = omega (arith, r, sg, v.stream_left);
        conn_room = w.conn_room;
        conn_least = omega (arith, cg, v.conn_kept, v.conn_told);
        stream_room = omega (arith, b, d, w.stream_room);
        stream_least = omega (arith, r, d, sg, v.stream_kept, v.stream_told);
        conn_real = w.conn_real;
        stream_real = w.stream_real;
      }

  pub far_handles-IsFlowing :
      (id n : ℕ) (e : Ends) (s t : Stream) (f : StreamFrame) (fs : List StreamFrame)
      → e.forth ≡ f ∷ fs
      → IsFlowing id n e s t
      → let d = commit (record e.far { received = e.far.received + length f.payload }, taken t f) in
        IsFlowing id n (record e { far = d; forth = fs }) s (taken t f)
  far_handles-IsFlowing id n e s t f fs h v =
      let ((i, o, fin, others), sg, cg) = first_gap id n e s t f fs h v in
      let w = taken-IsSmall id n e s t f fs h v in
      let (a, b, d, i') = taken_same t f in
      let c' = record e.far { received = e.far.received + length f.payload } in
      let r : (taken t f).recv_offset ≡ t.recv_offset + length f.payload =
        a ∙ omega (arith, sg, v.stream_left) in
      unfold commit in
      record {
        near_route = v.near_route;
        far_route = SameRoute-IsRoute e.far (commit (c', taken t f)) id true refl v.far_route;
        near_found = v.near_found;
        far_found =
            find-commit id e.far t (c', taken t f) v.far_found
              (record { heap_kept = refl; config_kept = refl; id_kept = i' });
        sendable = v.sendable;
        unended = taken-IsUnended c' t f v.unended fin;
        counters = w;
        in_order = subst (λ z. IsInOrder id z fs) (sym r) others;
        stream_gap = omega (arith, r, sg);
        conn_gap = omega (arith, cg);
        stream_kept = v.stream_kept;
        conn_kept = v.conn_kept;
        reports = v.reports;
        queued = v.queued;
        stream_told = v.stream_told ∙ sym d;
        conn_told = v.conn_told;
        no_pong = v.no_pong;
        no_ping = v.no_ping;
        stream_left = v.stream_left;
        conn_left = v.conn_left;
      }

  -- A report arrives at the near end.
  pub near_handles-IsFlowing :
      (now id n : ℕ) (e : Ends) (s t : Stream) (f : Frame) (fs : List Frame)
      → e.back ≡ f ∷ fs
      → IsFlowing id n e s t
      → (s' : Stream) × IsFlowing id n
          (record e { near = (handle_frame now e.near (frame f)).0; back = fs })
          s'
          t
  near_handles-IsFlowing now id n e s t f fs h v =
      let (r, rs) = subst (All (IsReport id)) h v.reports in
      let (s', c', q, w) = handle_frame-IsHeard now id e.near s f r v.near_route v.near_found in
      let m = ap (most (stream_data_limit id)) h in
      let k = ap (most conn_limit) h in
      rw q (
        s',
        unfold most in
            record {
              near_route = SameRoute-IsRoute e.near c' id false w.route_same v.near_route;
              far_route = v.far_route;
              near_found = w.found;
              far_found = v.far_found;
              sendable = record {
                no_error = w.error_same ∙ v.sendable.no_error;
                no_fin = w.fin_same ∙ v.sendable.no_fin;
              };
              unended = v.unended;
              counters = v.counters;
              in_order = v.in_order;
              stream_gap = v.stream_gap ∙ sym w.offset_same;
              conn_gap = v.conn_gap ∙ sym w.sent_same;
              stream_kept = omega (arith, w.offset_same, w.stream_raised, v.stream_kept);
              conn_kept = omega (arith, w.sent_same, w.conn_raised, v.conn_kept);
              reports = rs;
              queued = v.queued;
              stream_told = omega (arith, m, w.stream_raised, v.stream_told);
              conn_told = omega (arith, k, w.conn_raised, v.conn_told);
              no_pong = v.no_pong;
              no_ping = v.no_ping;
              stream_left = omega (arith, w.offset_same, v.stream_left);
              conn_left = omega (arith, w.sent_same, v.conn_left);
            },
      )
