-- ===== src/Exchange/Answering.antt =====
-- What a read and `takeControl` of qmux/conn.go at the far end make of the state of the stream.
use qmux_go.Base.{
  All, All-append, List, ap, arith, length, length-append, length-drop, refl, subst, sym, true, ℕ,
  ◌++◌, ◌+◌, ◌∙◌, ◌≡◌,
}
use qmux_go.Conn.Control.{take_control}
use qmux_go.Conn.Heap.{find-commit}
use qmux_go.Conn.Receive.{unread}
use qmux_go.Conn.Receive.Buffers.{unread_length}
use qmux_go.Conn.Run.Cases.{take_control-SameFlow}
use qmux_go.Conn.State.{Conn, Stream, commit}
use qmux_go.Exchange.{Ends}
use qmux_go.Exchange.Counting.{IsSmall}
use qmux_go.Exchange.Flowing.{IsFlowing, IsInOrder}
use qmux_go.Exchange.Reports.{
  IsReport, conn_limit, most, most-append, stream_data_limit, take_control-IsReported,
}
use qmux_go.Exchange.Route.{SameRoute, SameRoute-IsRoute}
use qmux_go.Exchange.Taking.{IsTaken}

commit_same : (id : ℕ) (a : Conn × Stream) → SameRoute a.0 (commit a) id
unfolding commit
commit_same id a = refl

far_reads_counters :
    (id n : ℕ) (e : Ends) (s t : Stream) (p : List ℕ) (d c' : Conn) (t' : Stream)
    → IsFlowing id n e s t
    → IsTaken id e.far t p d c' t'
    → IsSmall (commit (c', t')) t' (unread_length t')
unfolding commit
far_reads_counters id n e s t p d c' t' v k =
    let w = v.counters in
    let r = k.read_part in
    let u : unread_length t ≡ length p + unread_length t' =
      sym (length-drop t.roff t.rbuf)
      ∙ ap length k.front
      ∙ length-append p (unread t')
      ∙ ap (λ z. length p + z) (length-drop t'.roff t'.rbuf) in
    let cw = ap (λ c. c.initial_connection_receive_window) r.config_same in
    let sw = ap (λ c. c.initial_stream_receive_window) r.config_same in
    record {
      conn_within = omega (arith, u, r.consumed_next, r.received_same, w.conn_within);
      conn_ahead = omega (arith, cw, r.conn_capped);
      conn_small = omega (arith, cw, r.received_same, w.conn_small);
      stream_within = omega (arith, u, r.read_offset_next, r.recv_offset_same, w.stream_within);
      stream_ahead = omega (arith, sw, r.stream_capped);
      stream_small = omega (arith, sw, r.recv_offset_same, w.stream_small);
      conn_room = omega (arith, cw, r.conn_roomy);
      conn_least = ground (arith, r.received_same, r.conn_part, w.conn_least);
      stream_room = omega (arith, sw, r.stream_roomy);
      stream_least = ground (arith, r.recv_offset_same, r.stream_part, w.stream_least);
      conn_real = omega (arith, cw, w.conn_real);
      stream_real = omega (arith, sw, w.stream_real);
    }

-- A read at the far end raises the limits there, and what tells of them is queued.
pub far_reads-IsFlowing :
    (id n : ℕ) (e : Ends) (s t : Stream) (p : List ℕ) (d c' : Conn) (t' : Stream)
    → IsFlowing id n e s t
    → IsTaken id e.far t p d c' t'
    → IsFlowing id n (record e { far = d }) s t'
far_reads-IsFlowing id n e s t p d c' t' v k =
    let r = k.read_part in
    let cw = ap (λ c. c.initial_connection_receive_window) r.config_same in
    let sw = ap (λ c. c.initial_stream_receive_window) r.config_same in
    rw k.stored (
      unfold commit in
      record {
        near_route = v.near_route;
        far_route =
            SameRoute-IsRoute e.far (commit (c', t')) id true
              (commit_same id (c', t') ∙ r.route_same) v.far_route;
        near_found = v.near_found;
        far_found = find-commit id e.far t (c', t') v.far_found k.kept;
        sendable = v.sendable;
        unended = k.still;
        counters = far_reads_counters id n e s t p d c' t' v k;
        in_order = subst (λ z. IsInOrder id z e.forth) (sym r.recv_offset_same) v.in_order;
        stream_gap = omega (arith, r.recv_offset_same, v.stream_gap);
        conn_gap = omega (arith, r.received_same, v.conn_gap);
        stream_kept = v.stream_kept;
        conn_kept = v.conn_kept;
        reports = v.reports;
        queued = r.reports;
        stream_told = ground (arith, r.stream_part, v.stream_told);
        conn_told = ground (arith, r.conn_part, r.no_conn, v.conn_told);
        no_pong = r.pong_same ∙ v.no_pong;
        no_ping = r.ping_same ∙ v.no_ping;
        stream_left = omega (arith, sw, v.stream_left);
        conn_left = omega (arith, cw, v.conn_left);
      })

-- What the far end tells moves to the link, and says the same.
pub far_reports-IsFlowing :
    (now id n : ℕ) (e : Ends) (s t : Stream)
    → IsFlowing id n e s t
    → let (d, fs) = take_control now e.far in
      IsFlowing id n (record e { far = d; back = e.back ++ fs }) s t
unfolding most
far_reports-IsFlowing now id n e s t v =
    let k = take_control-IsReported now id e.far v.far_route.is_open v.no_pong v.no_ping v.queued in
    let h = take_control-SameFlow now e.far in
    let m = most-append (stream_data_limit id) e.back (take_control now e.far).1 in
    let j = most-append conn_limit e.back (take_control now e.far).1 in
    let x = ap (most (stream_data_limit id)) k.control_empty in
    let y = ap (most conn_limit) k.control_empty in
    let cw = ap (λ c. c.initial_connection_receive_window) h.config_same in
    let sw = ap (λ c. c.initial_stream_receive_window) h.config_same in
    let w = v.counters in
    record {
      near_route = v.near_route;
      far_route =
          SameRoute-IsRoute e.far (take_control now e.far).0 id true k.route_same v.far_route;
      near_found = v.near_found;
      far_found = rw k.heap_same v.far_found;
      sendable = v.sendable;
      unended = v.unended;
      counters = record {
        conn_within = omega (arith, h.consumed_same, h.received_same, w.conn_within);
        conn_ahead = omega (arith, cw, h.consumed_same, h.recv_max_same, w.conn_ahead);
        conn_small = omega (arith, cw, h.received_same, w.conn_small);
        stream_within = w.stream_within;
        stream_ahead = omega (arith, sw, w.stream_ahead);
        stream_small = omega (arith, sw, w.stream_small);
        conn_room = omega (arith, cw, h.consumed_same, h.recv_max_same, w.conn_room);
        conn_least = omega (arith, h.received_same, h.recv_max_same, w.conn_least);
        stream_room = omega (arith, sw, w.stream_room);
        stream_least = w.stream_least;
        conn_real = omega (arith, cw, w.conn_real);
        stream_real = omega (arith, sw, w.stream_real);
      };
      in_order = v.in_order;
      stream_gap = v.stream_gap;
      conn_gap = omega (arith, h.received_same, v.conn_gap);
      stream_kept = v.stream_kept;
      conn_kept = v.conn_kept;
      reports = All-append (IsReport id) e.back (take_control now e.far).1 v.reports k.reports;
      queued = subst (All (IsReport id)) (sym k.control_empty) tt;
      stream_told = omega (arith, m, x, k.stream_part, v.stream_told);
      conn_told = ground (arith, j, y, k.none_pending, k.conn_part, h.recv_max_same, v.conn_told);
      no_pong = k.no_pong;
      no_ping = k.no_ping;
      stream_left = omega (arith, sw, v.stream_left);
      conn_left = omega (arith, cw, v.conn_left);
    }
