-- ===== src/Exchange/Beginning.antt =====
-- A stream that begins is in order at both ends.
use qmux_go.Base.{
  All, ap, arith, false, inl, not, refl, some, subst, sym, true, ℕ, ◌+◌, ◌<◌, ◌^◌, ◌∙◌, ◌≡◌,
}
use qmux_go.Conn.Ids.{Dir, stream_id}
use qmux_go.Conn.Receive.Buffers.{stream_window}
use qmux_go.Conn.Receive.Flow.{connection_window}
use qmux_go.Conn.Send.Whole.{payloads}
use qmux_go.Conn.State.{Conn, at, find}
use qmux_go.Conn.Streams.{fresh_stream, new_stream, open_next, try_open}
use qmux_go.Endpoint.Limits.{IsMatched}
use qmux_go.Exchange.Flowing.{IsFlowing}
use qmux_go.Exchange.Opening.{
  IsNew, after_open, far_facts, far_stream, near_stream, not_refused, opened_ends, opened_found,
  opened_known, opened_stored, opens_at_once, outgoing_next, same_id, taken_known, taken_next,
}
use qmux_go.Exchange.Reports.{IsReport, most, stream_data_limit}
use qmux_go.Exchange.Route.{IsRoute}

near_begins :
    (a : Conn) (dir : Dir)
    → IsNew a
    → 0 < (at dir a.outgoing).max
    → let id = stream_id a.is_server 0 dir true in
      let d = (try_open a dir).0 in
      IsRoute d id false
      × (find id d.heap ≡ some (near_stream a dir))
      × (d.sent ≡ 0)
      × (d.send_max ≡ a.send_max)
unfolding new_stream find fresh_stream
near_begins a dir v h =
    let m = opens_at_once a dir v h in
    rw m (
      record {
        is_ready = v.is_ready;
        is_open = v.is_open;
        allowed = not_refused a.is_server dir true;
        known = opened_known a dir (after_open a dir) refl (outgoing_next dir a.outgoing);
        stored = ground arith;
      },
      ground arith,
      v.none_sent,
      refl,
    )

far_begins :
    (b : Conn) (dir : Dir)
    → IsNew b
    → 0 < (at dir b.incoming).max
    → IsRoute (open_next b dir) (stream_id b.is_server 0 dir false) true
far_begins b dir v h =
    let (x, y) = taken_next b dir (v.none_taken dir) in
    record {
      is_ready = unfold open_next new_stream in v.is_ready;
      is_open = unfold open_next new_stream in v.is_open;
      allowed = unfold open_next new_stream in not_refused b.is_server dir false;
      known =
          taken_known b dir (open_next b dir) (unfold open_next new_stream in refl) x
            (omega (arith, y, h));
      stored = opened_stored b dir (v.none_taken dir);
    }

-- Two connections that are ready and have each other's limits, and a stream that the near one
-- opens: nothing is sent, and what the near end may send is what the far one takes.
pub begins-IsFlowing :
    (a b : Conn) (dir : Dir) (n : ℕ)
    → let id = stream_id a.is_server 0 dir true in
      IsNew a
      → IsNew b
      → a.is_server ≡ not b.is_server
      → IsMatched a b id dir
      → 0 < (at dir b.incoming).max
      → n + stream_window b < 2 ^ 62
      → n + connection_window b < 2 ^ 62
      → 1 < stream_window b
      → 1 < connection_window b
      → IsFlowing id n (opened_ends a b dir) (near_stream a dir) (far_stream b dir)
unfolding open_next new_stream fresh_stream payloads most
begins-IsFlowing a b dir n v w o (m₁, m₂, m₃, m₄) h x y x' y' =
    let i = same_id a.is_server b.is_server dir o in
    let (r, f, z, l) = near_begins a dir v (omega (arith, m₄, h)) in
    let q = far_begins b dir w h in
    let (c, k) = far_facts b dir in
    let j : (near_stream a dir).send_max ≡ (far_stream b dir).recv_max =
      m₃ ∙ ap (λ m. (fresh_stream b m).recv_max) (sym i) in
    let g = ap (most (stream_data_limit (stream_id a.is_server 0 dir true))) w.no_control in
    record {
      near_route = r;
      far_route = subst (λ j. IsRoute (open_next b dir) j true) i q;
      near_found = f;
      far_found =
          subst (λ j. find j (open_next b dir).heap ≡ some (far_stream b dir)) i
            (opened_found b dir (w.none_taken dir));
      sendable = record { no_error = refl; no_fin = refl };
      unended = record {
        readable = record {
          can_read = c;
          not_cancelled = refl;
          not_reset = refl;
          roff_within = inl refl;
        };
        no_fin = refl;
        no_error = refl;
      };
      counters = record {
        conn_within = omega (arith, w.none_consumed, w.none_received);
        conn_ahead = omega (arith, w.whole_window);
        conn_small = omega (arith, w.none_received, y);
        stream_within = refl;
        stream_ahead = omega (arith, k);
        stream_small = omega (arith, x);
        conn_room = omega (arith, w.none_consumed, w.whole_window);
        conn_least = omega (arith, w.none_received);
        stream_room = omega (arith, k);
        stream_least = omega arith;
        conn_real = y';
        stream_real = x';
      };
      in_order = tt;
      stream_gap = refl;
      conn_gap = omega (arith, z, w.none_received);
      stream_kept = omega arith;
      conn_kept = omega (arith, z);
      reports = tt;
      queued = subst (All (IsReport (stream_id a.is_server 0 dir true))) (sym w.no_control) tt;
      stream_told = omega (arith, g, j);
      conn_told = ground (arith, w.no_control, l, m₁, w.no_data_pending);
      no_pong = w.no_pong;
      no_ping = w.no_ping;
      stream_left = omega (arith, x);
      conn_left = omega (arith, z, y);
    }
