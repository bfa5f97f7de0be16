-- ===== src/Exchange/Hearing.antt =====
-- What the limits that come back do at the end that sends the stream: `handleFrameLocked` of
-- qmux/conn.go on MAX_DATA, MAX_STREAM_DATA and MAX_STREAMS.
use qmux_go.Base.{Bool, Bool-cases, arith, false, inl, inr, ltb, max, refl, some, ℕ, ◌≡◌}
use qmux_go.Conn.Handle.{
  handle_frame, handle_max_data, handle_max_stream_data, handle_max_streams, handle_ready,
  max_streams_dir, on_stream, raise_outgoing,
}
use qmux_go.Conn.Heap.{find-commit}
use qmux_go.Conn.Ids.{Dir}
use qmux_go.Conn.Receive.{Growth, fine}
use qmux_go.Conn.Signal.{broadcast}
use qmux_go.Conn.State.{Conn, Stream, at, commit, find}
use qmux_go.Exchange.Reports.{IsReport, conn_limit, stream_data_limit}
use qmux_go.Exchange.Route.{IsRoute, SameRoute, outgoing_route, stream_locked-IsRoute}
use qmux_go.Wire.Frame.{
  Frame, MaxStreamData, connection_close, datagram, frame, max_data, max_stream_data, max_streams,
  ping, reset_stream, stop_sending, stream, transport_parameters,
}

-- What a report does at the end that sends the stream: both limits are raised to what it says.
pub record IsHeard (id : ℕ) (c : Conn) (s : Stream) (f : Frame) (c' : Conn) (s' : Stream)
    : Type 0 where
  pub conn_raised : c'.send_max ≡ max c.send_max (conn_limit f)
  pub stream_raised : s'.send_max ≡ max s.send_max (stream_data_limit id f)
  pub found : find id c'.heap ≡ some s'
  pub sent_same : c'.sent ≡ c.sent
  pub offset_same : s'.send_offset ≡ s.send_offset
  pub error_same : s'.send_err ≡ s.send_err
  pub fin_same : s'.fin_sent ≡ s.fin_sent
  pub route_same : SameRoute c c' id

max_data-IsHeard :
    (id m : ℕ) (c : Conn) (s : Stream)
    → find id c.heap ≡ some s
    → IsHeard id c s (max_data (record { maximum = m })) (handle_max_data c m) s
unfolding handle_max_data conn_limit stream_data_limit
max_data-IsHeard id m c s e = elim (Bool-cases (ltb c.send_max m)) [
  | inl h ↦ simp h (record {
    conn_raised = ground (arith, h);
    stream_raised = omega arith;
    found = e;
    sent_same = refl;
    offset_same = refl;
    error_same = refl;
    fin_same = refl;
    route_same = refl;
  })
  | inr h ↦ simp h (record {
    conn_raised = ground (arith, h);
    stream_raised = omega arith;
    found = e;
    sent_same = refl;
    offset_same = refl;
    error_same = refl;
    fin_same = refl;
    route_same = refl;
  })
]

max_streams-IsHeard :
    (id m : ℕ) (dir : Dir) (uni : Bool) (c : Conn) (s : Stream)
    → find id c.heap ≡ some s
    → IsHeard id c s
        (max_streams (record { uni = uni; maximum = m }))
        (handle_max_streams c dir m)
        s
unfolding handle_max_streams conn_limit stream_data_limit raise_outgoing
max_streams-IsHeard id m dir uni c s e = elim (Bool-cases (ltb (at dir c.outgoing).max m)) [
  | inl h ↦ simp h (record {
    conn_raised = omega arith;
    stream_raised = omega arith;
    found = e;
    sent_same = refl;
    offset_same = refl;
    error_same = refl;
    fin_same = refl;
    route_same = outgoing_route c id dir (raise_outgoing (at dir c.outgoing) m) refl;
  })
  | inr h ↦ simp h (record {
    conn_raised = omega arith;
    stream_raised = omega arith;
    found = e;
    sent_same = refl;
    offset_same = refl;
    error_same = refl;
    fin_same = refl;
    route_same = refl;
  })
]

max_stream_data-IsHeard :
    (id : ℕ) (c : Conn) (s : Stream) (f : MaxStreamData)
    → f.stream_id ≡ id
    → find id c.heap ≡ some s
    → (s' : Stream) × IsHeard id c s (max_stream_data f) (handle_max_stream_data c s f.maximum) s'
unfolding handle_max_stream_data conn_limit stream_data_limit commit
max_stream_data-IsHeard id c s f i e = elim (Bool-cases (ltb s.send_max f.maximum)) [
  | inl h ↦
      let s' = record s { send_max = f.maximum; write_signal = broadcast s.write_signal } in
      simp h (
        s',
        record {
          conn_raised = omega arith;
          stream_raised = ground (arith, h, i);
          found =
              find-commit id c s (c, s') e
                (record { heap_kept = refl; config_kept = refl; id_kept = refl });
          sent_same = refl;
          offset_same = refl;
          error_same = refl;
          fin_same = refl;
          route_same = refl;
        },
      )
  | inr h ↦ simp h (
    s,
    record {
      conn_raised = omega arith;
      stream_raised = ground (arith, h, i);
      found = e;
      sent_same = refl;
      offset_same = refl;
      error_same = refl;
      fin_same = refl;
      route_same = refl;
    },
  )
]

module _ ⦃g : Growth⦄ where
  on_stream_lem :
      (now id : ℕ) (c : Conn) (s : Stream) (f : MaxStreamData)
      → f.stream_id ≡ id
      → IsRoute c id false
      → find id c.heap ≡ some s
      → handle_frame now c (frame (max_stream_data f))
        ≡ (handle_max_stream_data c s f.maximum, fine)
  unfolding handle_frame handle_ready on_stream
  on_stream_lem now id c s f i r e =
      let l = stream_locked-IsRoute c id false s r e in simp (r.is_ready, i, l) refl

  -- Every report is heard, and is no violation.
  pub handle_frame-IsHeard :
      (now id : ℕ) (c : Conn) (s : Stream) (f : Frame)
      → IsReport id f
      → IsRoute c id false
      → find id c.heap ≡ some s
      → (s' : Stream) × (c' : Conn) × (handle_frame now c (frame f) ≡ (c', fine))
        × IsHeard id c s f c' s'
  unfolding handle_frame handle_ready
  handle_frame-IsHeard now id c s (max_data f) v r e =
      (s, handle_max_data c f.maximum, simp r.is_ready refl, max_data-IsHeard id f.maximum c s e)
  handle_frame-IsHeard now id c s (max_streams f) v r e = (
    s,
    handle_max_streams c (max_streams_dir f.uni) f.maximum,
    simp r.is_ready refl,
    max_streams-IsHeard id f.maximum (max_streams_dir f.uni) f.uni c s e,
  )
  handle_frame-IsHeard now id c s (max_stream_data f) v r e =
      let (s', h) = max_stream_data-IsHeard id c s f v e in
      (s', handle_max_stream_data c s f.maximum, on_stream_lem now id c s f v r e, h)
  handle_frame-IsHeard now id c s (reset_stream f) v r e = absurd v
  handle_frame-IsHeard now id c s (stop_sending f) v r e = absurd v
  handle_frame-IsHeard now id c s (stream f) v r e = absurd v
  handle_frame-IsHeard now id c s (connection_close f) v r e = absurd v
  handle_frame-IsHeard now id c s (datagram f) v r e = absurd v
  handle_frame-IsHeard now id c s (ping f) v r e = absurd v
  handle_frame-IsHeard now id c s (transport_parameters p) v r e = absurd v
