-- ===== src/Conn/Run/Accounting.antt =====
-- The accounting of received data in the states that a connection gets into.
use qmux_go.Base.{
  All, Bool, Bool-cases, List, Option-cases, [], arith, contains, false, if-elim, inl, inr, is_some,
  length, refl, some, true, ℕ, ◌<◌, ◌^◌, ◌∷◌, ◌≡◌, ◌≤◌,
}
use qmux_go.Config.{Config, negsuc, pos, ℤ}
use qmux_go.Conn.Close.{terminate, wake_stream, wake_streams}
use qmux_go.Conn.Control.{request_ping, take_control}
use qmux_go.Conn.Failure.{Failure}
use qmux_go.Conn.Handle.Accounting.{
  IsSizedParsed, SameFlow, SameFlow-IsConn, fresh_stream-empty, handle_frame-IsConn,
  new_conn-IsConn, new_stream-IsConn, reset_send_locked-IsConn,
}
use qmux_go.Conn.Heap.{find-All, find-id, sum_by}
use qmux_go.Conn.Ids.{Dir}
use qmux_go.Conn.Receive.{Growth, finished, set_read_deadline}
use qmux_go.Conn.Receive.Buffers.{
  IsReceiving, fresh_stream-IsReceiving, stream_window, unread-le-window, unread_length,
}
use qmux_go.Conn.Receive.Flow.{InRange}
use qmux_go.Conn.Receive.Invariant.Heap.{IsConn}
use qmux_go.Conn.Receive.Invariant.Operations.{
  SameReceiving, cancel_read-IsConn, finished_update-IsConn, try_peek-IsConn, try_read-IsConn,
  update-IsConn,
}
use qmux_go.Conn.Run.{
  Step, accepts, arrives, cancels_read, cancels_write, closes, ends, on_id, opens, peeks, reads,
  requests_ping, run, sets_priority, sets_read_deadline, sets_write_deadline, step, takes_control,
  tries_send, writes, written,
}
use qmux_go.Conn.Run.Cases.{
  close_send_cases, next_id, opened, take_control-SameFlow, try_accept_cases, try_open_cases,
  try_send_cases,
}
use qmux_go.Conn.Send.{
  cancel_write, close_send, fin_marked, reserve, send_err_locked, set_priority, set_write_deadline,
  try_send, write_chunk,
}
use qmux_go.Conn.State.{Conn, Stream, at, commit, find, new_conn, put_at}
use qmux_go.Conn.Streams.{accept_from, accept_head, new_stream, try_accept, try_open}

on_id-IsConn :
    (c : Conn) (id : ℕ) (call : Stream → Conn)
    → IsConn c
    → ((s : Stream) → find s.id c.heap ≡ some s → IsConn (call s))
    → IsConn (on_id c id call)
unfolding on_id
on_id-IsConn c id call v keep = elim (Option-cases (find id c.heap)) [
  | inl e ↦ rw (e, on_id) v
  | inr (s, e) ↦
      let h : find s.id c.heap ≡ some s = simp (find-id id c.heap s e) e in rw (e, on_id) (keep s h)
]

module _ (c : Conn) (s : Stream) (e : find s.id c.heap ≡ some s) (r : InRange c)
    (v : IsConn c) where
  cancel_write-IsConn : (code : ℕ) → IsConn (cancel_write c s code)
  unfolding cancel_write
  cancel_write-IsConn code = elim (Bool-cases (is_some c.close_err)) [
    | inl h ↦ rw h v
    | inr h ↦ rw h (reset_send_locked-IsConn c s code false e r v)
  ]

  -- The sending side's changes to the connection and the stream.
  sending-IsConn :
      (d : Conn) (t : Stream) → SameFlow c d → SameReceiving s t → IsConn (commit (d, t))
  sending-IsConn d t h k =
      let e' : find s.id d.heap ≡ some s = rw h.heap_same e in
      let r' : InRange d = omega (arith, h.received_same) in
      update-IsConn d s e' r' (SameFlow-IsConn c d h v) t k

  reserve-same : (n : ℕ) → SameFlow c (reserve c s n).0 × SameReceiving s (reserve c s n).1
  unfolding reserve
  reserve-same n = elim (Option-cases (send_err_locked c s)) [
    | inl h ↦ rw (h, reserve) (ground arith, ground arith)
    | inr (x, h) ↦ rw (h, reserve) (ground arith, ground arith)
  ]

  written-IsConn : (p : List ℕ) → IsConn (written c s p)
  unfolding write_chunk
  written-IsConn p = let (h, k) = reserve-same (length p) in sending-IsConn _ _ h k

  try_send-IsConn : (now : ℕ) → IsConn (try_send now c s).0
  try_send-IsConn now = elim (try_send_cases now c s) [
    | inl h ↦ rw h v
    | inr h ↦ rw h (sending-IsConn _ _ (ground arith) (ground arith))
  ]

  close_send-IsConn : IsConn (close_send c s).0
  close_send-IsConn = elim (close_send_cases c s) [
    | inl h ↦ rw h v
    | inr h ↦ rw h (unfold fin_marked in finished_update-IsConn c s e r v _ (ground arith))
  ]

  deadlines-IsConn : (t : ℕ) → IsConn (set_read_deadline c s t) × IsConn (set_write_deadline c s t)
  unfolding set_read_deadline set_write_deadline
  deadlines-IsConn t =
      (update-IsConn c s e r v _ (ground arith), update-IsConn c s e r v _ (ground arith))

  set_priority-IsConn : (u : ℤ) (inc : Bool) → IsConn (set_priority c s u inc)
  unfolding set_priority
  set_priority-IsConn (pos u) inc = update-IsConn c s e r v _ (ground arith)
  set_priority-IsConn (negsuc u) inc = update-IsConn c s e r v _ (ground arith)

wake_streams-sum :
    (f : Stream → ℕ) (ids : List ℕ) (ss : List Stream)
    → ((s : Stream) → f (wake_stream s) ≡ f s)
    → sum_by f (wake_streams ids ss) ≡ sum_by f ss
unfolding sum_by wake_streams
wake_streams-sum f ids [] h = refl
wake_streams-sum f ids (s ∷ ss) h = elim (Bool-cases (contains s.id ids)) [
  | inl e ↦ rw e (omega (arith, h s, wake_streams-sum f ids ss h))
  | inr e ↦ rw e (omega (arith, wake_streams-sum f ids ss h))
]

wake_streams-All {ℓ} :
    (P : Stream → Type ℓ) (ids : List ℕ) (ss : List Stream)
    → ((s : Stream) → P s → P (wake_stream s))
    → All P ss
    → All P (wake_streams ids ss)
unfolding wake_streams
wake_streams-All P ids [] h a = a
wake_streams-All P ids (s ∷ ss) h a = elim (Bool-cases (contains s.id ids)) [
  | inl e ↦ rw e (h s a.0, wake_streams-All P ids ss h a.1)
  | inr e ↦ rw e (a.0, wake_streams-All P ids ss h a.1)
]

module _ (c : Conn) (r : InRange c) (v : IsConn c) where
  try_open-IsConn : (dir : Dir) → IsConn (try_open c dir).0
  try_open-IsConn dir = elim (try_open_cases c dir) [
    | inl h ↦ rw h v
    | inr (inl h) ↦ rw h (SameFlow-IsConn c _ (ground arith) v)
    | inr (inr h) ↦
        let (u, o) = fresh_stream-empty c (next_id c dir) in
        let i : IsReceiving (stream_window c) (opened c dir) =
          let w = fresh_stream-IsReceiving c (next_id c dir) in ground arith in
        rw h (
          SameFlow-IsConn (new_stream c (opened c dir)) _ (ground arith)
            (new_stream-IsConn c (opened c dir) u o i v))
  ]

  accept_from-IsConn : (dir : Dir) (ids : List ℕ) → IsConn (accept_from c dir ids).0
  unfolding accept_from accept_head
  accept_from-IsConn dir [] = SameFlow-IsConn c _ (ground arith) v
  accept_from-IsConn dir (id ∷ ids) = elim (Option-cases (find id c.heap)) [
    | inl h ↦ rw (h, accept_from) v
    | inr (s, h) ↦
        let i = record (at dir c.incoming) { queue = ids } in
        let c' = record c { incoming = put_at dir i c.incoming } in
        let e : find s.id c'.heap ≡ some s = simp (find-id id c.heap s h) h in
        let v' : IsConn c' = SameFlow-IsConn c c' (ground arith) v in
        rw (h, accept_from)
          (unfold finished in
            finished_update-IsConn c' s e r v' (record s { accepted = true }) (ground arith))
  ]

  try_accept-IsConn : (dir : Dir) → IsConn (try_accept c dir).0
  try_accept-IsConn dir = elim (try_accept_cases c dir) [
    | inl h ↦ rw h v
    | inr h ↦ rw h (accept_from-IsConn dir (at dir c.incoming).queue)
  ]

  take_control-IsConn : (now : ℕ) → IsConn (take_control now c).0
  take_control-IsConn now = SameFlow-IsConn c _ (take_control-SameFlow now c) v

  request_ping-IsConn : (now : ℕ) → IsConn (request_ping now c).0
  unfolding request_ping
  request_ping-IsConn now = SameFlow-IsConn c _ (ground arith) v

  terminate-IsConn : (x : Failure) → IsConn (terminate c x).0
  unfolding terminate wake_stream
  terminate-IsConn x =
      if-elim (λ (a : Conn × Bool). IsConn a.0) (is_some c.close_err) _ _ v
        (record {
          flow = record {
            balance = omega (
              arith,
              wake_streams-sum unread_length c.streams c.heap (λ s. refl),
              v.flow.balance,
            );
            within = v.flow.within;
            ahead = v.flow.ahead;
            window_small = v.flow.window_small;
          };
          total =
              omega (
                arith,
                wake_streams-sum (λ s. s.recv_offset) c.streams c.heap (λ s. refl),
                v.total,
              );
          receiving =
              wake_streams-All (IsReceiving (stream_window c)) c.streams c.heap
                (λ s h. ground arith) v.receiving;
          stream_window_small = v.stream_window_small;
        })

module _ ⦃g : Growth⦄ where
  -- The sizes of what a step brings from the peer.
  abbrev pub IsSizedStep : Step → Type 0
  IsSizedStep (arrives now f) = IsSizedParsed f
  IsSizedStep _ = Unit {0}

  pub step-IsConn : (c : Conn) (t : Step) → IsSizedStep t → InRange c → IsConn c → IsConn (step c t)
  unfolding step
  step-IsConn c (arrives now f) n r v = handle_frame-IsConn now c f n r v
  step-IsConn c (reads id room) n r v =
      on_id-IsConn c id _ v (λ s e. try_read-IsConn c s e r v room)
  step-IsConn c (peeks id room) n r v =
      on_id-IsConn c id _ v (λ s e. try_peek-IsConn c s e r v room)
  step-IsConn c (cancels_read id code) n r v =
      on_id-IsConn c id _ v (λ s e. cancel_read-IsConn c s e r v code)
  step-IsConn c (cancels_write id code) n r v =
      on_id-IsConn c id _ v (λ s e. cancel_write-IsConn c s e r v code)
  step-IsConn c (tries_send now id) n r v =
      on_id-IsConn c id _ v (λ s e. try_send-IsConn c s e r v now)
  step-IsConn c (writes id p) n r v = on_id-IsConn c id _ v (λ s e. written-IsConn c s e r v p)
  step-IsConn c (closes id) n r v = on_id-IsConn c id _ v (λ s e. close_send-IsConn c s e r v)
  step-IsConn c (sets_read_deadline id t) n r v =
      on_id-IsConn c id _ v (λ s e. (deadlines-IsConn c s e r v t).0)
  step-IsConn c (sets_write_deadline id t) n r v =
      on_id-IsConn c id _ v (λ s e. (deadlines-IsConn c s e r v t).1)
  step-IsConn c (sets_priority id u inc) n r v =
      on_id-IsConn c id _ v (λ s e. set_priority-IsConn c s e r v u inc)
  step-IsConn c (opens dir) n r v = try_open-IsConn c r v dir
  step-IsConn c (accepts dir) n r v = try_accept-IsConn c r v dir
  step-IsConn c (takes_control now) n r v = take_control-IsConn c r v now
  step-IsConn c (requests_ping now) n r v = request_ping-IsConn c r v now
  step-IsConn c (ends x) n r v = terminate-IsConn c r v x

  -- Before each step fewer than 2^63 bytes were received, and no frame is larger than 2^62.
  abbrev pub IsRanged : Conn → List Step → Type 0
  IsRanged c [] = Unit {0}
  IsRanged c (t ∷ ts) = InRange c × IsSizedStep t × IsRanged (step c t) ts

  run-IsConn : (c : Conn) (ts : List Step) → IsRanged c ts → IsConn c → IsConn (run c ts)
  unfolding run
  run-IsConn c [] h v = v
  run-IsConn c (t ∷ ts) h v = run-IsConn (step c t) ts h.2 (step-IsConn c t h.1 h.0 v)

  -- From a new connection with windows below 2^62, after any frames of the peer and any calls, as
  -- long as frames have sizes below 2^62 and the bytes received stay below 2^63: the bytes
  -- received are those consumed and those that the streams hold unread, and the sum over the
  -- streams; neither the connection nor a stream has gone past its limit; and every limit is at
  -- most a window ahead of what was read.
  pub run-new_conn-IsConn :
      (cfg : Config) (is_server : Bool) (ts : List Step)
      → cfg.initial_connection_receive_window < 2 ^ 62
      → cfg.initial_stream_receive_window < 2 ^ 62
      → IsRanged (new_conn cfg is_server) ts
      → IsConn (run (new_conn cfg is_server) ts)
  run-new_conn-IsConn cfg is_server ts h k w =
      run-IsConn (new_conn cfg is_server) ts w (new_conn-IsConn cfg is_server h k)

  -- From a new connection with windows below 2^62, after any frames of the peer and any calls, as
  -- long as frames have sizes below 2^62 and the bytes received stay below 2^63, a stream holds
  -- no more unread than its window.
  pub run-unread :
      (cfg : Config) (is_server : Bool) (ts : List Step) (id : ℕ) (s : Stream)
      → cfg.initial_connection_receive_window < 2 ^ 62
      → cfg.initial_stream_receive_window < 2 ^ 62
      → IsRanged (new_conn cfg is_server) ts
      → find id (run (new_conn cfg is_server) ts).heap ≡ some s
      → unread_length s ≤ stream_window (run (new_conn cfg is_server) ts)
  run-unread cfg is_server ts id s h k w e =
      let c = run (new_conn cfg is_server) ts in
      let v = run-new_conn-IsConn cfg is_server ts h k w in
      unread-le-window (stream_window c) s
        (find-All (IsReceiving (stream_window c)) id c.heap s v.receiving e)
