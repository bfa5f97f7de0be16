-- ===== src/Conn/Handle/Accounting.antt =====
-- `handleFrameLocked` of qmux/conn.go and the accounting of received data.
use qmux_go.Base.{
  Bool, Bool-cases, Option, arith, false, inl, inr, length, ltb, none, refl, some, suc, sym, true,
  zero, ℕ, ◌+◌, ◌-◌, ◌<◌, ◌^◌, ◌∙◌, ◌≡◌, ◌⊎◌,
}
use qmux_go.Config.{Config}
use qmux_go.Conn.Handle.{
  handle_datagram, handle_first, handle_frame, handle_max_data, handle_max_stream_data,
  handle_max_streams, handle_parameters, handle_ping, handle_ping_request, handle_ping_response,
  handle_ready, max_streams_dir, on_stream,
}
use qmux_go.Conn.Heap.{find-id, sum_by}
use qmux_go.Conn.Ids.{Dir, one_way, stream_dir, stream_id, stream_index, two_way}
use qmux_go.Conn.Receive.{Growth, Outcome, fine, stream_data, stream_reset}
use qmux_go.Conn.Receive.Buffers.{
  IsReceiving, fresh_stream-IsReceiving, stream_window, unread_length,
}
use qmux_go.Conn.Receive.Flow.{InRange}
use qmux_go.Conn.Receive.Invariant.Heap.{IsConn}
use qmux_go.Conn.Receive.Invariant.Operations.{
  finished_update-IsConn, stream_data-IsConn, stream_reset-IsConn, update-IsConn,
}
use qmux_go.Conn.Send.{reset_send_locked, send_reset, stop_sending_locked}
use qmux_go.Conn.State.{Conn, Stream, at, find, lookup_stream, new_conn, queue_control}
use qmux_go.Conn.Streams.{
  fresh_stream, new_stream, open_incoming, open_next, send_done, stream_locked,
}
use qmux_go.Wire.Error.{Result-cases, ok}
use qmux_go.Wire.Frame.{
  Datagram, Frame, Parsed, Ping, blocked, connection_close, datagram, frame, max_data,
  max_stream_data, max_streams, ping, reset_stream, stop_sending, stream, transport_parameters,
}
use qmux_go.Wire.Params.{Parameters}

-- A change that the accounting does not notice.
pub record SameFlow (c d : Conn) : Type 0 where
  pub heap_same : d.heap ≡ c.heap
  pub config_same : d.config ≡ c.config
  pub received_same : d.received ≡ c.received
  pub recv_max_same : d.recv_max ≡ c.recv_max
  pub consumed_same : d.consumed ≡ c.consumed

pub SameFlow-IsConn : (c d : Conn) → SameFlow c d → IsConn c → IsConn d
SameFlow-IsConn c d h v = record {
  flow = record {
    balance = rw h.heap_same (omega (arith, h.consumed_same, h.received_same, v.flow.balance));
    within = omega (arith, h.received_same, h.recv_max_same, v.flow.within);
    ahead = rw h.config_same (omega (arith, h.recv_max_same, h.consumed_same, v.flow.ahead));
    window_small = rw h.config_same v.flow.window_small;
  };
  total = rw h.heap_same (omega (arith, h.received_same, v.total));
  receiving = rw (h.heap_same, h.config_same) v.receiving;
  stream_window_small = rw h.config_same v.stream_window_small;
}

-- A new stream holds nothing.
pub new_stream-IsConn :
    (c : Conn) (s : Stream)
    → unread_length s ≡ 0
    → s.recv_offset ≡ 0
    → IsReceiving (stream_window c) s
    → IsConn c
    → IsConn (new_stream c s)
unfolding new_stream sum_by
new_stream-IsConn c s u o i v = record {
  flow = record {
    balance = omega (arith, v.flow.balance);
    within = v.flow.within;
    ahead = v.flow.ahead;
    window_small = v.flow.window_small;
  };
  total = omega (arith, v.total);
  receiving = (i, v.receiving);
  stream_window_small = v.stream_window_small;
}

pub fresh_stream-empty :
    (c : Conn) (id : ℕ)
    → (unread_length (fresh_stream c id) ≡ 0) × ((fresh_stream c id).recv_offset ≡ 0)
unfolding fresh_stream
fresh_stream-empty c id = (refl, refl)

open_next-IsConn : (c : Conn) (dir : Dir) → IsConn c → IsConn (open_next c dir)
unfolding open_next
open_next-IsConn c dir v =
    let id = stream_id c.is_server (at dir c.incoming).next dir false in
    let (u, o) = fresh_stream-empty c id in
    SameFlow-IsConn (new_stream c (fresh_stream c id)) _ (ground arith)
      (new_stream-IsConn c (fresh_stream c id) u o (fresh_stream-IsReceiving c id) v)

open_next-received : (c : Conn) (dir : Dir) → (open_next c dir).received ≡ c.received
unfolding open_next
open_next-received c dir = refl

open_incoming-IsConn :
    (k : ℕ) (c : Conn) (dir : Dir)
    → IsConn c
    → IsConn (open_incoming k c dir) × ((open_incoming k c dir).received ≡ c.received)
unfolding open_incoming
open_incoming-IsConn zero c dir v = (v, refl)
open_incoming-IsConn (suc k) c dir v =
    let (w, e) = open_incoming-IsConn k (open_next c dir) dir (open_next-IsConn c dir v) in
    (w, e ∙ open_next-received c dir)

lookup_stream-find :
    (c : Conn) (id : ℕ) (s : Stream) → lookup_stream c id ≡ some s → find s.id c.heap ≡ some s
unfolding lookup_stream
lookup_stream-find c id s e =
    let h : find id c.heap ≡ some s = ground arith in simp (find-id id c.heap s h) h

-- `streamLocked` finds the stream as things are, or after opening streams of the peer's.
pub stream_locked-ok :
    (c c' : Conn) (id : ℕ) (recv : Bool) (o : Option Stream)
    → stream_locked c id recv ≡ ok (c', o)
    → ((c' ≡ c)
        ⊎ (c'
            ≡ open_incoming
                (stream_index id + 1 - (at (stream_dir id) c.incoming).next)
                c
                (stream_dir id)))
      × (o ≡ lookup_stream c' id)
unfolding stream_locked
stream_locked-ok c c' id recv o e = ground arith

stream_locked-IsConn :
    (c c' : Conn) (id : ℕ) (recv : Bool) (o : Option Stream)
    → IsConn c
    → stream_locked c id recv ≡ ok (c', o)
    → IsConn c' × (c'.received ≡ c.received)
stream_locked-IsConn c c' id recv o v e = elim (stream_locked-ok c c' id recv o e).0 [
  | inl h ↦ rw h (v, refl)
  | inr h ↦ rw h (open_incoming-IsConn _ c (stream_dir id) v)
]

-- A handler that keeps the accounting, called through `streamLocked`.
pub on_stream-IsConn :
    (c : Conn) (id : ℕ) (recv : Bool) (h : Conn → Stream → Conn × Outcome)
    → IsConn c
    → InRange c
    → ((c' : Conn) (s : Stream)
        → find s.id c'.heap ≡ some s
        → InRange c'
        → IsConn c'
        → IsConn (h c' s).0)
    → IsConn (on_stream c (stream_locked c id recv) h).0
unfolding on_stream
on_stream-IsConn c id recv h v r keep = elim (Result-cases (stream_locked c id recv)) [
  | inl ((c', none), e) ↦ rw (e, on_stream) (stream_locked-IsConn c c' id recv none v e).0
  | inl ((c', some s), e) ↦
      let (w, k) = stream_locked-IsConn c c' id recv (some s) v e in
      let found : lookup_stream c' id ≡ some s = sym (stream_locked-ok c c' id recv (some s) e).1 in
      rw (e, on_stream) (keep c' s (lookup_stream-find c' id s found) (omega (arith, k)) w)
  | inr (inl (x, e)) ↦ rw (e, on_stream) v
  | inr (inr e) ↦ rw (e, on_stream) v
]

-- The sizes of what the frame carries: `Parse` gives no others for a record below 2^62 bytes.
abbrev pub IsSized : Frame → Type 0
IsSized (stream f) = length f.payload < 2 ^ 62
IsSized (reset_stream f) = f.final_size < 2 ^ 62
IsSized _ = Unit {0}

pub reset_send_locked-IsConn :
    (c : Conn) (s : Stream) (code : ℕ) (remote : Bool)
    → find s.id c.heap ≡ some s
    → InRange c
    → IsConn c
    → IsConn (reset_send_locked c s code remote)
unfolding reset_send_locked
reset_send_locked-IsConn c s code remote e r v = elim (Bool-cases (send_done s)) [
  | inl h ↦ rw (h, reset_send_locked) v
  | inr h ↦
      let f = reset_stream (record { stream_id = s.id; code = code; final_size = s.send_offset }) in
      let c' = queue_control c f in
      rw (h, reset_send_locked)
        (unfold send_reset queue_control in
          finished_update-IsConn c' s e r (SameFlow-IsConn c c' (ground arith) v) _ (ground arith))
]

handle_max_stream_data-IsConn :
    (c : Conn) (s : Stream) (m : ℕ)
    → find s.id c.heap ≡ some s
    → InRange c
    → IsConn c
    → IsConn (handle_max_stream_data c s m)
unfolding handle_max_stream_data
handle_max_stream_data-IsConn c s m e r v = elim (Bool-cases (ltb s.send_max m)) [
  | inl h ↦ rw (h, handle_max_stream_data) (update-IsConn c s e r v _ (ground arith))
  | inr h ↦ rw (h, handle_max_stream_data) v
]

handle_ping-SameFlow : (now : ℕ) (c : Conn) (f : Ping) → SameFlow c (handle_ping now c f).0
unfolding handle_ping handle_ping_response handle_ping_request
handle_ping-SameFlow now c f = ground arith

handle_datagram-SameFlow : (c : Conn) (f : Datagram) → SameFlow c (handle_datagram c f).0
unfolding handle_datagram
handle_datagram-SameFlow c f = ground arith

handle_limits-SameFlow :
    (c : Conn) (m : ℕ) (dir : Dir)
    → SameFlow c (handle_max_data c m) × SameFlow c (handle_max_streams c dir m)
unfolding handle_max_data handle_max_streams
handle_limits-SameFlow c m two_way = ground arith
handle_limits-SameFlow c m one_way = ground arith

handle_parameters-SameFlow : (c : Conn) (p : Parameters) → SameFlow c (handle_parameters c p)
unfolding handle_parameters
handle_parameters-SameFlow c p = ground arith

module _ ⦃g : Growth⦄ where
  handle_ready-IsConn :
      (now : ℕ) (c : Conn) (f : Frame)
      → IsSized f
      → InRange c
      → IsConn c
      → IsConn (handle_ready now c f).0
  unfolding handle_ready
  handle_ready-IsConn now c (stream f) n r v =
      on_stream-IsConn c f.stream_id true (λ c' s. stream_data c' s f) v r
        (λ c' s e r' v'. stream_data-IsConn c' s e r' v' f n)
  handle_ready-IsConn now c (reset_stream f) n r v =
      on_stream-IsConn c f.stream_id true (λ c' s. stream_reset c' s f) v r
        (λ c' s e r' v'. stream_reset-IsConn c' s e r' v' f n)
  handle_ready-IsConn now c (stop_sending f) n r v =
      on_stream-IsConn c f.stream_id false (λ c' s. (stop_sending_locked c' s f.code, fine)) v r
        (λ c' s e r' v'. reset_send_locked-IsConn c' s f.code true e r' v')
  handle_ready-IsConn now c (max_stream_data f) n r v =
      on_stream-IsConn c f.stream_id false (λ c' s. (handle_max_stream_data c' s f.maximum, fine)) v
        r (λ c' s e r' v'. handle_max_stream_data-IsConn c' s f.maximum e r' v')
  handle_ready-IsConn now c (max_data f) n r v =
      SameFlow-IsConn c _ (handle_limits-SameFlow c f.maximum two_way).0 v
  handle_ready-IsConn now c (max_streams f) n r v =
      SameFlow-IsConn c _ (handle_limits-SameFlow c f.maximum (max_streams_dir f.uni)).1 v
  handle_ready-IsConn now c (ping f) n r v = SameFlow-IsConn c _ (handle_ping-SameFlow now c f) v
  handle_ready-IsConn now c (datagram f) n r v =
      SameFlow-IsConn c _ (handle_datagram-SameFlow c f) v
  handle_ready-IsConn now c (connection_close f) n r v = v
  handle_ready-IsConn now c (transport_parameters p) n r v = v

  abbrev pub IsSizedParsed : Parsed → Type 0
  IsSizedParsed (frame f) = IsSized f
  IsSizedParsed blocked = Unit {0}

  handle_first-IsConn : (c : Conn) (f : Parsed) → IsConn c → IsConn (handle_first c f).0
  unfolding handle_first
  handle_first-IsConn c (frame (transport_parameters p)) v =
      SameFlow-IsConn c _ (handle_parameters-SameFlow c p) v
  handle_first-IsConn c _ v = v

  -- Whatever frame of a size below 2^62 the peer sends, and whether or not it is a violation, a
  -- consistent receiving state that has received fewer than 2^63 bytes stays consistent.
  pub handle_frame-IsConn :
      (now : ℕ) (c : Conn) (f : Parsed)
      → IsSizedParsed f
      → InRange c
      → IsConn c
      → IsConn (handle_frame now c f).0
  unfolding handle_frame
  handle_frame-IsConn now c (frame f) n r v = elim (Bool-cases c.ready) [
    | inl h ↦ simp h (handle_ready-IsConn now c f n r v)
    | inr h ↦ simp h (handle_first-IsConn c (frame f) v)
  ]
  handle_frame-IsConn now c blocked n r v = elim (Bool-cases c.ready) [
    | inl h ↦ simp h v
    | inr h ↦ simp h (handle_first-IsConn c blocked v)
  ]

-- A new connection has received nothing.
pub new_conn-IsConn :
    (cfg : Config) (is_server : Bool)
    → cfg.initial_connection_receive_window < 2 ^ 62
    → cfg.initial_stream_receive_window < 2 ^ 62
    → IsConn (new_conn cfg is_server)
unfolding new_conn sum_by
new_conn-IsConn cfg is_server h k = ground arith
