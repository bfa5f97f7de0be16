-- ===== src/Exchange/Counting.antt =====
-- What the counters of a read come to: `readLocked` of qmux/stream.go and `consumeLocked` of
-- qmux/conn.go, on a stream that is open.
use qmux_go.Base.{
  All, All-append, Bool-cases, [], add64, ap, arith, false, inl, inr, ltb, max, not, refl, sub64,
  true, ℕ, ◌&&◌, ◌+◌, ◌-◌, ◌/◌, ◌<◌, ◌^◌, ◌∷◌, ◌≡◌, ◌≤◌, ◌⊎◌,
}
use qmux_go.Conn.Receive.{consume_locked, read_locked}
use qmux_go.Conn.Receive.Buffers.{stream_window}
use qmux_go.Conn.Receive.Flow.{connection_window}
use qmux_go.Conn.State.{Conn, Stream, queue_control}
use qmux_go.Exchange.Reports.{IsReport, conn_limit, most, most-append, stream_data_limit}
use qmux_go.Exchange.Route.{SameRoute}
use qmux_go.Wire.Frame.{max_stream_data}

-- The counters of a connection and a stream that holds `u` bytes unread: they are consistent, far
-- from 2^64, and the peer has at least half of each window to send in.
pub record IsSmall (c : Conn) (t : Stream) (u : ℕ) : Type 0 where
  pub conn_within : c.consumed + u ≡ c.received
  pub conn_ahead : c.recv_max ≤ c.consumed + connection_window c
  pub conn_small : c.received + connection_window c < 2 ^ 62
  pub stream_within : t.read_offset + u ≡ t.recv_offset
  pub stream_ahead : t.recv_max ≤ t.read_offset + stream_window c
  pub stream_small : t.recv_offset + stream_window c < 2 ^ 62
  pub conn_room : connection_window c / 2 ≤ c.recv_max - c.consumed
  pub conn_least : c.received ≤ c.recv_max
  pub stream_room : stream_window c / 2 ≤ t.recv_max - t.read_offset
  pub stream_least : t.recv_offset ≤ t.recv_max
  pub conn_real : 1 < connection_window c
  pub stream_real : 1 < stream_window c

-- What `readLocked` does with the counters and the limits.
pub record IsRead (id : ℕ) (c : Conn) (t : Stream) (n : ℕ) (c' : Conn) (t' : Stream) : Type 0 where
  pub read_offset_next : t'.read_offset ≡ t.read_offset + n
  pub consumed_next : c'.consumed ≡ c.consumed + n
  pub stream_roomy : stream_window c / 2 ≤ t'.recv_max - t'.read_offset
  pub conn_roomy : connection_window c / 2 ≤ c'.recv_max - c'.consumed
  pub stream_capped : t'.recv_max ≤ t'.read_offset + stream_window c
  pub conn_capped : c'.recv_max ≤ c'.consumed + connection_window c
  pub stream_part :
      ((most (stream_data_limit id) c'.control ≡ most (stream_data_limit id) c.control)
        × (t'.recv_max ≡ t.recv_max))
      ⊎ ((most (stream_data_limit id) c'.control
            ≡ max (most (stream_data_limit id) c.control) t'.recv_max)
          × (t.recv_max ≤ t'.recv_max))
  pub conn_part :
      ((c'.max_data_pending ≡ c.max_data_pending) × (c'.recv_max ≡ c.recv_max))
      ⊎ ((c'.max_data_pending ≡ true) × (c.recv_max ≤ c'.recv_max))
  pub no_conn : most conn_limit c'.control ≡ most conn_limit c.control
  pub reports : All (IsReport id) c'.control
  pub recv_offset_same : t'.recv_offset ≡ t.recv_offset
  pub received_same : c'.received ≡ c.received
  pub config_same : c'.config ≡ c.config
  pub pong_same : c'.pong_pending ≡ c.pong_pending
  pub ping_same : c'.ping_pending ≡ c.ping_pending
  pub route_same : SameRoute c c' id

consumed_parts :
    (id : ℕ) (c : Conn) (t : Stream) (n u : ℕ)
    → IsSmall c t u
    → n ≤ u
    → let c' = consume_locked c n in
      (c'.consumed ≡ c.consumed + n)
      × (connection_window c / 2 ≤ c'.recv_max - c'.consumed)
      × (c'.recv_max ≤ c'.consumed + connection_window c)
      × (((c'.max_data_pending ≡ c.max_data_pending) × (c'.recv_max ≡ c.recv_max))
          ⊎ ((c'.max_data_pending ≡ true) × (c.recv_max ≤ c'.recv_max)))
unfolding consume_locked
consumed_parts id c t n u v h =
    ground (arith, v.conn_within, v.conn_ahead, v.conn_small, v.conn_room, v.conn_least)

consumed_same :
    (id : ℕ) (c : Conn) (n : ℕ)
    → let c' = consume_locked c n in
      (c'.control ≡ c.control)
      × (c'.received ≡ c.received)
      × (c'.config ≡ c.config)
      × (c'.pong_pending ≡ c.pong_pending)
      × (c'.ping_pending ≡ c.ping_pending)
      × SameRoute c c' id
unfolding consume_locked
consumed_same id c n =
    elim (Bool-cases (
      ltb (sub64 c.recv_max (add64 c.consumed n))
        (c.config.initial_connection_receive_window / 2))) [
          | inl h ↦ simp h (refl, refl, refl, refl, refl, refl)
          | inr h ↦ simp h (refl, refl, refl, refl, refl, refl)
        ]

-- The stream's limit is raised with a MAX_STREAM_DATA frame, or stays.
pub read_locked-IsRead :
    (id : ℕ) (c : Conn) (t : Stream) (n u : ℕ)
    → IsSmall c t u
    → n ≤ u
    → t.id ≡ id
    → t.fin_recv ≡ false
    → All (IsReport id) c.control
    → IsRead id c t n (read_locked c t n).0 (read_locked c t n).1
unfolding read_locked queue_control most stream_data_limit conn_limit
read_locked-IsRead id c t n u v h i fin r =
    let (x, y, cap, z) = consumed_parts id c t n u v h in
    let (ctl, rcv, cfg, pn, pg, rt) = consumed_same id c n in
    let o : add64 t.read_offset n ≡ t.read_offset + n =
      omega (arith, h, v.stream_within, v.stream_small) in
    let lim = add64 (add64 t.read_offset n) (stream_window c) in
    let f = max_stream_data (record { stream_id = t.id; maximum = lim }) in
    elim (Bool-cases
      (not t.fin_recv && ltb (sub64 t.recv_max (add64 t.read_offset n)) (stream_window c / 2))) [
        | inl k ↦
            let ms = most-append (stream_data_limit id) c.control (f ∷ []) in
            let mc = most-append conn_limit c.control (f ∷ []) in
            simp (k, ctl)
              (record {
                read_offset_next = o;
                consumed_next = x;
                stream_roomy = ground (arith, o, h, v.stream_within, v.stream_small);
                conn_roomy = y;
                stream_capped = ground (arith, o, h, v.stream_within, v.stream_small);
                conn_capped = cap;
                stream_part = inr (
                  ground (arith, ms, i),
                  ground (arith, o, h, v.stream_within, v.stream_small, v.stream_ahead),
                );
                conn_part = z;
                no_conn = ground (arith, mc);
                reports = All-append (IsReport id) c.control (f ∷ []) r (i, tt);
                recv_offset_same = refl;
                received_same = rcv;
                config_same = cfg;
                pong_same = pn;
                ping_same = pg;
                route_same = rt;
              })
        | inr k ↦ simp k (record {
          read_offset_next = o;
          consumed_next = x;
          stream_roomy = ground (
            arith, k, o, fin, h, v.stream_within, v.stream_small, v.stream_ahead, v.stream_least,
          );
          conn_roomy = y;
          stream_capped = omega (arith, o, v.stream_ahead);
          conn_capped = cap;
          stream_part = inl (ap (most (stream_data_limit id)) ctl, refl);
          conn_part = z;
          no_conn = ap (most conn_limit) ctl;
          reports = rw ctl r;
          recv_offset_same = refl;
          received_same = rcv;
          config_same = cfg;
          pong_same = pn;
          ping_same = pg;
          route_same = rt;
        })
      ]
