-- ===== src/Exchange/Taking.antt =====
-- What a read at the far end changes: `tryRead` of qmux/stream.go.
use qmux_go.Base.{
  All, Bool-cases, List, ap, arith, false, inl, inr, length, length-drop, length-take, ltb, none,
  refl, sym, take, take-drop_taken, true, ℕ, ◌++◌, ◌+◌, ◌∙◌, ◌≡◌,
}
use qmux_go.Conn.Heap.{Keeps}
use qmux_go.Conn.Receive.{
  consume_locked, data_read, finished, read_locked, read_out, take_out, try_read, unread, wait_for,
}
use qmux_go.Conn.Receive.Buffers.{unread_length}
use qmux_go.Conn.Receive.Delivered.{read_locked-IsReadable, read_locked_buffer, take_out-unread}
use qmux_go.Conn.Signal.{wait}
use qmux_go.Conn.State.{Conn, Stream, commit, queue_control}
use qmux_go.Exchange.{data_of}
use qmux_go.Exchange.Counting.{IsRead, IsSmall, read_locked-IsRead}
use qmux_go.Exchange.Reports.{IsReport}
use qmux_go.Exchange.States.{IsUnended, finished_lem}

take_out_same :
    (t : Stream) (n : ℕ)
    → ((take_out t n).recv_offset ≡ t.recv_offset)
      × ((take_out t n).read_offset ≡ t.read_offset)
      × ((take_out t n).recv_max ≡ t.recv_max)
      × ((take_out t n).id ≡ t.id)
      × ((take_out t n).fin_recv ≡ t.fin_recv)
      × ((take_out t n).recv_err ≡ t.recv_err)
unfolding take_out
take_out_same t n = ground arith

read_locked_same :
    (c : Conn) (t : Stream) (n : ℕ)
    → ((read_locked c t n).1.fin_recv ≡ t.fin_recv)
      × ((read_locked c t n).1.recv_err ≡ t.recv_err)
      × ((read_locked c t n).1.id ≡ t.id)
      × ((read_locked c t n).0.heap ≡ c.heap)
      × ((read_locked c t n).0.config ≡ c.config)
unfolding read_locked queue_control consume_locked
read_locked_same c t n = ground arith

read_out-IsUnended :
    (c : Conn) (t : Stream) (room : ℕ) → IsUnended t → IsUnended (read_out c t room).1
unfolding read_out
read_out-IsUnended c t room v =
    let n = length (take room (unread t)) in
    let (a, b, d, i, fin, e) = take_out_same t n in
    let (w, u) = take_out-unread t room v.readable in
    let (fin', e', i', hp, cfg) = read_locked_same c (take_out t n) n in
    record {
      readable = read_locked-IsReadable c (take_out t n) n w;
      no_fin = fin' ∙ fin ∙ v.no_fin;
      no_error = e' ∙ e ∙ v.no_error;
    }

read_out-Keeps : (c : Conn) (t : Stream) (room : ℕ) → Keeps c t (read_out c t room)
unfolding read_out
read_out-Keeps c t room =
    let n = length (take room (unread t)) in
    let (a, b, d, i, fin, e) = take_out_same t n in
    let (fin', e', i', hp, cfg) = read_locked_same c (take_out t n) n in
    record { heap_kept = hp; config_kept = cfg; id_kept = i' ∙ i }

read_out-unread :
    (c : Conn) (t : Stream) (room : ℕ)
    → IsUnended t
    → unread t ≡ take room (unread t) ++ unread (read_out c t room).1
unfolding read_out
read_out-unread c t room v =
    let n = length (take room (unread t)) in
    let (w, u) = take_out-unread t room v.readable in
    let (x, y) = read_locked_buffer c (take_out t n) n in
    rw (x, y, u) (sym (take-drop_taken room (unread t)))

take_out-IsSmall : (c : Conn) (t : Stream) (n u : ℕ) → IsSmall c t u → IsSmall c (take_out t n) u
take_out-IsSmall c t n u v =
    let (a, b, d, i, fin, e) = take_out_same t n in
    record {
      conn_within = v.conn_within;
      conn_ahead = v.conn_ahead;
      conn_small = v.conn_small;
      stream_within = omega (arith, a, b, v.stream_within);
      stream_ahead = omega (arith, b, d, v.stream_ahead);
      stream_small = omega (arith, a, v.stream_small);
      conn_room = v.conn_room;
      conn_least = v.conn_least;
      stream_room = omega (arith, b, d, v.stream_room);
      stream_least = omega (arith, a, d, v.stream_least);
      conn_real = v.conn_real;
      stream_real = v.stream_real;
    }

take_out-IsRead :
    (id : ℕ) (c : Conn) (t : Stream) (n m : ℕ) (c' : Conn) (t' : Stream)
    → IsRead id c (take_out t n) m c' t'
    → IsRead id c t m c' t'
take_out-IsRead id c t n m c' t' v =
    let (a, b, d, i, fin, e) = take_out_same t n in
    record {
      read_offset_next = v.read_offset_next ∙ ap (λ z. z + m) b;
      consumed_next = v.consumed_next;
      stream_roomy = v.stream_roomy;
      conn_roomy = v.conn_roomy;
      stream_capped = v.stream_capped;
      conn_capped = v.conn_capped;
      stream_part = elim v.stream_part [
        | inl (x, y) ↦ inl (x, y ∙ d)
        | inr (x, y) ↦ inr (x, omega (arith, d, y))
      ];
      conn_part = v.conn_part;
      no_conn = v.no_conn;
      reports = v.reports;
      recv_offset_same = v.recv_offset_same ∙ a;
      received_same = v.received_same;
      config_same = v.config_same;
      pong_same = v.pong_same;
      ping_same = v.ping_same;
      route_same = v.route_same;
    }

read_out-IsRead :
    (id : ℕ) (c : Conn) (t : Stream) (room : ℕ)
    → IsSmall c t (unread_length t)
    → t.id ≡ id
    → t.fin_recv ≡ false
    → All (IsReport id) c.control
    → IsRead id c t (length (take room (unread t))) (read_out c t room).0 (read_out c t room).1
unfolding read_out
read_out-IsRead id c t room v i f r =
    let n = length (take room (unread t)) in
    let u = unread_length t in
    let (a, b, d, i', fin, e) = take_out_same t n in
    take_out-IsRead id c t n n _ _ (
      read_locked-IsRead id c (take_out t n) n u (take_out-IsSmall c t n u v)
        (omega (arith, length-take room (unread t), length-drop t.roff t.rbuf)) (i' ∙ i) (fin ∙ f)
        r)

-- A read of nothing makes a channel to wait on, and changes no counter.
waiting-IsRead :
    (id : ℕ) (c : Conn) (t : Stream)
    → IsSmall c t (unread_length t)
    → All (IsReport id) c.control
    → IsRead id c t 0 c (record t { read_signal = (wait t.read_signal).1 })
waiting-IsRead id c t v r = record {
  read_offset_next = omega arith;
  consumed_next = omega arith;
  stream_roomy = v.stream_room;
  conn_roomy = v.conn_room;
  stream_capped = v.stream_ahead;
  conn_capped = v.conn_ahead;
  stream_part = inl (refl, refl);
  conn_part = inl (refl, refl);
  no_conn = refl;
  reports = r;
  recv_offset_same = refl;
  received_same = refl;
  config_same = refl;
  pong_same = refl;
  ping_same = refl;
  route_same = refl;
}

-- What a read of an open stream makes of both.
pub record IsTaken (id : ℕ) (c : Conn) (t : Stream) (p : List ℕ) (d : Conn) (c' : Conn)
    (t' : Stream) : Type 0 where
  pub stored : d ≡ commit (c', t')
  pub read_part : IsRead id c t (length p) c' t'
  pub kept : Keeps c t (c', t')
  pub still : IsUnended t'
  pub front : unread t ≡ p ++ unread t'

pub try_read_data :
    (c : Conn) (t : Stream) (room : ℕ)
    → c.close_err ≡ none
    → t.recv_err ≡ none
    → ltb t.roff (length t.rbuf) ≡ true
    → try_read c t room ≡ (finished (read_out c t room), data_read (take room (unread t)))
unfolding try_read
try_read_data c t room e f h = ground (arith, e, f, h)

pub try_read_waits :
    (c : Conn) (t : Stream) (room : ℕ)
    → c.close_err ≡ none
    → t.recv_err ≡ none
    → t.fin_recv ≡ false
    → ltb t.roff (length t.rbuf) ≡ false
    → try_read c t room ≡ (
      commit (c, record t { read_signal = (wait t.read_signal).1 }),
      wait_for (wait t.read_signal).0 t.read_deadline,
    )
unfolding try_read
try_read_waits c t room e f g h = ground (arith, e, f, g, h)

-- Data at hand is read out; a read of none is empty, and only makes a channel to wait on.
pub try_read-IsTaken :
    (id : ℕ) (c : Conn) (t : Stream) (room : ℕ)
    → IsSmall c t (unread_length t)
    → IsUnended t
    → t.id ≡ id
    → c.close_err ≡ none
    → All (IsReport id) c.control
    → (c' : Conn) × (t' : Stream) × IsTaken id c t
        (data_of (try_read c t room).1)
        (try_read c t room).0
        c'
        t'
unfolding data_of
try_read-IsTaken id c t room v w i o r = elim (Bool-cases (ltb t.roff (length t.rbuf))) [
  | inl h ↦ rw (try_read_data c t room o w.no_error h) (
    (read_out c t room).0,
    (read_out c t room).1,
    record {
      stored = finished_lem _ _ (read_out-IsUnended c t room w);
      read_part = read_out-IsRead id c t room v i w.no_fin r;
      kept = read_out-Keeps c t room;
      still = read_out-IsUnended c t room w;
      front = read_out-unread c t room w;
    },
  )
  | inr h ↦ rw (try_read_waits c t room o w.no_error w.no_fin h) (
    c,
    record t { read_signal = (wait t.read_signal).1 },
    record {
      stored = refl;
      read_part = waiting-IsRead id c t v r;
      kept = record { heap_kept = refl; config_kept = refl; id_kept = refl };
      still = record {
        readable = record {
          can_read = w.readable.can_read;
          not_cancelled = w.readable.not_cancelled;
          not_reset = w.readable.not_reset;
          roff_within = w.readable.roff_within;
        };
        no_fin = w.no_fin;
        no_error = w.no_error;
      };
      front = refl;
    },
  )
]
