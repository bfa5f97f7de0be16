-- ===== src/Exchange/Opening.antt =====
-- The state in which a stream begins: `tryOpen` and `streamLocked` of qmux/conn.go between two
-- connections that have each other's transport parameters.
use qmux_go.Base.{
  Bool, [], arith, contains, false, leb, none, not, refl, some, true, ℕ, ◌&&◌, ◌<◌, ◌≡◌,
}
use qmux_go.Config.{Config, local_parameters}
use qmux_go.Conn.Handle.{handle_parameters, raise_outgoing}
use qmux_go.Conn.Ids.{
  Dir, initiated_locally, one_way, same, stream_dir, stream_id, stream_id_lem, two_way,
}
use qmux_go.Conn.Receive.Buffers.{stream_window}
use qmux_go.Conn.Receive.Flow.{connection_window}
use qmux_go.Conn.State.{Both, Conn, Outgoing, Stream, at, find, new_conn, put_at}
use qmux_go.Conn.Streams.{fresh_stream, is_two_way, new_stream, open_next, try_open}
use qmux_go.Exchange.{Ends}
use qmux_go.Exchange.Route.{is_known}
use qmux_go.Wire.RoundTrip.Valid.{filled}

-- The two connections, and the stream that the near one opens first in a direction, in the state in
-- which the far one has opened it too.
abbrev pub ready_near : Config → Config → Bool → Conn
ready_near ours theirs is_server =
    handle_parameters (new_conn ours is_server) (filled (local_parameters theirs))

abbrev pub first_id : Bool → Dir → ℕ
first_id is_server dir = stream_id is_server 0 dir true

-- `a` opens a stream, and `b` has opened it as well.
abbrev pub opened_ends : Conn → Conn → Dir → Ends
opened_ends a b dir = record {
  near = (try_open a dir).0;
  far = open_next b dir;
  forth = [];
  back = [];
}

abbrev pub near_stream : Conn → Dir → Stream
near_stream a dir = record (fresh_stream a (stream_id a.is_server 0 dir true)) { accepted = true }

abbrev pub far_stream : Conn → Dir → Stream
far_stream b dir = fresh_stream b (stream_id b.is_server 0 dir false)

-- Both ends are ready, and neither has a stream yet.
pub record IsNew (c : Conn) : Type 0 where
  pub is_ready : c.ready ≡ true
  pub is_open : c.close_err ≡ none
  pub no_streams : c.streams ≡ []
  pub none_opened : (dir : Dir) → (at dir c.outgoing).next ≡ 0
  pub none_taken : (dir : Dir) → (at dir c.incoming).next ≡ 0
  pub none_sent : c.sent ≡ 0
  pub none_received : c.received ≡ 0
  pub none_consumed : c.consumed ≡ 0
  pub no_control : c.control ≡ []
  pub no_data_pending : c.max_data_pending ≡ false
  pub no_pong : c.pong_pending ≡ false
  pub no_ping : c.ping_pending ≡ false
  pub whole_window : c.recv_max ≡ connection_window c

pub ready-IsNew :
    (ours theirs : Config) (is_server : Bool) → IsNew (ready_near ours theirs is_server)
unfolding handle_parameters new_conn raise_outgoing
ready-IsNew ours theirs is_server = record {
  is_ready = refl;
  is_open = refl;
  no_streams = refl;
  none_opened = λ dir. next_zero dir;
  none_taken = λ dir. taken_zero dir;
  none_sent = refl;
  none_received = refl;
  none_consumed = refl;
  no_control = refl;
  no_data_pending = refl;
  no_pong = refl;
  no_ping = refl;
  whole_window = refl;
}
  where
    next_zero : (dir : Dir) → (at dir (ready_near ours theirs is_server).outgoing).next ≡ 0
    next_zero two_way = refl
    next_zero one_way = refl

    taken_zero : (dir : Dir) → (at dir (ready_near ours theirs is_server).incoming).next ≡ 0
    taken_zero two_way = refl
    taken_zero one_way = refl

abbrev pub after_open : Conn → Dir → Conn
after_open a dir = record (new_stream a (near_stream a dir)) {
  outgoing = put_at dir (record (at dir a.outgoing) { next = 1 }) a.outgoing;
}

pub opens_at_once :
    (a : Conn) (dir : Dir)
    → IsNew a
    → 0 < (at dir a.outgoing).max
    → (try_open a dir).0 ≡ after_open a dir
unfolding try_open
opens_at_once a dir v h =
    let z = v.none_opened dir in
    let b : leb (at dir a.outgoing).max 0 ≡ false = ground (arith, h) in rw (v.is_open, z, b) refl

-- The far end numbers the stream as the near end does.
pub same_id :
    (is_server other : Bool) (dir : Dir)
    → is_server ≡ not other
    → stream_id other 0 dir false ≡ stream_id is_server 0 dir true
unfolding stream_id
same_id true true dir h = absurd (ground (arith, h))
same_id true false dir h = refl
same_id false true dir h = refl
same_id false false dir h = absurd (ground (arith, h))

pub far_facts :
    (b : Conn) (dir : Dir)
    → ((far_stream b dir).can_recv ≡ true) × ((far_stream b dir).recv_max ≡ stream_window b)
unfolding fresh_stream
far_facts b dir =
    let (i, d, l) = stream_id_lem b.is_server 0 dir false (omega arith) in rw l (ground arith)

pub opened_known :
    (a : Conn) (dir : Dir) (d : Conn)
    → d.is_server ≡ a.is_server
    → (at dir d.outgoing).next ≡ 1
    → is_known d (stream_id a.is_server 0 dir true) ≡ true
opened_known a dir d s h =
    let (i, r, l) = stream_id_lem a.is_server 0 dir true (omega arith) in
    rw (s, l, r, i) (ground (arith, h))

pub taken_known :
    (b : Conn) (dir : Dir) (d : Conn)
    → d.is_server ≡ b.is_server
    → (at dir d.incoming).next ≡ 1
    → 0 < (at dir d.incoming).max
    → is_known d (stream_id b.is_server 0 dir false) ≡ true
taken_known b dir d s h m =
    let (i, r, l) = stream_id_lem b.is_server 0 dir false (omega arith) in
    rw (s, l, r, i) (ground (arith, h, m))

never_both : (dir : Dir) (local : Bool) → (not (is_two_way dir) && same local (not local)) ≡ false
never_both two_way local = refl
never_both one_way true = refl
never_both one_way false = refl

pub not_refused :
    (is_server : Bool) (dir : Dir) (local : Bool)
    → (not (is_two_way (stream_dir (stream_id is_server 0 dir local)))
        && same (initiated_locally is_server (stream_id is_server 0 dir local)) (not local))
      ≡ false
not_refused is_server dir local =
    let (i, r, l) = stream_id_lem is_server 0 dir local (omega arith) in
    rw (r, l) (never_both dir local)

pub outgoing_next :
    (dir : Dir) (a : Both Outgoing)
    → (at dir (put_at dir (record (at dir a) { next = 1 }) a)).next ≡ 1
outgoing_next two_way a = refl
outgoing_next one_way a = refl

-- What `open_next` makes of the part of a direction: the stream is counted and queued.
pub taken_next :
    (b : Conn) (dir : Dir)
    → (at dir b.incoming).next ≡ 0
    → ((at dir (open_next b dir).incoming).next ≡ 1)
      × ((at dir (open_next b dir).incoming).max ≡ (at dir b.incoming).max)
unfolding open_next
taken_next b two_way h = (omega (arith, h), refl)
taken_next b one_way h = (omega (arith, h), refl)

pub opened_found :
    (b : Conn) (dir : Dir)
    → (at dir b.incoming).next ≡ 0
    → find (stream_id b.is_server 0 dir false) (open_next b dir).heap ≡ some (far_stream b dir)
unfolding open_next new_stream find fresh_stream
opened_found b dir h = rw h (ground arith)

pub opened_stored :
    (b : Conn) (dir : Dir)
    → (at dir b.incoming).next ≡ 0
    → contains (stream_id b.is_server 0 dir false) (open_next b dir).streams ≡ true
unfolding open_next new_stream fresh_stream
opened_stored b dir h = rw h (ground arith)
