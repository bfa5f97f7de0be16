-- ===== src/Exchange/Delivery.antt =====
-- A stream from the handshake on: the client opens it, as `tryOpen` of qmux/conn.go does, and the
-- server has opened it, as `streamLocked` does.
use qmux_go.Base.{
  List, Option, arith, false, map, refl, some, subst, true, ℕ, ◌++◌, ◌+◌, ◌<◌, ◌^◌, ◌≡◌,
}
use qmux_go.Config.{Config, local_parameters, normalized}
use qmux_go.Config.Bounds.{IsPassed}
use qmux_go.Conn.Handle.{handle_parameters}
use qmux_go.Conn.Ids.{Dir, stream_id}
use qmux_go.Conn.Receive.{Growth, unread}
use qmux_go.Conn.Send.{send_credit_locked}
use qmux_go.Conn.Send.Whole.{payloads}
use qmux_go.Conn.State.{Conn, Stream, at, find, new_conn}
use qmux_go.Conn.Streams.{fresh_stream}
use qmux_go.Endpoint.{Link, parameters_record}
use qmux_go.Endpoint.Delivery.{handshake_conn}
use qmux_go.Endpoint.Limits.{matched}
use qmux_go.Endpoint.Loops.{dial, record_in, serve}
use qmux_go.Exchange.{Ends, Move, moves}
use qmux_go.Exchange.Beginning.{begins-IsFlowing}
use qmux_go.Exchange.Draining.{IsReached, credit_comes}
use qmux_go.Exchange.Flowing.{IsFlowing}
use qmux_go.Exchange.Moves.{costs, moves-IsMoved}
use qmux_go.Exchange.Opening.{far_stream, near_stream, opened_ends, ready-IsNew, ready_near}
use qmux_go.Exchange.Promises.{IsFirstFine, moves_carry, moves_keep_limits}
use qmux_go.Varint.{Varint}
use qmux_go.Wire.Error.{Reason}
use qmux_go.Wire.Frame.{stream}
use qmux_go.Wire.RoundTrip.Valid.{filled}

-- The client's first stream of a direction.
abbrev pub begun_id : Dir → ℕ
begun_id dir = stream_id false 0 dir true

-- The server lets the client open a stream, its windows hold two bytes at least, and as many bytes
-- more than the windows can be counted.
pub record IsRoomy (client server : Option Config) (dir : Dir) (n : ℕ) : Type 0 where
  pub client_passed : IsPassed client
  pub server_passed : IsPassed server
  pub some_stream : 0 < (at dir (new_conn (normalized server) true).incoming).max
  pub stream_fits : n + (normalized server).initial_stream_receive_window < 2 ^ 62
  pub conn_fits : n + (normalized server).initial_connection_receive_window < 2 ^ 62
  pub stream_real : 1 < (normalized server).initial_stream_receive_window
  pub conn_real : 1 < (normalized server).initial_connection_receive_window

module _ ⦃q : Varint⦄ ⦃g : Growth⦄ ⦃l : Link⦄ (render : Reason → List ℕ) (start now : ℕ)
    (client server : Option Config) (dir : Dir) where
  -- The two connections, each with the other's first record.
  abbrev pub client_conn : Conn
  client_conn =
      (record_in render now (parameters_record (normalized server)) (dial start client)).conn

  abbrev pub server_conn : Conn
  server_conn =
      (record_in render now (parameters_record (normalized client)) (serve start server)).conn

  -- The state in which the client's first stream of the direction begins.
  abbrev pub begun : Ends
  begun = opened_ends client_conn server_conn dir

  begun-IsFlowing :
      (n : ℕ)
      → IsRoomy client server dir n
      → IsFlowing (begun_id dir) n begun (near_stream client_conn dir) (far_stream server_conn dir)
  unfolding handle_parameters new_conn dial serve
  begun-IsFlowing n v =
      let ours = normalized client in
      let theirs = normalized server in
      let a = ready_near ours theirs false in
      let b = ready_near theirs ours true in
      let x = handshake_conn render start now ours false server v.server_passed in
      let y = handshake_conn render start now theirs true client v.client_passed in
      let m = matched ours theirs false (filled (local_parameters ours)) (begun_id dir) dir in
      let w =
        begins-IsFlowing a b dir n (ready-IsNew ours theirs false) (ready-IsNew theirs ours true)
          refl m v.some_stream v.stream_fits v.conn_fits v.stream_real v.conn_real in
      rw (x, y) w

  begun_moves :
      (xs : List Move)
      → IsRoomy client server dir (costs xs)
      → IsFlowing
          (begun_id dir)
          (costs xs + 0)
          begun
          (near_stream client_conn dir)
          (far_stream server_conn dir)
  begun_moves xs v =
      subst
        (λ n.
          IsFlowing (begun_id dir) n begun (near_stream client_conn dir)
            (far_stream server_conn dir))
        (omega arith) (begun-IsFlowing (costs xs) v)

  module _ (xs : List Move) (v : IsRoomy client server dir (costs xs)) where
    -- For configurations with int64 and uint64 fields or none at all, where the server allows a
    -- stream of the direction and its windows hold two bytes at least, and as long as what the
    -- client writes and each of these windows are together below 2^62: from the state after the
    -- handshake in which both have opened the first stream of the client in the direction,
    -- whatever the client writes on it and the server reads of it, in any order with the STREAM
    -- frames and the limits that arrive on links which keep their order, what was sent is what
    -- was read, then what is unread at the server, then what is on its way.
    pub stream_delivers :
        let (e, w, r) = moves now (begun_id dir) begun xs in
        (t : Stream) × (find (begun_id dir) e.far.heap ≡ some t)
        × (w ≡ r ++ (unread t ++ payloads e.forth))
    unfolding fresh_stream payloads
    stream_delivers = moves_carry now (begun_id dir) 0 begun _ _ xs (begun_moves xs v)

    -- For configurations with int64 and uint64 fields or none at all, where the server allows a
    -- stream of the direction and its windows hold two bytes at least, and as long as what the
    -- client writes and each of these windows are together below 2^62: from the state after the
    -- handshake in which both have opened the first stream of the client in the direction,
    -- whatever the client writes on it and the server reads of it, in any order with the STREAM
    -- frames and the limits that arrive on links which keep their order, the next frame that
    -- arrives at the server and the next one at the client are no violation and do not end the
    -- connection.
    pub stream_keeps_limits :
        (later : ℕ)
        → let e = (moves now (begun_id dir) begun xs).0 in
          IsFirstFine later e.far (map stream e.forth) × IsFirstFine later e.near e.back
    stream_keeps_limits = moves_keep_limits now (begun_id dir) 0 begun _ _ xs (begun_moves xs v)

    -- For configurations with int64 and uint64 fields or none at all, where the server allows a
    -- stream of the direction and its windows hold two bytes at least, and as long as what the
    -- client writes and each of these windows are together below 2^62: from the state after the
    -- handshake in which both have opened the first stream of the client in the direction,
    -- whatever the client writes on it and the server reads of it, in any order with the STREAM
    -- frames and the limits that arrive on links which keep their order, there are moves without
    -- another write after which the client may send again.
    pub stream_never_stuck :
        let e = (moves now (begun_id dir) begun xs).0 in
        (e' : Ends) × (s : Stream) × IsReached now (begun_id dir) e e'
        × (find (begun_id dir) e'.near.heap ≡ some s)
        × (0 < send_credit_locked e'.near s)
    stream_never_stuck =
        let m =
          moves-IsMoved now (begun_id dir) 0 begun (near_stream client_conn dir)
            (far_stream server_conn dir) xs (begun_moves xs v) in
        credit_comes now (begun_id dir) 0 (moves now (begun_id dir) begun xs).0 m.near_stream
          m.far_stream m.flowing
