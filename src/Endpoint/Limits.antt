-- ===== src/Endpoint/Limits.antt =====
-- The limits that the transport parameters set at both ends: `handleParametersLocked`, `newConn`
-- and `localParameters` of qmux/conn.go, and `newStreamLocked` of qmux/stream.go.
use qmux_go.Base.{Bool, List, Option, arith, false, not, refl, true, ℕ, ◌≡◌}
use qmux_go.Config.{Config, local_parameters, normalized}
use qmux_go.Config.Bounds.{IsPassed}
use qmux_go.Conn.Handle.{handle_parameters, raise_outgoing}
use qmux_go.Conn.Ids.{Dir, initiated_locally, one_way, stream_dir, two_way}
use qmux_go.Conn.Receive.{Growth}
use qmux_go.Conn.State.{Conn, at, new_conn}
use qmux_go.Conn.Streams.{fresh_stream, initial_send_max}
use qmux_go.Endpoint.{Link, parameters_record}
use qmux_go.Endpoint.Delivery.{handshake_conn}
use qmux_go.Endpoint.Loops.{dial, record_in, serve}
use qmux_go.Tests.{server}
use qmux_go.Varint.{Varint}
use qmux_go.Wire.Error.{Reason}
use qmux_go.Wire.Params.{Parameters}
use qmux_go.Wire.RoundTrip.Valid.{filled}

-- What `a` may send before any limit is raised is what `b` takes: on the connection, on the stream
-- with an identifier, and in the number of streams of a direction.
abbrev pub IsMatched : Conn → Conn → ℕ → Dir → Type 0
IsMatched a b id dir =
    (a.send_max ≡ b.recv_max)
    × ((fresh_stream a id).can_send ≡ (fresh_stream b id).can_recv)
    × ((fresh_stream a id).send_max ≡ (fresh_stream b id).recv_max)
    × ((at dir a.outgoing).max ≡ (at dir b.incoming).max)

other_end :
    (is_server : Bool) (id : ℕ)
    → not (initiated_locally (not is_server) id) ≡ initiated_locally is_server id
unfolding initiated_locally
other_end true id = ground arith
other_end false id = ground arith

-- Whoever opened the stream, the parameter that applies to it is the window.
same_window :
    (theirs : Config) (dir : Dir) (local : Bool)
    → initial_send_max (filled (local_parameters theirs)) dir local
      ≡ theirs.initial_stream_receive_window
unfolding initial_send_max local_parameters
same_window theirs two_way true = refl
same_window theirs two_way false = refl
same_window theirs one_way local = refl

pub matched :
    (ours theirs : Config) (is_server : Bool) (p : Parameters) (id : ℕ) (dir : Dir)
    → IsMatched
        (handle_parameters (new_conn ours is_server) (filled (local_parameters theirs)))
        (handle_parameters (new_conn theirs (not is_server)) p)
        id
        dir
unfolding handle_parameters new_conn local_parameters fresh_stream raise_outgoing
matched ours theirs is_server p id two_way =
    rw (same_window theirs (stream_dir id) (initiated_locally is_server id), other_end is_server id)
      (refl, refl, refl, refl)
matched ours theirs is_server p id one_way =
    rw (same_window theirs (stream_dir id) (initiated_locally is_server id), other_end is_server id)
      (refl, refl, refl, refl)

module _ ⦃q : Varint⦄ ⦃g : Growth⦄ ⦃l : Link⦄ (render : Reason → List ℕ) where
  -- If a client and a server are given configurations with int64 and uint64 fields or none at
  -- all, then once each has the other's first record, either may send as much on the connection
  -- as the other takes, a new stream with any identifier can send at one end if it can receive at
  -- the other and may send there as much as is taken here, and either may open as many streams of
  -- a direction as the other accepts.
  pub handshake_limits :
      (start now : ℕ) (client server : Option Config) (id : ℕ) (dir : Dir)
      → IsPassed client
      → IsPassed server
      → let a =
          (record_in render now (parameters_record (normalized server)) (dial start client)).conn in
        let b =
          (record_in render now
            (parameters_record (normalized client))
            (serve start server)).conn in
        IsMatched a b id dir × IsMatched b a id dir
  unfolding dial serve
  handshake_limits start now client server id dir u v =
      let m = handshake_conn render start now (normalized client) false server v in
      let n = handshake_conn render start now (normalized server) true client u in
      let p = filled (local_parameters (normalized client)) in
      let r = filled (local_parameters (normalized server)) in
      let x = matched (normalized client) (normalized server) false p id dir in
      let y = matched (normalized server) (normalized client) true r id dir in rw (m, n) (x, y)
