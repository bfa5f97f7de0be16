-- ===== src/Tests/Exchange.antt =====
-- Witnesses for streams between two connections.
use qmux_go.Base.{List, Option, [], arith, map, none, some, ℕ, ◌++◌, ◌<◌, ◌∷◌, ◌≡◌}
use qmux_go.Config.{Config, normalized, zero_config}
use qmux_go.Conn.Ids.{stream_id, two_way}
use qmux_go.Conn.Receive.{unread}
use qmux_go.Conn.Send.{send_credit_locked}
use qmux_go.Conn.Send.Whole.{payloads}
use qmux_go.Conn.State.{Stream, find}
use qmux_go.Endpoint.{parameters_record}
use qmux_go.Endpoint.Limits.{IsMatched, handshake_limits}
use qmux_go.Endpoint.Loops.{dial, record_in, serve}
use qmux_go.Exchange.{Ends, Move, far_handles, far_reads, far_reports, moves, near_writes}
use qmux_go.Exchange.Delivery.{
  IsRoomy, begun, stream_delivers, stream_keeps_limits, stream_never_stuck,
}
use qmux_go.Exchange.Draining.{IsReached}
use qmux_go.Exchange.Promises.{IsFirstFine}
use qmux_go.Tests.{exact_growth, steady_link}
use qmux_go.Varint.Rfc.{rfc9000}
use qmux_go.Wire.Error.{Reason}
use qmux_go.Wire.Frame.{stream}
use qmux_go.WriteLock.Scan.{scanned}

-- The text of a reason is left out.
abbrev silent : Reason → List ℕ
silent r = []

handshake_limits_example :
    let a = (record_in silent 1 (parameters_record (normalized none)) (dial 0 none)).conn in
    let b = (record_in silent 1 (parameters_record (normalized none)) (serve 0 none)).conn in
    IsMatched a b 2 two_way × IsMatched b a 2 two_way
handshake_limits_example = handshake_limits silent 0 1 none none 2 two_way tt tt

-- Both sides have small windows.
abbrev small_windows : Option Config
small_windows = some (record zero_config {
  initial_stream_receive_window = 4;
  initial_connection_receive_window = 8;
})

-- Five bytes are written, of which four may be sent; they arrive, and three are read.
abbrev small_moves : List Move
small_moves = near_writes (1 ∷ 2 ∷ 3 ∷ 4 ∷ 5 ∷ []) ∷ far_handles ∷ far_reads 3 ∷ far_reports ∷ []

small-IsRoomy : IsRoomy none small_windows two_way 5
unfolding qmux_go.Conn.State.new_conn qmux_go.Config.to_u64 normalized qmux_go.Config.stream_limit
    qmux_go.Config.receive_window
small-IsRoomy = record {
  client_passed = tt;
  server_passed = record { streams = omega arith; uni_streams = omega arith; idle = omega arith };
  some_stream = omega arith;
  stream_fits = omega arith;
  conn_fits = omega arith;
  stream_real = omega arith;
  conn_real = omega arith;
}

stream_delivers_example :
    let (e, w, r) = moves 1 0 (begun silent 0 1 none small_windows two_way) small_moves in
    (t : Stream) × (find 0 e.far.heap ≡ some t) × (w ≡ r ++ (unread t ++ payloads e.forth))
unfolding stream_id
stream_delivers_example =
    stream_delivers silent 0 1 none small_windows two_way small_moves small-IsRoomy

stream_keeps_limits_example :
    let e = (moves 1 0 (begun silent 0 1 none small_windows two_way) small_moves).0 in
    IsFirstFine 3 e.far (map stream e.forth) × IsFirstFine 3 e.near e.back
unfolding stream_id
stream_keeps_limits_example =
    stream_keeps_limits silent 0 1 none small_windows two_way small_moves small-IsRoomy 3

stream_never_stuck_example :
    let e = (moves 1 0 (begun silent 0 1 none small_windows two_way) small_moves).0 in
    (e' : Ends) × (s : Stream) × IsReached 1 0 e e'
    × (find 0 e'.near.heap ≡ some s)
    × (0 < send_credit_locked e'.near s)
unfolding stream_id
stream_never_stuck_example =
    stream_never_stuck silent 0 1 none small_windows two_way small_moves small-IsRoomy
