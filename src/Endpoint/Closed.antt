-- ===== src/Endpoint/Closed.antt =====
-- The operations of qmux/conn.go and qmux/stream.go on a connection that has ended.
use qmux_go.Base.{List, Option-cases, [], arith, inl, inr, is_some, some, true, ℕ, ◌≡◌}
use qmux_go.Conn.Close.{terminate}
use qmux_go.Conn.Control.{flush_control, flush_records, take_control}
use qmux_go.Conn.Datagrams.{send_datagram}
use qmux_go.Conn.Failure.{Failure}
use qmux_go.Conn.Handle.Open.{SameEnd, SameOut-SameEnd}
use qmux_go.Conn.Receive.{Growth}
use qmux_go.Conn.Run.{Step, step}
use qmux_go.Conn.Run.Open.{step_same, take_control_same}
use qmux_go.Conn.Send.{
  chunk_of, close_send, fin_frame, finish, reserve, send_err_locked, write_chunk,
}
use qmux_go.Conn.State.{Conn, Stream}
use qmux_go.Endpoint.Acts.{is_call}
use qmux_go.Endpoint.Writers.{chunk_records, datagram_records, fin_records}
use qmux_go.Varint.{Varint}

abbrev pub IsClosedConn : Conn → Type 0
IsClosedConn c = is_some c.close_err ≡ true

pub terminate-IsClosedConn : (c : Conn) (x : Failure) → IsClosedConn (terminate c x).0
unfolding terminate
terminate-IsClosedConn c x = ground arith

close_err-some : (c : Conn) → IsClosedConn c → (x : Failure) × (c.close_err ≡ some x)
close_err-some c h = elim (Option-cases c.close_err) [
  | inl e ↦ ground (arith, h, e)
  | inr (x, e) ↦ (x, e)
]

send_err_closed : (c : Conn) (s : Stream) → IsClosedConn c → send_err_locked c s ≡ c.close_err
unfolding send_err_locked
send_err_closed c s h = ground (arith, h)

-- What the writers find to write.
pub write_chunk_closed :
    ⦃q : Varint⦄ (c : Conn) (s : Stream) (p : List ℕ)
    → IsClosedConn c
    → chunk_records (write_chunk c s p).2 ≡ []
unfolding write_chunk reserve chunk_of chunk_records
write_chunk_closed c s p h =
    let (x, e) = close_err-some c h in ground (arith, e, send_err_closed c s h)

pub close_send_closed :
    ⦃q : Varint⦄ (c : Conn) (s : Stream) → IsClosedConn c → fin_records (close_send c s).1 ≡ []
unfolding close_send finish fin_frame fin_records
close_send_closed c s h = let (x, e) = close_err-some c h in ground (arith, e)

pub flush_control_closed :
    ⦃q : Varint⦄ (now : ℕ) (c : Conn) → IsClosedConn c → (flush_control now c).1 ≡ []
unfolding flush_control take_control flush_records
flush_control_closed now c h = ground (arith, h)

pub send_datagram_closed :
    ⦃q : Varint⦄ (c : Conn) (p : List ℕ)
    → IsClosedConn c
    → datagram_records (send_datagram c p) ≡ []
unfolding send_datagram datagram_records
send_datagram_closed c p h = let (x, e) = close_err-some c h in ground (arith, e)

-- And the connection stays ended.
pub flush_control_same : ⦃q : Varint⦄ (now : ℕ) (c : Conn) → SameEnd c (flush_control now c).0
unfolding flush_control
flush_control_same now c = SameOut-SameEnd c (take_control now c).0 (take_control_same now c)

pub call_same : ⦃g : Growth⦄ (c : Conn) (t : Step) → is_call t ≡ true → SameEnd c (step c t)
call_same c t h = step_same c t (ground (arith, h))
