-- ===== src/Conn/Run/Cases.antt =====
-- The states that the operations outside the receiving side leave behind.
use qmux_go.Base.{List, [], arith, if-elim, is_some, true, ℕ, ◌+◌, ◌∙◌, ◌≡◌, ◌⊎◌}
use qmux_go.Conn.Control.{take_control, take_max_data, take_max_streams, take_ping, take_pong}
use qmux_go.Conn.Handle.Accounting.{SameFlow}
use qmux_go.Conn.Ids.{Dir, one_way, stream_id, two_way}
use qmux_go.Conn.Receive.{finished}
use qmux_go.Conn.Send.{close_send, fin_marked, finish, try_send}
use qmux_go.Conn.Signal.{wait}
use qmux_go.Conn.State.{Conn, Stream, at, commit, put_at}
use qmux_go.Conn.Streams.{accept_from, fresh_stream, new_stream, try_accept, try_open}
use qmux_go.Wire.Frame.{Frame}

pub try_send_cases :
    (now : ℕ) (c : Conn) (s : Stream)
    → ((try_send now c s).0 ≡ c)
      ⊎ ((try_send now c s).0
          ≡ commit (
            record c { send_signal = (wait c.send_signal).1 },
            record s { write_signal = (wait s.write_signal).1 },
          ))
unfolding try_send
try_send_cases now c s = ground arith

pub close_send_cases :
    (c : Conn) (s : Stream)
    → ((close_send c s).0 ≡ c) ⊎ ((close_send c s).0 ≡ finished (c, fin_marked s))
unfolding close_send finish
close_send_cases c s = ground arith

-- The next identifier that this endpoint opens, and its stream.
abbrev pub next_id : Conn → Dir → ℕ
next_id c dir = stream_id c.is_server (at dir c.outgoing).next dir true

abbrev pub opened : Conn → Dir → Stream
opened c dir = record (fresh_stream c (next_id c dir)) { accepted = true }

pub try_open_cases :
    (c : Conn) (dir : Dir)
    → ((try_open c dir).0 ≡ c)
      ⊎ (((try_open c dir).0 ≡ record c {
        outgoing =
            put_at dir
              (record (at dir c.outgoing) { signal = (wait (at dir c.outgoing).signal).1 })
              c.outgoing;
      })
          ⊎ ((try_open c dir).0 ≡ record (new_stream c (opened c dir)) {
            outgoing =
                put_at dir
                  (record (at dir c.outgoing) { next = (at dir c.outgoing).next + 1 })
                  c.outgoing;
          }))
unfolding try_open
try_open_cases c dir = ground arith

pub try_accept_cases :
    (c : Conn) (dir : Dir)
    → ((try_accept c dir).0 ≡ c)
      ⊎ ((try_accept c dir).0 ≡ (accept_from c dir (at dir c.incoming).queue).0)
unfolding try_accept
try_accept_cases c dir = ground arith

SameFlow-trans : (c d e : Conn) → SameFlow c d → SameFlow d e → SameFlow c e
SameFlow-trans c d e h k = record {
  heap_same = k.heap_same ∙ h.heap_same;
  config_same = k.config_same ∙ h.config_same;
  received_same = k.received_same ∙ h.received_same;
  recv_max_same = k.recv_max_same ∙ h.recv_max_same;
  consumed_same = k.consumed_same ∙ h.consumed_same;
}

take_max_data-SameFlow : (a : Conn × List Frame) → SameFlow a.0 (take_max_data a).0
unfolding take_max_data
take_max_data-SameFlow (c, fs) = ground arith

take_max_streams-SameFlow :
    (dir : Dir) (a : Conn × List Frame) → SameFlow a.0 (take_max_streams dir a).0
unfolding take_max_streams
take_max_streams-SameFlow dir (c, fs) = ground arith

take_pings-SameFlow :
    (now : ℕ) (a : Conn × List Frame) → SameFlow a.0 (take_ping now (take_pong a)).0
unfolding take_ping take_pong
take_pings-SameFlow now (c, fs) = ground arith

pub take_control-SameFlow : (now : ℕ) (c : Conn) → SameFlow c (take_control now c).0
unfolding take_control
take_control-SameFlow now c =
    if-elim (λ (a : Conn × List Frame). SameFlow c a.0) (is_some c.close_err) _ _ (ground arith)
      all_taken
  where
    a₀ : Conn × List Frame
    a₀ = (record c { control = [] }, c.control)

    a₁ : Conn × List Frame
    a₁ = take_max_data a₀

    a₂ : Conn × List Frame
    a₂ = take_max_streams two_way a₁

    all_taken : SameFlow c (take_ping now (take_pong (take_max_streams one_way a₂))).0
    all_taken =
        SameFlow-trans c a₂.0 _
          (SameFlow-trans c a₁.0 a₂.0
            (SameFlow-trans c a₀.0 a₁.0 (ground arith) (take_max_data-SameFlow a₀))
            (take_max_streams-SameFlow two_way a₁))
          (SameFlow-trans a₂.0 (take_max_streams one_way a₂).0 _
            (take_max_streams-SameFlow one_way a₂)
            (take_pings-SameFlow now (take_max_streams one_way a₂)))
