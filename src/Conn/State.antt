-- ===== src/Conn/State.antt =====
-- The state of a connection and of its streams: the records of qmux/conn.go and qmux/stream.go.
-- Times and durations are nanoseconds. `heap` holds the stream objects that the source points to,
-- by identifier: every identifier is created once, so it stands for the pointer.
use qmux_go.Base.{
  Bool, List, Option, [], contains, false, if◌then◌else◌, none, some, true, ℕ, ◌++◌, ◌==◌, ◌∷◌,
}
use qmux_go.Config.{Config, to_u64}
use qmux_go.Conn.Failure.{Failure}
use qmux_go.Conn.Ids.{Dir, one_way, two_way}
use qmux_go.Conn.Signal.{Signal, no_signal}
use qmux_go.Wire.Frame.{Frame}
use qmux_go.Wire.Params.{Parameters, no_parameters}

pub record Both {ℓ} (A : Type ℓ) : Type ℓ where
  pub two_way_part : A
  pub one_way_part : A

module _ {ℓ} {A : Type ℓ} where
  abbrev pub at : Dir → Both A → A
  at two_way b = b.two_way_part
  at one_way b = b.one_way_part

  abbrev pub put_at : Dir → A → Both A → Both A
  put_at two_way a b = record b { two_way_part = a }
  put_at one_way a b = record b { one_way_part = a }

pub record Outgoing : Type 0 where
  pub next : ℕ
  pub max : ℕ
  pub signal : Signal

pub record Incoming : Type 0 where
  pub next : ℕ
  pub max : ℕ
  pub pending : Bool
  pub queue : List ℕ
  pub signal : Signal

pub record RttStats : Type 0 where
  pub min : ℕ
  pub latest : ℕ
  pub smoothed : ℕ
  pub deviation : ℕ

pub record Stream : Type 0 where
  pub id : ℕ
  -- The cause that `ctx` ended with on its own, without the connection's context.
  pub cancelled : Option Failure
  pub accepted : Bool
  pub done : Bool
  pub can_recv : Bool
  pub rbuf : List ℕ
  -- `cap(rbuf)`.
  pub rcap : ℕ
  pub roff : ℕ
  pub recv_offset : ℕ
  pub recv_max : ℕ
  pub read_offset : ℕ
  pub fin_recv : Bool
  pub recv_reset : Bool
  pub read_cancelled : Bool
  pub recv_err : Option Failure
  -- 0 is the zero time, which is no deadline.
  pub read_deadline : ℕ
  pub read_signal : Signal
  pub can_send : Bool
  pub urgency : ℕ
  pub incremental : Bool
  pub send_offset : ℕ
  pub send_max : ℕ
  pub fin_sent : Bool
  pub send_err : Option Failure
  pub write_deadline : ℕ
  pub write_signal : Signal

pub record Conn : Type 0 where
  pub config : Config
  pub is_server : Bool
  -- The cause that the connection's context ended with.
  pub cause : Option Failure
  -- Whether the channel `handshake` is closed.
  pub handshake : Bool
  pub close_err : Option Failure
  pub peer : Parameters
  pub ready : Bool
  -- The keys of the map `streams`.
  pub streams : List ℕ
  pub heap : List Stream
  pub outgoing : Both Outgoing
  pub incoming : Both Incoming
  pub send_max : ℕ
  pub sent : ℕ
  pub send_signal : Signal
  pub recv_max : ℕ
  pub received : ℕ
  pub consumed : ℕ
  pub control : List Frame
  pub max_data_pending : Bool
  pub pong_pending : Bool
  pub pong_sequence : ℕ
  pub ping_pending : Bool
  -- Whether the channel `controlWake`, of capacity 1, holds a token.
  pub control_wake : Bool
  pub idle_timeout : ℕ
  pub next_ping : ℕ
  pub ping_sent_at : ℕ
  pub ping_unanswered : Bool
  pub ping_unanswered_at : ℕ
  pub peer_pinged : Bool
  pub peer_ping_last : ℕ
  pub rtt : RttStats
  -- The channel `datagrams`, of capacity `datagram_queue_size`.
  pub datagrams : List (List ℕ)

abbrev pub datagram_queue_size : ℕ
datagram_queue_size = 100

-- A pointer is followed, and written through.
unfoldable pub find : ℕ → List Stream → Option Stream
find i [] = none
find i (s ∷ ss) = if s.id == i then some s else find i ss

unfoldable pub put : Stream → List Stream → List Stream
put s [] = []
put s (t ∷ ts) = if t.id == s.id then s ∷ ts else t ∷ put s ts

-- `c.streams[id]`; `none` is a nil stream.
unfoldable pub lookup_stream : Conn → ℕ → Option Stream
lookup_stream c id = if contains id c.streams then find id c.heap else none

-- `delete(c.streams, id)`.
unfoldable pub delete_stream : ℕ → List ℕ → List ℕ
delete_stream i [] = []
delete_stream i (j ∷ js) = if j == i then delete_stream i js else j ∷ delete_stream i js

-- The operations on a stream give back the connection and the stream; this stores the stream.
unfoldable pub commit : Conn × Stream → Conn
commit (c, s) = record c { heap = put s c.heap }

-- `wakeWriter`: a token is left if there is room.
abbrev pub wake_writer : Conn → Conn
wake_writer c = record c { control_wake = true }

-- `queueLocked`.
unfoldable pub queue_control : Conn → Frame → Conn
queue_control c f = record c { control = c.control ++ f ∷ []; control_wake = true }

-- `newConn`, without the goroutines that it starts.
unfoldable pub new_conn : Config → Bool → Conn
new_conn config is_server = record {
  config = config;
  is_server = is_server;
  cause = none;
  handshake = false;
  close_err = none;
  peer = no_parameters;
  ready = false;
  streams = [];
  heap = [];
  outgoing = record { two_way_part = no_outgoing; one_way_part = no_outgoing };
  incoming = record {
    two_way_part = new_incoming (to_u64 config.max_incoming_streams);
    one_way_part = new_incoming (to_u64 config.max_incoming_uni_streams);
  };
  send_max = 0;
  sent = 0;
  send_signal = no_signal;
  recv_max = config.initial_connection_receive_window;
  received = 0;
  consumed = 0;
  control = [];
  max_data_pending = false;
  pong_pending = false;
  pong_sequence = 0;
  ping_pending = false;
  control_wake = false;
  idle_timeout = to_u64 config.max_idle_timeout;
  next_ping = 0;
  ping_sent_at = 0;
  ping_unanswered = false;
  ping_unanswered_at = 0;
  peer_pinged = false;
  peer_ping_last = 0;
  rtt = record { min = 0; latest = 0; smoothed = 0; deviation = 0 };
  datagrams = [];
}
  where
    no_outgoing : Outgoing
    no_outgoing = record { next = 0; max = 0; signal = no_signal }

    new_incoming : ℕ → Incoming
    new_incoming limit = record {
      next = 0;
      max = limit;
      pending = false;
      queue = [];
      signal = no_signal;
    }
