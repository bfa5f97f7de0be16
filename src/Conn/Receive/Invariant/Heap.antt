-- ===== src/Conn/Receive/Invariant/Heap.antt =====
-- Sums over the streams of a connection.
use qmux_go.Base.{All, List, arith, some, ℕ, ◌+◌, ◌-◌, ◌<◌, ◌^◌, ◌≡◌}
use qmux_go.Conn.Heap.{All-put, Keeps, find-All, sum_by, sum_by-commit, sum_by-find}
use qmux_go.Conn.Receive.Buffers.{IsReceiving, stream_window, unread_length}
use qmux_go.Conn.Receive.Flow.{IsFlow}
use qmux_go.Conn.State.{Conn, Stream, commit, find}

-- What the streams hold unread.
abbrev pub buffered : List Stream → ℕ
buffered = sum_by unread_length

-- What was received on the streams, data that a reset skipped included.
abbrev pub total_received : List Stream → ℕ
total_received = sum_by (λ s. s.recv_offset)

-- The receiving state of a connection with all its streams.
pub record IsConn (c : Conn) : Type 0 where
  pub flow : IsFlow c (buffered c.heap)
  pub total : total_received c.heap ≡ c.received
  pub receiving : All (IsReceiving (stream_window c)) c.heap
  pub stream_window_small : stream_window c < 2 ^ 62

-- The same with one stream apart from the others, which hold `rest` unread and received `others`.
pub record IsPair (rest others : ℕ) (c : Conn) (s : Stream) : Type 0 where
  pub flow : IsFlow c (unread_length s + rest)
  pub total : s.recv_offset + others ≡ c.received
  pub receiving : IsReceiving (stream_window c) s
  pub stream_window_small : stream_window c < 2 ^ 62

-- Taking a stream of the connection apart.
pub IsConn-IsPair :
    (c : Conn) (s : Stream)
    → find s.id c.heap ≡ some s
    → IsConn c
    → IsPair (buffered c.heap - unread_length s) (total_received c.heap - s.recv_offset) c s
IsConn-IsPair c s e v = record {
  flow = record {
    balance = omega (arith, sum_by-find unread_length s.id c.heap s e, v.flow.balance);
    within = v.flow.within;
    ahead = v.flow.ahead;
    window_small = v.flow.window_small;
  };
  total = omega (arith, sum_by-find (λ t. t.recv_offset) s.id c.heap s e, v.total);
  receiving = find-All (IsReceiving (stream_window c)) s.id c.heap s v.receiving e;
  stream_window_small = v.stream_window_small;
}

-- And putting it back, changed.
pub commit-IsConn :
    (c : Conn) (s : Stream) (r : Conn × Stream)
    → find s.id c.heap ≡ some s
    → IsConn c
    → Keeps c s r
    → IsPair (buffered c.heap - unread_length s) (total_received c.heap - s.recv_offset) r.0 r.1
    → IsConn (commit r)
unfolding commit
commit-IsConn c s r e v k p = record {
  flow = record {
    balance = omega (arith, sum_by-commit unread_length c s r e k, p.flow.balance);
    within = p.flow.within;
    ahead = p.flow.ahead;
    window_small = p.flow.window_small;
  };
  total = omega (arith, sum_by-commit (λ t. t.recv_offset) c s r e k, p.total);
  receiving = rw k.heap_kept (
      All-put (IsReceiving (stream_window r.0)) r.1 c.heap (rw k.config_kept v.receiving)
        p.receiving);
  stream_window_small = p.stream_window_small;
}
