-- ===== src/Conn/Receive/Invariant/Steps.antt =====
-- The parts of the receiving operations, on a connection with one of its streams taken apart.
use qmux_go.Base.{
  Bool-cases, arith, false, inl, inr, length, length-append, length-drop, length-take, true, ℕ, ◌+◌,
  ◌-◌, ◌<◌, ◌^◌, ◌≡◌, ◌≤◌,
}
use qmux_go.Conn.Heap.{Keeps, complete_locked-Keeps}
use qmux_go.Conn.Receive.{
  Growth, buffer_locked, consume_locked, data_taken, read_locked, read_out, reading_discarded,
  received_locked, reset_taken, take_out, unread,
}
use qmux_go.Conn.Receive.Buffers.{
  complete_locked-IsReceiving, complete_locked-unread, discards, stream_window, unread_length,
}
use qmux_go.Conn.Receive.Flow.{InRange, IsFlow}
use qmux_go.Conn.Receive.Invariant.Heap.{IsPair}
use qmux_go.Conn.State.{Conn, Stream, queue_control}
use qmux_go.Conn.Streams.{allow_another, complete_locked}
use qmux_go.Wire.Error.{ok}
use qmux_go.Wire.Frame.{ResetStream, StreamFrame}

-- `Keeps` for the parts.
pub consume_locked-kept :
    (c : Conn) (n : ℕ)
    → ((consume_locked c n).heap ≡ c.heap)
      × ((consume_locked c n).config ≡ c.config)
      × ((consume_locked c n).received ≡ c.received)
unfolding consume_locked
consume_locked-kept c n = ground arith

pub received_locked-kept :
    (c c' : Conn) (n : ℕ)
    → received_locked c n ≡ ok c'
    → (c'.heap ≡ c.heap) × (c'.config ≡ c.config)
unfolding received_locked
received_locked-kept c c' n e = ground arith

complete_locked-IsFlow :
    (c : Conn) (s : Stream) (b : ℕ) → IsFlow c b → IsFlow (complete_locked c s).0 b
unfolding complete_locked allow_another
complete_locked-IsFlow c s b v = ground arith

complete_locked-same :
    (c : Conn) (s : Stream)
    → ((complete_locked c s).1.recv_offset ≡ s.recv_offset)
      × ((complete_locked c s).0.received ≡ c.received)
unfolding complete_locked allow_another
complete_locked-same c s = ground arith

-- Streams stay within the range of a uint64, as the connection does.
module _ (rest others : ℕ) where
  pub complete_locked-IsPair :
      (c : Conn) (s : Stream)
      → IsPair rest others c s
      → IsPair rest others (complete_locked c s).0 (complete_locked c s).1
  complete_locked-IsPair c s v =
      let k = complete_locked-Keeps c s in
      record {
        flow =
            rw (complete_locked-unread (stream_window c) c s v.receiving)
              (complete_locked-IsFlow c s (unread_length s + rest) v.flow);
        total = omega (arith, complete_locked-same c s, v.total);
        receiving =
            rw (stream_window, k.config_kept)
              (complete_locked-IsReceiving (stream_window c) c s v.receiving);
        stream_window_small = rw (stream_window, k.config_kept) v.stream_window_small;
      }

  -- What was received on one stream is within the range of the connection.
  pub recv_max_small :
      (c : Conn) (s : Stream) → InRange c → IsPair rest others c s → s.recv_max < 2 ^ 63 + 2 ^ 62
  recv_max_small c s r v = omega (arith, v.total, v.receiving.ahead, v.receiving.read_le)

  -- Data that keeps to both limits, on a stream that nobody reads, and on one that is read.
  module _ ⦃g : Growth⦄ where
    data_taken_discarded :
        (c c' : Conn) (s : Stream) (f : StreamFrame)
        → InRange c
        → length f.payload < 2 ^ 62
        → s.read_cancelled ≡ true
        → s.recv_offset + length f.payload ≤ s.recv_max
        → received_locked c (length f.payload) ≡ ok c'
        → IsPair rest others c s
        → IsPair rest others (data_taken c' s f).0 (data_taken c' s f).1
          × Keeps c s (data_taken c' s f)
    unfolding data_taken consume_locked received_locked
    data_taken_discarded c c' s f r n cancelled fits e v = ground (arith, recv_max_small c s r v)

    data_taken_kept :
        (c c' : Conn) (s : Stream) (f : StreamFrame)
        → InRange c
        → length f.payload < 2 ^ 62
        → discards s ≡ false
        → s.recv_offset + length f.payload ≤ s.recv_max
        → received_locked c (length f.payload) ≡ ok c'
        → IsPair rest others c s
        → IsPair rest others (data_taken c' s f).0 (data_taken c' s f).1
          × Keeps c s (data_taken c' s f)
    unfolding data_taken received_locked buffer_locked
    data_taken_kept c c' s f r n keeps fits e v = ground (
      arith,
      recv_max_small c s r v,
      length-append s.rbuf f.payload,
      length-append (unread s) f.payload,
      length-drop s.roff s.rbuf,
    )

    pub data_taken-IsPair :
        (c c' : Conn) (s : Stream) (f : StreamFrame)
        → InRange c
        → length f.payload < 2 ^ 62
        → s.recv_reset ≡ false
        → s.recv_offset + length f.payload ≤ s.recv_max
        → received_locked c (length f.payload) ≡ ok c'
        → IsPair rest others c s
        → IsPair rest others (data_taken c' s f).0 (data_taken c' s f).1
          × Keeps c s (data_taken c' s f)
    data_taken-IsPair c c' s f r n reset fits e v = elim (Bool-cases s.read_cancelled) [
      | inl h ↦ data_taken_discarded c c' s f r n h fits e v
      | inr h ↦ data_taken_kept c c' s f r n (ground arith) fits e v
    ]

  pub reset_taken-IsPair :
      (c c' : Conn) (s : Stream) (f : ResetStream)
      → InRange c
      → s.recv_offset ≤ f.final_size
      → f.final_size ≤ s.recv_max
      → received_locked c (f.final_size - s.recv_offset) ≡ ok c'
      → IsPair rest others c s
      → IsPair rest others (reset_taken c' s f).0 (reset_taken c' s f).1
        × Keeps c s (reset_taken c' s f)
  unfolding reset_taken consume_locked received_locked
  reset_taken-IsPair c c' s f r lo hi e v = ground (arith, recv_max_small c s r v)

  pub read_out-IsPair :
      (c : Conn) (s : Stream) (room : ℕ)
      → InRange c
      → s.roff < length s.rbuf
      → IsPair rest others c s
      → IsPair rest others (read_out c s room).0 (read_out c s room).1
        × Keeps c s (read_out c s room)
  unfolding read_out read_locked take_out consume_locked queue_control
  read_out-IsPair c s room r some_left v =
      ground (arith, recv_max_small c s r v, length-take room (unread s), length-drop s.roff s.rbuf)

  pub reading_discarded-IsPair :
      (c : Conn) (s : Stream) (code : ℕ)
      → InRange c
      → IsPair rest others c s
      → IsPair rest others (reading_discarded c s code).0 (reading_discarded c s code).1
        × Keeps c s (reading_discarded c s code)
  unfolding reading_discarded consume_locked queue_control
  reading_discarded-IsPair c s code r v = ground (arith, recv_max_small c s r v)
