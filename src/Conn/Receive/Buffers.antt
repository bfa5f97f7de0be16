-- ===== src/Conn/Receive/Buffers.antt =====
-- One stream's receive buffer and limits.
use qmux_go.Base.{
  Bool, Bool-cases, List, arith, drop-append, false, inl, inr, length, length-append, length-drop,
  ltb, true, ℕ, ◌&&◌, ◌++◌, ◌+◌, ◌-◌, ◌<◌, ◌||◌, ◌≡◌, ◌≤◌, ◌⊎◌,
}
use qmux_go.Conn.Receive.{Growth, buffer_locked, unread}
use qmux_go.Conn.State.{Conn, Stream}
use qmux_go.Conn.Streams.{complete_locked, fresh_stream, recv_done}

abbrev pub unread_length : Stream → ℕ
unread_length s = length s.rbuf - s.roff

abbrev pub stream_window : Conn → ℕ
stream_window c = c.config.initial_stream_receive_window

-- A stream whose data nobody will read holds none.
abbrev pub discards : Stream → Bool
discards s = s.recv_reset || s.read_cancelled

-- The state of a stream's receiving side under a window `w`.
pub record IsReceiving (w : ℕ) (s : Stream) : Type 0 where
  -- The read part never reaches the end of the buffer, where it would be given up.
  pub roff_lt : (s.roff ≡ 0) ⊎ (s.roff < length s.rbuf)
  pub dropped : discards s ≡ true → length s.rbuf ≡ 0
  -- Nothing can be sent on a stream that only sends.
  pub none_allowed : s.can_recv ≡ false → s.recv_max ≡ 0
  pub within : s.recv_offset ≤ s.recv_max
  pub ahead : s.recv_max ≤ s.read_offset + w
  pub read_le : s.read_offset + unread_length s ≤ s.recv_offset

-- What is received and unread fits the window.
pub unread-le-window : (w : ℕ) (s : Stream) → IsReceiving w s → unread_length s ≤ w
unread-le-window w s v = omega arith

-- A finished direction holds nothing unread, so forgetting the buffer loses nothing.
pub recv_done-unread :
    (w : ℕ) (s : Stream) → IsReceiving w s → recv_done s ≡ true → unread_length s ≡ 0
unfolding recv_done
recv_done-unread w s v e = ground (arith, v.dropped)

pub fresh_stream-IsReceiving :
    (c : Conn) (id : ℕ) → IsReceiving (stream_window c) (fresh_stream c id)
unfolding fresh_stream
fresh_stream-IsReceiving c id = ground arith

pub complete_locked-IsReceiving :
    (w : ℕ) (c : Conn) (s : Stream) → IsReceiving w s → IsReceiving w (complete_locked c s).1
unfolding complete_locked
complete_locked-IsReceiving w c s v = ground (arith, recv_done-unread w s v)

pub complete_locked-unread :
    (w : ℕ) (c : Conn) (s : Stream)
    → IsReceiving w s
    → unread_length (complete_locked c s).1 ≡ unread_length s
unfolding complete_locked
complete_locked-unread w c s v = ground (arith, recv_done-unread w s v)

module _ ⦃g : Growth⦄ where
  -- If the read offset is within the buffer, buffering appends to what is unread, whether or not
  -- the buffer is compacted.
  pub unread-buffer_locked :
      (s : Stream) (p : List ℕ)
      → s.roff ≤ length s.rbuf
      → unread (buffer_locked s p) ≡ unread s ++ p
  unfolding buffer_locked
  unread-buffer_locked s p h =
      elim (Bool-cases (ltb 0 s.roff && ltb s.rcap (length s.rbuf + length p))) [
        | inl e ↦ rw e
        | inr e ↦ rw e (drop-append s.roff s.rbuf p h)
      ]

  pub buffer_locked-length :
      (s : Stream) (p : List ℕ)
      → s.roff ≤ length s.rbuf
      → unread_length (buffer_locked s p) ≡ unread_length s + length p
  unfolding buffer_locked
  buffer_locked-length s p h =
      ground (arith, length-append s.rbuf p, length-append (unread s) p, length-drop s.roff s.rbuf)

  -- A stream that takes data keeps its state in order: the data is within its limit, and is kept
  -- only if somebody will read it.
  pub buffer_locked-IsReceiving :
      (w n : ℕ) (s : Stream) (p : List ℕ) (fin : Bool)
      → IsReceiving w s
      → discards s ≡ false
      → length p ≡ n
      → s.recv_offset + n ≤ s.recv_max
      → IsReceiving w
          (buffer_locked (record s { recv_offset = s.recv_offset + n; fin_recv = fin }) p)
  unfolding buffer_locked
  buffer_locked-IsReceiving w n s p fin v d e h =
      ground (arith, length-append s.rbuf p, length-append (unread s) p, length-drop s.roff s.rbuf)

  -- For a buffer within its capacity and a read offset within the buffer, data that fits behind
  -- what is unread is buffered without a new array: the buffer never grows for bytes that were
  -- read.
  pub buffer_locked_fits :
      (s : Stream) (p : List ℕ)
      → length s.rbuf ≤ s.rcap
      → s.roff ≤ length s.rbuf
      → unread_length s + length p ≤ s.rcap
      → ((buffer_locked s p).rcap ≡ s.rcap) × (length (buffer_locked s p).rbuf ≤ s.rcap)
  unfolding buffer_locked
  buffer_locked_fits s p k h f =
      ground (arith, length-append s.rbuf p, length-append (unread s) p, length-drop s.roff s.rbuf)
