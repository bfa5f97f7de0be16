-- ===== src/Conn/Receive.antt =====
-- The receiving side: `handleStreamLocked`, `handleResetStreamLocked`, `receivedLocked` and
-- `consumeLocked` of qmux/conn.go, `bufferLocked`, `tryRead`, `tryPeek`, `readLocked`,
-- `cancelRead` and `setReadDeadline` of qmux/stream.go.
use qmux_go.Base.{
  List, [], add64, drop, false, if◌then◌else◌, is_some, leb, length, ltb, none, not, some, sub64,
  take, true, ℕ, ◌&&◌, ◌++◌, ◌+◌, ◌-◌, ◌/◌, ◌==◌, ◌||◌, ◌≤◌,
}
use qmux_go.Conn.Failure.{Failure, eof, stream_error}
use qmux_go.Conn.Ids.{stream_id}
use qmux_go.Conn.Signal.{broadcast, wait}
use qmux_go.Conn.State.{Conn, Stream, commit, queue_control}
use qmux_go.Conn.Streams.{complete_locked, recv_done}
use qmux_go.Wire.Error.{
  Error, Result, connection_flow_control, err, final_size_changed, final_size_error,
  final_size_over_limit, flow_control_error, ok, out_of_order, past_final_size, protocol_violation,
  stream_flow_control, stuck,
}
use qmux_go.Wire.Frame.{ResetStream, StreamFrame, max_stream_data, stop_sending}
use qmux_go.Wire.Parse.{read_offset}
use qmux_go.Wire.RoundTrip.Valid.{received}
pub mod Flow
pub mod Buffers
pub mod Cases
pub mod Invariant
pub mod Delivered

-- How much capacity Go's `append` gives a buffer that has to grow: the runtime's choice.
pub record Growth : Type 0 where
  pub grow : ℕ → ℕ → ℕ
  pub grow_enough : (old need : ℕ) → need ≤ grow old need

-- What handling a frame comes to: nothing to report, a violation by the peer, or the error that the
-- peer closed the connection with.
pub data Outcome : Type 0 where
  fine : Outcome
  violation : Error → Outcome
  closed : Failure → Outcome

unfoldable pub received_locked : Conn → ℕ → Result Conn
received_locked c n =
    if ltb c.recv_max (add64 c.received n)
    then err (record { code = flow_control_error; reason = connection_flow_control })
    else ok (record c { received = add64 c.received n })

-- The connection's limit is extended once half the window is used.
unfoldable pub consume_locked : Conn → ℕ → Conn
consume_locked c n =
    let consumed' = add64 c.consumed n in
    let window = c.config.initial_connection_receive_window in
    let c' = record c { consumed = consumed' } in
    if ltb (sub64 c.recv_max consumed') (window / 2)
    then record c' {
      recv_max = add64 consumed' window;
      max_data_pending = true;
      control_wake = true;
    }
    else c'

-- `rbuf[roff:]`.
abbrev pub unread : Stream → List ℕ
unread s = drop s.roff s.rbuf

-- The read part of the buffer is given up when the data would not fit.
unfoldable pub compact : Stream → List ℕ → Stream
compact s p =
    if ltb 0 s.roff && ltb s.rcap (length s.rbuf + length p)
    then record s { rbuf = unread s; roff = 0 }
    else s

-- The end of most operations: `completeLocked`, and the stream is stored.
unfoldable pub finished : Conn × Stream → Conn
finished (c, s) = commit (complete_locked c s)

module _ ⦃g : Growth⦄ where
  -- `append(rbuf, p...)`, with the capacity that the result has.
  unfoldable pub append_buffer : Stream → List ℕ → Stream
  append_buffer s p =
      let need = length s.rbuf + length p in
      record s { rbuf = s.rbuf ++ p; rcap = if ltb s.rcap need then g.grow s.rcap need else s.rcap }

  unfoldable pub buffer_locked : Stream → List ℕ → Stream
  unfolding compact append_buffer
  buffer_locked s p = append_buffer (compact s p) p

  -- The part of `handleStreamLocked` below its checks, up to `completeLocked`.
  unfoldable pub data_taken : Conn → Stream → StreamFrame → Conn × Stream
  data_taken c s f =
      let n = length f.payload in
      let s₁ = record s { recv_offset = add64 s.recv_offset n; fin_recv = f.fin } in
      let s₂ = if s.read_cancelled then s₁ else buffer_locked s₁ f.payload in
      (
        (if s.read_cancelled then consume_locked c n else c),
        record s₂ { read_signal = broadcast s₂.read_signal },
      )

  unfoldable pub accept_data : Conn → Stream → StreamFrame → Conn
  accept_data c s f = finished (data_taken c s f)

  -- `handleStreamLocked` below its call of `streamLocked`, on the stream that it found.
  unfoldable pub stream_data : Conn → Stream → StreamFrame → Conn × Outcome
  stream_data c s f =
      let n = length f.payload in
      if not (f.offset == s.recv_offset)
      then (c, violation (protocol_violation (out_of_order f.stream_id)))
      else if s.fin_recv || s.recv_reset
      then (
        c,
        (if ltb 0 n || (f.fin && not s.fin_recv)
            then violation
                (record { code = final_size_error; reason = past_final_size f.stream_id })
            else fine),
      )
      else if ltb s.recv_max (add64 s.recv_offset n)
      then (
        c,
        violation (record { code = flow_control_error; reason = stream_flow_control f.stream_id }),
      )
      else elim (received_locked c n) [
        | ok c' ↦ (accept_data c' s f, fine)
        | err e ↦ (c, violation e)
        | stuck ↦ (c, fine)
      ]

-- The part of `handleResetStreamLocked` below its checks. Data that was never sent counts too.
unfoldable pub reset_taken : Conn → Stream → ResetStream → Conn × Stream
reset_taken c s f =
    let skipped = sub64 f.final_size s.recv_offset in
    let c' = consume_locked c (add64 skipped (length s.rbuf - s.roff)) in
    let s' = record s {
      recv_offset = f.final_size;
      recv_reset = true;
      rbuf = [];
      rcap = 0;
      roff = 0;
      recv_err = if is_some s.recv_err then s.recv_err else some (stream_error s.id f.code true);
      read_signal = broadcast s.read_signal;
    } in
    (c', s')

unfoldable pub accept_reset : Conn → Stream → ResetStream → Conn
accept_reset c s f = finished (reset_taken c s f)

-- `handleResetStreamLocked` below its call of `streamLocked`, on the stream that it found.
unfoldable pub stream_reset : Conn → Stream → ResetStream → Conn × Outcome
stream_reset c s f =
    if ltb f.final_size s.recv_offset
      || ((s.fin_recv || s.recv_reset) && not (f.final_size == s.recv_offset))
    then (
      c,
      violation (record { code = final_size_error; reason = final_size_changed f.stream_id }),
    )
    else if s.recv_reset
    then (c, fine)
    else if ltb s.recv_max f.final_size
    then (
      c,
      violation (record { code = flow_control_error; reason = final_size_over_limit f.stream_id }),
    )
    else elim (received_locked c (sub64 f.final_size s.recv_offset)) [
      | ok c' ↦ (accept_reset c' s f, fine)
      | err e ↦ (c, violation e)
      | stuck ↦ (c, fine)
    ]

-- `readLocked`: the stream's limit is extended once half the window is used.
unfoldable pub read_locked : Conn → Stream → ℕ → Conn × Stream
read_locked c s n =
    let s' = record s { read_offset = add64 s.read_offset n } in
    let c' = consume_locked c n in
    let window = c.config.initial_stream_receive_window in
    let limit = add64 s'.read_offset window in
    if not s.fin_recv && ltb (sub64 s.recv_max s'.read_offset) (window / 2)
    then (
      queue_control c' (max_stream_data (record { stream_id = s.id; maximum = limit })),
      record s' { recv_max = limit },
    )
    else (c', s')

-- What `tryRead` and `tryPeek` return: data, a channel and a deadline to wait for, or an error,
-- with the data that came before it.
pub data Reading : Type 0 where
  data_read : List ℕ → Reading
  wait_for : ℕ → ℕ → Reading
  read_error : List ℕ → Failure → Reading

-- What is left in the buffer after `n` bytes are copied out of it.
unfoldable pub take_out : Stream → ℕ → Stream
take_out s n =
    if s.roff + n == length s.rbuf
    then record s { rbuf = []; roff = 0 }
    else record s { roff = s.roff + n }

-- What `tryRead` does with data at hand: it leaves the buffer and is accounted for.
unfoldable pub read_out : Conn → Stream → ℕ → Conn × Stream
read_out c s room = let n = length (take room (unread s)) in read_locked c (take_out s n) n

-- `tryRead` into a slice of `room` bytes. `s.rbuf[:0]` keeps the capacity.
unfoldable pub try_read : Conn → Stream → ℕ → Conn × Reading
try_read c s room = elim c.close_err [
  | some e ↦ (c, read_error [] e)
  | none ↦ elim s.recv_err [
    | some e ↦ (c, read_error [] e)
    | none ↦
        let p = take room (unread s) in
        let taken = read_out c s room in
        let (k, signal') = wait s.read_signal in
        if ltb s.roff (length s.rbuf)
        then (finished taken, data_read p)
        else if s.fin_recv
        then (c, read_error [] eof)
        else (commit (c, record s { read_signal = signal' }), wait_for k s.read_deadline)
  ]
]

-- `tryPeek` into a slice of `room` bytes.
unfoldable pub try_peek : Conn → Stream → ℕ → Conn × Reading
try_peek c s room = elim c.close_err [
  | some e ↦ (c, read_error [] e)
  | none ↦ elim s.recv_err [
    | some e ↦ (c, read_error [] e)
    | none ↦
        let (k, signal') = wait s.read_signal in
        if leb room (length (unread s))
        then (c, data_read (take room (unread s)))
        else if s.fin_recv
        then (c, read_error (take room (unread s)) eof)
        else (commit (c, record s { read_signal = signal' }), wait_for k s.read_deadline)
  ]
]

-- The part of `cancelRead` below its checks.
unfoldable pub reading_discarded : Conn → Stream → ℕ → Conn × Stream
reading_discarded c s code =
    let c₁ = consume_locked c (length s.rbuf - s.roff) in
    let c₂ =
      if s.fin_recv
      then c₁
      else queue_control c₁ (stop_sending (record { stream_id = s.id; code = code })) in
    let s' = record s {
      read_cancelled = true;
      recv_err = some (stream_error s.id code false);
      rbuf = [];
      rcap = 0;
      roff = 0;
      read_signal = broadcast s.read_signal;
    } in
    (c₂, s')

unfoldable pub cancel_read : Conn → Stream → ℕ → Conn
cancel_read c s code =
    if is_some c.close_err || (is_some s.recv_err || recv_done s)
    then c
    else finished (reading_discarded c s code)

unfoldable pub set_read_deadline : Conn → Stream → ℕ → Conn
set_read_deadline c s t =
    commit (c, record s { read_deadline = t; read_signal = broadcast s.read_signal })
