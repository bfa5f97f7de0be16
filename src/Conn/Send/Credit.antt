-- ===== src/Conn/Send/Credit.antt =====
-- `sendCreditLocked`, `reserve` and `writeChunk` of qmux/stream.go, and the peer's limits.
use qmux_go.Base.{
  List, ap, arith, drop, false, length, length-append, length-take, refl, take, take-append-drop, ℕ,
  ◌++◌, ◌+◌, ◌<◌, ◌^◌, ◌≡◌, ◌≤◌, ◌⊎◌,
}
use qmux_go.Conn.Send.{
  Reserved, chunk, chunk_of, max_stream_payload, no_reserve, reserve, reserved, send_credit_locked,
  write_chunk,
}
use qmux_go.Conn.State.{Conn, Stream}
use qmux_go.Varint.{Varint}
use qmux_go.Varint.Sizes.{encode_bounds}
use qmux_go.Wire.Frame.{StreamFrame, encode, encode_stream, stream}
use qmux_go.Wire.Params.{default_max_record_size}

-- Neither the stream nor the connection is past the limit that the peer set.
pub record IsCredit (c : Conn) (s : Stream) : Type 0 where
  pub stream_within : s.send_offset ≤ s.send_max
  pub within : c.sent ≤ c.send_max
  pub stream_small : s.send_max < 2 ^ 62
  pub small : c.send_max < 2 ^ 62

-- The credit of a stream that is within the peer's limits keeps to both of them, and there is
-- some unless one of them is reached.
pub send_credit_locked_exact :
    (c : Conn) (s : Stream)
    → IsCredit c s
    → (s.send_offset + send_credit_locked c s ≤ s.send_max)
      × (c.sent + send_credit_locked c s ≤ c.send_max)
      × ((0 < send_credit_locked c s) ⊎ ((s.send_offset ≡ s.send_max) ⊎ (c.sent ≡ c.send_max)))
unfolding send_credit_locked
send_credit_locked_exact c s v = ground arith

-- What a chunk of `p` is charged: it starts where the data before it ended, both counters grow by
-- its length and stay within the peer's limits, and it holds the first bytes of `p`.
pub record IsChunkOf (c : Conn) (s : Stream) (p : List ℕ) (c' : Conn) (s' : Stream)
    (f : StreamFrame) : Type 0 where
  pub at_offset : f.offset ≡ s.send_offset
  pub of_stream : f.stream_id ≡ s.id
  pub data_next : s'.send_offset ≡ f.offset + length f.payload
  pub charged : c'.sent ≡ c.sent + length f.payload
  pub still : IsCredit c' s'
  pub some_data : 0 < length f.payload
  pub not_last : f.fin ≡ false
  pub prefix_of : (rest : List ℕ) × (f.payload ++ rest ≡ p)

record IsReserved (c : Conn) (s : Stream) (n : ℕ) (c' : Conn) (s' : Stream) (offset amount : ℕ)
    : Type 0 where
  starts : offset ≡ s.send_offset
  stream_charged : s'.send_offset ≡ s.send_offset + amount
  conn_charged : c'.sent ≡ c.sent + amount
  credit_left : IsCredit c' s'
  in_record : amount ≤ max_stream_payload
  in_data : amount ≤ n

reserve-IsReserved :
    (c c' : Conn) (s s' : Stream) (n offset amount : ℕ)
    → IsCredit c s
    → reserve c s n ≡ (c', s', reserved offset amount)
    → IsReserved c s n c' s' offset amount
unfolding reserve
reserve-IsReserved c c' s s' n offset amount v e = ground (arith, send_credit_locked_exact c s v)

abbrev chunk_frame : ℕ → List ℕ → ℕ → ℕ → StreamFrame
chunk_frame id p offset n = record {
  stream_id = id;
  offset = offset;
  payload = take n p;
  fin = false;
}

chunk_of-chunk :
    (id : ℕ) (p : List ℕ) (r : Reserved) (f : StreamFrame)
    → chunk_of id p r ≡ chunk f
    → (offset : ℕ) × (n : ℕ) × (r ≡ reserved offset n) × (0 < n) × (f ≡ chunk_frame id p offset n)
unfolding chunk_of
chunk_of-chunk id p (reserved offset n) f e = (offset, n, refl, ground arith, ground arith)
chunk_of-chunk id p (no_reserve x) f e = ground arith

stream-length :
    ⦃q : Varint⦄ (f : StreamFrame)
    → f.stream_id < 2 ^ 62
    → f.offset < 2 ^ 62
    → length f.payload ≤ max_stream_payload
    → length (encode (stream f)) ≤ default_max_record_size
unfolding encode encode_stream
stream-length ⦃q⦄ f i o l =
    let a = encode_bounds f.stream_id i in
    let b = encode_bounds f.offset o in
    let d = encode_bounds (length f.payload) (omega arith) in
    simp length-append (ground (arith, a, b, d))

IsReserved-IsChunkOf :
    (c c' : Conn) (s s' : Stream) (p : List ℕ) (offset n : ℕ)
    → 0 < n
    → IsReserved c s (length p) c' s' offset n
    → IsChunkOf c s p c' s' (chunk_frame s.id p offset n)
IsReserved-IsChunkOf c c' s s' p offset n h r = record {
  at_offset = r.starts;
  of_stream = refl;
  data_next = omega (arith, r.stream_charged, r.starts, r.in_data, length-take n p);
  charged = omega (arith, r.conn_charged, r.in_data, length-take n p);
  still = r.credit_left;
  some_data = omega (arith, r.in_data, length-take n p);
  not_last = refl;
  prefix_of = (drop n p, take-append-drop n p);
}

-- For a stream and a connection within the peer's limits, which are below 2^62, and an identifier
-- below 2^62, a chunk that is written is charged exactly and follows the data before it, both
-- stay within the limits, and its STREAM frame fits a record of the default size.
pub write_chunk_charged :
    ⦃q : Varint⦄ (c c' : Conn) (s s' : Stream) (p : List ℕ) (f : StreamFrame)
    → IsCredit c s
    → s.id < 2 ^ 62
    → write_chunk c s p ≡ (c', s', chunk f)
    → IsChunkOf c s p c' s' f × (length (encode (stream f)) ≤ default_max_record_size)
unfolding write_chunk
write_chunk_charged c c' s s' p f v i e =
    let (offset, n, r, h, k) = chunk_of-chunk s.id p _ f (ap (λ t. t.2) e) in
    let g : reserve c s (length p) ≡ (c', s', reserved offset n) = cc in
    let a = reserve-IsReserved c c' s s' (length p) offset n v g in
    rw k (
      IsReserved-IsChunkOf c c' s s' p offset n h a,
      stream-length (chunk_frame s.id p offset n) i
          (omega (arith, a.starts, v.stream_within, v.stream_small))
          (omega (arith, length-take n p, a.in_record)),
    )
