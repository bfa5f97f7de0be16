-- ===== src/Transport.antt =====
-- The records of qmux/transport.go: `readRecord` and `writeRecord` of both transports. The bytes
-- of the underlying connection, and its messages, are lists.
use qmux_go.Base.{List, [], drop, if◌then◌else◌, length, ltb, none, some, take, ℕ, ◌++◌, ◌+◌, ◌-◌}
use qmux_go.Varint.{Varint}
pub mod RoundTrip
pub mod Links

-- The room that a buffer has in front for the Size field.
abbrev pub record_headroom : ℕ
record_headroom = 8

-- What `readRecord` returns, with the bytes that are left to read: the record, the size and the
-- limit of a record that is too large, or the error of a stream that ends.
pub data ReadRecord : Type 0 where
  record_read : List ℕ → List ℕ → ReadRecord
  record_over : ℕ → ℕ → List ℕ → ReadRecord
  stream_ended : ReadRecord

-- Writing over a part of a buffer, from a start.
abbrev pub overwrite : ℕ → List ℕ → List ℕ → List ℕ
overwrite start xs buf = take start buf ++ (xs ++ drop (start + length xs) buf)

-- Reading `size` bytes of a stream: they are skipped if they are more than the limit.
unfoldable pub read_sized : ℕ → ℕ → List ℕ → ReadRecord
read_sized limit size b =
    if ltb (length b) size
    then stream_ended
    else if ltb limit size
    then record_over size limit (drop size b)
    else record_read (take size b) (drop size b)

module _ ⦃q : Varint⦄ where
  -- On a byte stream. `quicvarint.Read` reads what `Parse` parses.
  unfoldable pub read_record : ℕ → List ℕ → ReadRecord
  read_record limit b = elim (q.parse b) [
    | none ↦ stream_ended
    | some (size, n) ↦ read_sized limit size (drop n b)
  ]

  -- What is written to the stream for a buffer that starts with the headroom.
  unfoldable pub write_record : List ℕ → List ℕ
  write_record buf =
      let size = length buf - record_headroom in
      let start = record_headroom - q.len size in drop start (overwrite start (q.encode size) buf)

-- On messages, which keep their boundaries: the message or its size and the limit.
unfoldable pub read_message : ℕ → List ℕ → ReadRecord
read_message limit p =
    if ltb limit (length p) then record_over (length p) limit [] else record_read p []

abbrev pub write_message : List ℕ → List ℕ
write_message buf = drop record_headroom buf
