-- ===== src/Transport/RoundTrip.antt =====
-- `writeRecord` of one endpoint and `readRecord` of the other, on a byte stream.
use qmux_go.Base.{
  List, [], ap, append_assoc, arith, drop, drop-length-append, if◌then◌else◌, length, length-append,
  le→ltb, ltb, refl, some, suc, sym, take, take-length-append, zero, ℕ, ◌++◌, ◌+◌, ◌-◌, ◌<◌, ◌^◌,
  ◌∙◌, ◌∷◌, ◌≡◌, ◌≤◌,
}
use qmux_go.Transport.{
  overwrite, read_record, read_sized, record_headroom, record_over, record_read, write_record,
}
use qmux_go.Varint.{Varint}

drop-take {ℓ} :
    {A : Type ℓ} (n : ℕ) (xs ys : List A) → n ≤ length xs → drop n (take n xs ++ ys) ≡ ys
drop-take zero xs ys h = refl
drop-take (suc n) [] ys h = absurd (omega arith)
drop-take (suc n) (x ∷ xs) ys h = drop-take n xs ys (omega arith)

drop-all {ℓ} : {A : Type ℓ} (n : ℕ) (xs ys : List A) → n ≡ length xs → drop n (xs ++ ys) ≡ ys
drop-all n xs ys e = rw e (drop-length-append xs ys)

-- Bytes written right before the end of the room stand right before what follows it.
overwrite-room :
    (room content xs : List ℕ)
    → length xs ≤ length room
    → drop (length room - length xs) (overwrite (length room - length xs) xs (room ++ content))
      ≡ xs ++ content
overwrite-room room content xs h =
    drop-take (length room - length xs) (room ++ content) _
      (omega (arith, length-append room content))
    ∙ ap (λ ys. xs ++ ys)
        (drop-all (length room - length xs + length xs) room content (omega arith))

read_sized-append :
    (limit : ℕ) (content tail : List ℕ)
    → read_sized limit (length content) (content ++ tail) ≡ (
        if ltb limit (length content)
        then record_over (length content) limit tail
        else record_read content tail)
unfolding read_sized
read_sized-append limit content tail =
    simp
      (
        le→ltb (length (content ++ tail)) (length content)
            (omega (arith, length-append content tail)),
        drop-length-append content tail,
        take-length-append content tail,
      )
      refl

module _ ⦃q : Varint⦄ where
  -- The Size field is written right before the record.
  write_record_sized :
      (room content : List ℕ)
      → length room ≡ record_headroom
      → length content < 2 ^ 62
      → write_record (room ++ content) ≡ q.encode (length content) ++ content
  unfolding write_record
  write_record_sized room content e h =
      let n : length (room ++ content) - 8 ≡ length content =
        omega (arith, length-append room content) in
      let k = q.length-encode (length content) h in
      let b = q.len_bounds (length content) h in
      rw n (
        rw (sym k)
          (rw (sym e) (overwrite-room room content (q.encode (length content)) (omega arith))))

  read_record_parsed :
      (limit : ℕ) (b : List ℕ) (n k : ℕ)
      → q.parse b ≡ some (n, k)
      → read_record limit b ≡ read_sized limit n (drop k b)
  unfolding read_record
  read_record_parsed limit b n k e = cc

  read_record_size :
      (limit n : ℕ) (tail : List ℕ)
      → n < 2 ^ 62
      → read_record limit (q.encode n ++ tail) ≡ read_sized limit n tail
  read_record_size limit n tail h =
      read_record_parsed limit (q.encode n ++ tail) n (q.len n) (q.parse-encode n tail h)
      ∙ ap (read_sized limit n) (drop-all (q.len n) (q.encode n) tail (sym (q.length-encode n h)))

  -- For a buffer with the headroom in front of a record of fewer than 2^62 bytes, what
  -- `writeRecord` sends is read back as the record, or reported and skipped if it is larger than
  -- the limit, and what follows it on the stream is left over in both cases.
  pub read_record-write_record :
      (limit : ℕ) (room content tail : List ℕ)
      → length room ≡ record_headroom
      → length content < 2 ^ 62
      → read_record limit (write_record (room ++ content) ++ tail) ≡ (
          if ltb limit (length content)
          then record_over (length content) limit tail
          else record_read content tail)
  read_record-write_record limit room content tail e h = rw (write_record_sized room content e h) (
      rw (append_assoc (q.encode (length content)) content tail) (
        read_record_size limit (length content) (content ++ tail) h
        ∙ read_sized-append limit content tail))
