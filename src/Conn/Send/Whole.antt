-- ===== src/Conn/Send/Whole.antt =====
-- `write` of qmux/stream.go: the loop that waits for credit and sends a chunk, until the data is
-- sent. Each round finds the connection and the stream as others have left them.
use qmux_go.Base.{
  List, Option, [], ap, arith, drop, drop-length-append, false, inl, inr, length, length-append,
  none, refl, some, subst, suc, sym, take, ℕ, ◌++◌, ◌+◌, ◌<◌, ◌^◌, ◌∙◌, ◌∷◌, ◌≡◌, ◌≤◌, ◌⊎◌,
}
use qmux_go.Conn.Failure.{Failure}
use qmux_go.Conn.Send.{Chunk, chunk, chunk_error, chunk_of, no_chunk, reserve, write_chunk}
use qmux_go.Conn.Send.Credit.{IsChunkOf, IsCredit, write_chunk_charged}
use qmux_go.Conn.State.{Conn, Stream}
use qmux_go.Varint.{Varint}
use qmux_go.Wire.Frame.{StreamFrame, encode, stream}
use qmux_go.Wire.Params.{default_max_record_size}

-- A round: `waitSendCredit` fails, or `writeChunk` has its turn, and the transport takes the record
-- or fails, with the cause that the connection has ended with.
pub data Round : Type 0 where
  no_credit : Failure → Round
  turn_of : Conn → Stream → Option Failure → Round

-- How `write` ends: with all of the data sent, with an error, or not yet, after the rounds.
pub data WriteEnd : Type 0 where
  whole : WriteEnd
  stopped : Failure → WriteEnd
  unfinished : WriteEnd

-- The frames that are sent, how many bytes `write` counts, and how it ends.
unfoldable pub write_loop : List Round → List ℕ → List StreamFrame × ℕ × WriteEnd
write_loop [] [] = ([], 0, whole)
write_loop [] (b ∷ p) = ([], 0, unfinished)
write_loop (r ∷ rounds) [] = ([], 0, whole)
write_loop (no_credit e ∷ rounds) (b ∷ p) = ([], 0, stopped e)
write_loop (turn_of c s lost ∷ rounds) (b ∷ p) = elim (write_chunk c s (b ∷ p)).2 [
  | chunk f ↦ elim lost [
    | some e ↦ ([], 0, stopped e)
    | none ↦
        let (fs, n, end) = write_loop rounds (drop (length f.payload) (b ∷ p)) in
        (f ∷ fs, length f.payload + n, end)
  ]
  | no_chunk ↦ write_loop rounds (b ∷ p)
  | chunk_error e ↦ ([], 0, stopped e)
]

-- What a round leaves of the data.
abbrev pub unsent : Chunk → List ℕ → List ℕ
unsent (chunk f) p = drop (length f.payload) p
unsent no_chunk p = p
unsent (chunk_error e) p = p

-- Nobody else sends on the stream between the rounds, and the peer's limits are kept.
abbrev pub IsContinued : ℕ → ℕ → List Round → List ℕ → Type 0
IsContinued id o [] p = Unit {0}
IsContinued id o (no_credit e ∷ rounds) p = Unit {0}
IsContinued id o (turn_of c s lost ∷ rounds) p =
    (s.id ≡ id)
    × (s.send_offset ≡ o)
    × IsCredit c s
    × IsContinued id (write_chunk c s p).1.send_offset rounds (unsent (write_chunk c s p).2 p)

-- The frames carry on from an offset, and each fits a record.
abbrev pub IsContiguous : ⦃q : Varint⦄ → ℕ → ℕ → List StreamFrame → Type 0
IsContiguous id o [] = Unit {0}
IsContiguous id o (f ∷ fs) =
    (f.stream_id ≡ id)
    × (f.offset ≡ o)
    × (f.fin ≡ false)
    × (length (encode (stream f)) ≤ default_max_record_size)
    × IsContiguous id (o + length f.payload) fs

unfoldable pub payloads : List StreamFrame → List ℕ
payloads [] = []
payloads (f ∷ fs) = f.payload ++ payloads fs

pub record IsWritten ⦃q : Varint⦄ (id o : ℕ) (p : List ℕ) (fs : List StreamFrame) (n : ℕ)
    (end : WriteEnd) : Type 0 where
  pub contiguous : IsContiguous id o fs
  pub sent : payloads fs ≡ take n p
  pub within : n ≤ length p
  pub complete : end ≡ whole → n ≡ length p

take-append {ℓ} :
    {A : Type ℓ} (n : ℕ) (xs ys : List A) → take (length xs + n) (xs ++ ys) ≡ xs ++ take n ys
take-append n [] ys = ap (λ m. take m ys) (omega arith)
take-append n (x ∷ xs) ys =
    let e : length (x ∷ xs) + n ≡ suc (length xs + n) = omega arith in
    ap (λ m. take m (x ∷ xs ++ ys)) e ∙ ap (λ zs. x ∷ zs) (take-append n xs ys)

no_chunk_stays :
    (c : Conn) (s : Stream) (p : List ℕ)
    → IsCredit c s
    → (write_chunk c s p).2 ≡ no_chunk
    → (write_chunk c s p).1.send_offset ≡ s.send_offset
unfolding write_chunk chunk_of reserve
no_chunk_stays c s p v h = ground (arith, h, v.stream_within, v.stream_small)

Chunk-cases :
    (k : Chunk)
    → ((f : StreamFrame) × (k ≡ chunk f)) ⊎ ((k ≡ no_chunk) ⊎ ((e : Failure) × (k ≡ chunk_error e)))
Chunk-cases (chunk f) = inl (f, refl)
Chunk-cases no_chunk = inr (inl refl)
Chunk-cases (chunk_error e) = inr (inr (e, refl))

module _ ⦃q : Varint⦄ (id : ℕ) (i : id < 2 ^ 62) where
  -- Nothing is sent.
  nothing-IsWritten :
      (o : ℕ) (p : List ℕ) (end : WriteEnd)
      → (end ≡ whole → 0 ≡ length p)
      → IsWritten id o p [] 0 end
  unfolding payloads
  nothing-IsWritten o p end h = record {
    contiguous = tt;
    sent = refl;
    within = omega arith;
    complete = h;
  }

  -- A chunk is sent, and the rest follows it.
  chunk-IsWritten :
      (c c' : Conn) (s s' : Stream) (p : List ℕ) (f : StreamFrame) (fs : List StreamFrame) (n : ℕ)
      (end : WriteEnd)
      → s.id ≡ id
      → IsChunkOf c s p c' s' f
      → length (encode (stream f)) ≤ default_max_record_size
      → IsWritten id s'.send_offset (drop (length f.payload) p) fs n end
      → IsWritten id s.send_offset p (f ∷ fs) (length f.payload + n) end
  unfolding payloads
  chunk-IsWritten c c' s s' p f fs n end k v e w =
      let (others, h) = v.prefix_of in
      let d : drop (length f.payload) p ≡ others =
        subst (λ z. drop (length f.payload) z ≡ others) h (drop-length-append f.payload others) in
      let l : length f.payload + length others ≡ length p =
        sym (length-append f.payload others) ∙ ap length h in
      let m = ap length d in
      record {
        contiguous = (
          v.of_stream ∙ k,
          v.at_offset,
          v.not_last,
          e,
          subst (λ z. IsContiguous id z fs)
              (v.data_next ∙ ap (λ z. z + length f.payload) v.at_offset) w.contiguous,
        );
        sent =
            ap (λ z. f.payload ++ z) (w.sent ∙ ap (take n) d)
            ∙ sym (take-append n f.payload others)
            ∙ ap (take (length f.payload + n)) h;
        within = omega (arith, w.within, m, l);
        complete = λ x. omega (arith, w.complete x, m, l);
      }

  -- A round with no chunk leaves everything as it was.
  idle-IsContinued :
      (c : Conn) (s : Stream) (p : List ℕ) (o : ℕ) (rounds : List Round)
      → IsCredit c s
      → s.send_offset ≡ o
      → (write_chunk c s p).2 ≡ no_chunk
      → IsContinued id (write_chunk c s p).1.send_offset rounds (unsent (write_chunk c s p).2 p)
      → IsContinued id o rounds p
  idle-IsContinued c s p o rounds v e h w =
      subst (λ z. IsContinued id z rounds p) (no_chunk_stays c s p v h ∙ e)
        (subst (λ z. IsContinued id (write_chunk c s p).1.send_offset rounds (unsent z p)) h w)

  -- For a stream with an identifier below 2^62, if nobody else sends on it between the chunks and
  -- the peer's limits, below 2^62, are kept, the frames that `write` sends carry on from the
  -- stream's offset without a gap, each fits a record, their data is the first bytes of what is
  -- to be written, as many as `write` counts, and all of it if `write` ends without an error.
  pub write_loop-IsWritten :
      (o : ℕ) (rounds : List Round) (p : List ℕ)
      → IsContinued id o rounds p
      → IsWritten id o p (write_loop rounds p).0 (write_loop rounds p).1 (write_loop rounds p).2
  unfolding write_loop
  write_loop-IsWritten o [] [] v = nothing-IsWritten o [] whole (λ h. refl)
  write_loop-IsWritten o [] (b ∷ p) v =
      nothing-IsWritten o (b ∷ p) unfinished (λ h. absurd (ground (arith, h)))
  write_loop-IsWritten o (r ∷ rounds) [] v = nothing-IsWritten o [] whole (λ h. refl)
  write_loop-IsWritten o (no_credit e ∷ rounds) (b ∷ p) v =
      nothing-IsWritten o (b ∷ p) (stopped e) (λ h. absurd (ground (arith, h)))
  write_loop-IsWritten o (turn_of c s (some x) ∷ rounds) (b ∷ p) (k, e, v, w) =
      elim (Chunk-cases (write_chunk c s (b ∷ p)).2) [
        | inl (f, h) ↦
            rw (h, write_loop)
              (nothing-IsWritten o (b ∷ p) (stopped x) (λ m. absurd (ground (arith, m))))
        | inr (inl h) ↦
            rw (h, write_loop)
              (write_loop-IsWritten o rounds (b ∷ p)
                (idle-IsContinued c s (b ∷ p) o rounds v e h w))
        | inr (inr (z, h)) ↦
            rw (h, write_loop)
              (nothing-IsWritten o (b ∷ p) (stopped z) (λ m. absurd (ground (arith, m))))
      ]
  write_loop-IsWritten o (turn_of c s none ∷ rounds) (b ∷ p) (k, e, v, w) =
      elim (Chunk-cases (write_chunk c s (b ∷ p)).2) [
        | inl (f, h) ↦
            let c' = (write_chunk c s (b ∷ p)).0 in
            let s' = (write_chunk c s (b ∷ p)).1 in
            let left = drop (length f.payload) (b ∷ p) in
            let (y, l) =
              write_chunk_charged c c' s s' (b ∷ p) f v (omega (arith, i, k))
                (ap (λ z. (c', s', z)) h) in
            let ih =
              write_loop-IsWritten s'.send_offset rounds left
                (subst (λ z. IsContinued id s'.send_offset rounds (unsent z (b ∷ p))) h w) in
            rw (h, write_loop)
              (subst
                (λ z.
                  IsWritten id z (b ∷ p) (f ∷ (write_loop rounds left).0)
                    (length f.payload + (write_loop rounds left).1) (write_loop rounds left).2)
                e (chunk-IsWritten c c' s s' (b ∷ p) f _ _ _ k y l ih))
        | inr (inl h) ↦
            rw (h, write_loop)
              (write_loop-IsWritten o rounds (b ∷ p)
                (idle-IsContinued c s (b ∷ p) o rounds v e h w))
        | inr (inr (z, h)) ↦
            rw (h, write_loop)
              (nothing-IsWritten o (b ∷ p) (stopped z) (λ m. absurd (ground (arith, m))))
      ]
