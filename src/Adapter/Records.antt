-- ===== src/Adapter/Records.antt =====
-- The records of a connection that goes through `NetConn` of qmux/adapter.go: each is written with
-- its Size field, as over TCP, and each write is a message.
use qmux_go.Base.{
  All, List, [], ap, append-nil, append_assoc, arith, drop, if◌then◌else◌, length, length-drop,
  length-take, le→ltb, map, refl, subst, suc, sym, take, take-append-drop, true, zero, ℕ, ◌++◌, ◌-◌,
  ◌<◌, ◌^◌, ◌∙◌, ◌∷◌, ◌≡◌, ◌≤◌,
}
use qmux_go.Adapter.{adapter_write, drain, net_conn}
use qmux_go.Adapter.Pending.{IsRoom, drain-pending, joined}
use qmux_go.Transport.{read_record, record_headroom, record_over, record_read, write_record}
use qmux_go.Transport.RoundTrip.{read_record-write_record}
use qmux_go.Varint.{Varint}

-- `writeRecord` of one record after the other over `NetConn`, when the transport takes every message:
-- the messages.
unfoldable pub write_records : ⦃q : Varint⦄ → List (List ℕ) → List (List ℕ) → List (List ℕ)
write_records [] messages = messages
write_records (buf ∷ bufs) messages =
    write_records bufs (adapter_write true (write_record buf) messages).1

-- `readRecord` of one record after the other, as long as they are fine.
unfoldable pub read_records : ⦃q : Varint⦄ → ℕ → ℕ → List ℕ → List (List ℕ)
read_records limit zero b = []
read_records limit (suc n) b = elim (read_record limit b) [
  | record_read r left ↦ r ∷ read_records limit n left
  | _ ↦ []
]

abbrev pub IsBuffer : ℕ → List ℕ → Type 0
IsBuffer limit buf = (record_headroom ≤ length buf) × (length buf - record_headroom ≤ limit)

abbrev pub contents : List ℕ → List ℕ
contents buf = drop record_headroom buf

-- The bytes of the messages.
joined-append : (xs ys : List (List ℕ)) → joined (xs ++ ys) ≡ joined xs ++ joined ys
unfolding joined
joined-append [] ys = refl
joined-append (x ∷ xs) ys = rw (joined-append xs ys) (sym (append_assoc x (joined xs) (joined ys)))

module _ ⦃q : Varint⦄ (limit : ℕ) (h : limit < 2 ^ 62) where
  written_lem :
      (bufs messages : List (List ℕ))
      → write_records bufs messages ≡ messages ++ map write_record bufs
  unfolding write_records adapter_write
  written_lem [] messages = sym (append-nil messages)
  written_lem (buf ∷ bufs) messages =
      written_lem bufs (messages ++ write_record buf ∷ []) ∙ append_assoc messages _ _

  read_record_next :
      (buf tail : List ℕ)
      → IsBuffer limit buf
      → read_record limit (write_record buf ++ tail) ≡ record_read (contents buf) tail
  read_record_next buf tail (n, m) =
      let k : length (take record_headroom buf) ≡ record_headroom =
        omega (arith, length-take record_headroom buf) in
      let i = length-drop record_headroom buf in
      let e =
        read_record-write_record limit (take record_headroom buf) (contents buf) tail k
          (omega arith) in
      let f = le→ltb limit (length (contents buf)) (omega arith) in
      subst (λ b. read_record limit (write_record b ++ tail) ≡ record_read (contents buf) tail)
        (take-append-drop record_headroom buf)
        (e
          ∙ ap
              (λ b.
                if b
                then record_over (length (contents buf)) limit tail
                else record_read (contents buf) tail)
              f)

  read_records-written :
      (bufs : List (List ℕ))
      → All (IsBuffer limit) bufs
      → read_records limit (length bufs) (joined (map write_record bufs)) ≡ map contents bufs
  unfolding read_records joined
  read_records-written [] v = refl
  read_records-written (buf ∷ bufs) (b, v) =
      rw (read_record_next buf (joined (map write_record bufs)) b, read_records)
        (ap (λ rs. contents buf ∷ rs) (read_records-written bufs v))

  -- For buffers with the headroom and a record within a limit below 2^62, if the records are
  -- written over `NetConn` one after the other, then enough reads of any positive sizes at the
  -- other end give bytes from which `readRecord` reads the same records.
  pub read_records-drain :
      (bufs : List (List ℕ)) (rooms : List ℕ)
      → All (IsBuffer limit) bufs
      → All IsRoom rooms
      → length (joined (write_records bufs [])) ≤ length rooms
      → read_records limit (length bufs) (drain rooms (net_conn (write_records bufs [])))
        ≡ map contents bufs
  read_records-drain bufs rooms v w n =
      let e = drain-pending rooms (net_conn (write_records bufs [])) w n in
      ap (read_records limit (length bufs)) (e ∙ ap joined (written_lem bufs []))
      ∙ read_records-written bufs v
