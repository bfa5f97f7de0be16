-- ===== src/Conn/Datagrams.antt =====
-- `SendDatagram` of qmux/conn.go.
use qmux_go.Base.{
  Bool-cases, List, [], ap, arith, if◌then◌else◌, inl, inr, length, length-append, le→ltb, ltb, min,
  none, some, sub64, sym, ℕ, ◌++◌, ◌+◌, ◌-◌, ◌<◌, ◌==◌, ◌^◌, ◌∙◌, ◌∷◌, ◌≡◌, ◌≤◌, ◌⊎◌,
}
use qmux_go.Config.{local_parameters, negsuc, pos, ℤ}
use qmux_go.Conn.Failure.{Failure}
use qmux_go.Conn.Handle.{handle_datagram}
use qmux_go.Conn.Receive.{fine}
use qmux_go.Conn.State.{Conn, datagram_queue_size}
use qmux_go.Varint.{Varint}
use qmux_go.Wire.Frame.{Datagram, datagram, datagram_len, encode, encode_datagram}
use qmux_go.Wire.RoundTrip.Valid.{filled}
pub mod Queue

-- What `SendDatagram` does, up to the transport. The size that it reports is an int64.
pub data Sent : Type 0 where
  sent_datagram : Datagram → Sent
  not_supported : Sent
  too_large : ℤ → Sent
  not_sent : Failure → Sent

-- `int64(v)`.
abbrev pub to_i64 : ℕ → ℤ
to_i64 v = if ltb v (2 ^ 63) then pos v else negsuc (2 ^ 64 - 1 - v)

abbrev pub datagram_limit : Conn → ℕ
datagram_limit c = min c.peer.max_datagram_frame_size c.peer.max_record_size

module _ ⦃q : Varint⦄ where
  -- The frame's type and length take the rest of the limit.
  unfoldable pub reported : ℕ → ℤ
  reported limit = to_i64 (sub64 (sub64 limit 1) (q.len limit))

  unfoldable pub send_datagram : Conn → List ℕ → Sent
  send_datagram c p =
      let f : Datagram = record { payload = p } in
      if datagram_limit c == 0
      then not_supported
      else if ltb (datagram_limit c) (datagram_len f)
      then too_large (reported (datagram_limit c))
      else elim c.close_err [ some e ↦ not_sent e | none ↦ sent_datagram f ]

  sent_datagram_le :
      (c : Conn) (p : List ℕ) (f : Datagram)
      → send_datagram c p ≡ sent_datagram f
      → (datagram_len f ≤ datagram_limit c) × (f.payload ≡ p)
  unfolding send_datagram
  sent_datagram_le c p f e = ground arith

  length-encode_datagram :
      (f : Datagram) → length f.payload < 2 ^ 62 → length (encode (datagram f)) ≡ datagram_len f
  unfolding encode encode_datagram datagram_len
  length-encode_datagram f h =
      simp length-append (omega (arith, q.length-encode (length f.payload) h))

  payload_le : (f : Datagram) → 1 + length f.payload ≤ datagram_len f
  unfolding datagram_len
  payload_le f = omega arith

  -- The queue takes the datagram, or it is full.
  handle_datagram-queues :
      (c : Conn) (f : Datagram)
      → 1 + length f.payload ≤ c.config.max_datagram_frame_size
      → ((length c.datagrams < datagram_queue_size)
          × (handle_datagram c f ≡ (record c { datagrams = c.datagrams ++ f.payload ∷ [] }, fine)))
        ⊎ ((datagram_queue_size ≤ length c.datagrams) × (handle_datagram c f ≡ (c, fine)))
  unfolding handle_datagram
  handle_datagram-queues c f h = elim (Bool-cases (ltb (length c.datagrams) datagram_queue_size)) [
    | inl e ↦ inl (ground (arith, e), ground (arith, e, h))
    | inr e ↦ inr (ground (arith, e), ground (arith, e, h))
  ]

  -- If the peer declared the limits, a record size below 2^62 among them, a datagram that is sent
  -- is the application's, and its frame fits the record and the frame size that the peer accepts;
  -- the peer puts the payload at the end of its queue and changes nothing else, or its queue is
  -- full and the datagram is dropped.
  pub send_datagram_accepted :
      (c peer : Conn) (p : List ℕ) (f : Datagram)
      → c.peer ≡ filled (local_parameters peer.config)
      → c.peer.max_record_size < 2 ^ 62
      → send_datagram c p ≡ sent_datagram f
      → (f.payload ≡ p)
        × (length (encode (datagram f)) ≤ c.peer.max_record_size)
        × (length (encode (datagram f)) ≤ c.peer.max_datagram_frame_size)
        × (((length peer.datagrams < datagram_queue_size)
              × (handle_datagram peer f
                  ≡ (record peer { datagrams = peer.datagrams ++ p ∷ [] }, fine)))
            ⊎ ((datagram_queue_size ≤ length peer.datagrams)
                × (handle_datagram peer f ≡ (peer, fine))))
  unfolding local_parameters
  send_datagram_accepted c peer p f d r e =
      let m : c.peer.max_datagram_frame_size ≡ peer.config.max_datagram_frame_size =
        ap (λ x. x.max_datagram_frame_size) d in
      let (l, k) = sent_datagram_le c p f e in
      let s = length-encode_datagram f (omega (arith, l, r, payload_le f)) in
      (
        k,
        omega (arith, l, s),
        omega (arith, l, s),
        rw (sym k) (handle_datagram-queues peer f (omega (arith, l, m, payload_le f))),
      )

  datagram_len_le :
      (p : List ℕ) (limit : ℕ)
      → 1 + q.len (length p) + length p ≤ limit
      → datagram_len (record { payload = p }) ≤ limit
  unfolding datagram_len
  datagram_len_le p limit h = h

  sent_within :
      (c : Conn) (p : List ℕ)
      → c.close_err ≡ none
      → 0 < datagram_limit c
      → datagram_len (record { payload = p }) ≤ datagram_limit c
      → send_datagram c p ≡ sent_datagram (record { payload = p })
  unfolding send_datagram
  sent_within c p o h k =
      simp (o, le→ltb (datagram_limit c) (datagram_len (record { payload = p })) k) (ground arith)

  -- The size that is reported, when it is not negative, is what the limit leaves.
  reported_le :
      (c : Conn) (r : List ℕ) (n : ℕ)
      → datagram_limit c < 2 ^ 62
      → send_datagram c r ≡ too_large (pos n)
      → n + 1 + q.len (datagram_limit c) ≡ datagram_limit c
  unfolding send_datagram reported
  reported_le c r n h e = ground (arith, q.len_bounds (datagram_limit c) h)

  -- What is no longer than the size that is reported is sent.
  reported_sent :
      (c : Conn) (r p : List ℕ) (n : ℕ)
      → datagram_limit c < 2 ^ 62
      → c.close_err ≡ none
      → send_datagram c r ≡ too_large (pos n)
      → length p ≤ n
      → send_datagram c p ≡ sent_datagram (record { payload = p })
  reported_sent c r p n l o e h =
      let k = reported_le c r n l e in
      let m = q.len_mono (length p) (datagram_limit c) (omega (arith, k, h)) l in
      sent_within c p o (omega (arith, k))
        (datagram_len_le p (datagram_limit c) (omega (arith, k, m, h)))

  -- If `SendDatagram` reports for a payload that it is too large, with a size that is not
  -- negative, on an open connection with a limit below 2^62, then any payload of that size at
  -- most is sent, and the refused one is larger.
  pub reported_fits :
      (c : Conn) (r p : List ℕ) (n : ℕ)
      → datagram_limit c < 2 ^ 62
      → c.close_err ≡ none
      → send_datagram c r ≡ too_large (pos n)
      → length p ≤ n
      → (send_datagram c p ≡ sent_datagram (record { payload = p })) × (n < length r)
  reported_fits c r p n l o e h = (
    reported_sent c r p n l o e h,
    elim (Bool-cases (ltb n (length r))) [
      | inl k ↦ ground (arith, k)
      | inr k ↦
          let s = reported_sent c r r n l o e (ground (arith, k)) in
          let b : sent_datagram (record { payload = r }) ≡ too_large (pos n) = sym s ∙ e in cc
    ],
  )
