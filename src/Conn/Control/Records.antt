-- ===== src/Conn/Control/Records.antt =====
-- The records that `flushControl` writes.
use qmux_go.Base.{
  All, All-append, Bool-cases, List, [], ap, append-nil, append_assoc, arith, inl, inr, length,
  length-append, ltb, map, refl, sym, ℕ, ◌++◌, ◌-◌, ◌<◌, ◌==◌, ◌∙◌, ◌∷◌, ◌≡◌, ◌≤◌,
}
use qmux_go.Conn.Control.{flush_control, flush_records, max_control_frame_size, take_control}
use qmux_go.Conn.State.{Conn}
use qmux_go.Varint.{Varint}
use qmux_go.Varint.Sizes.{encode_bounds}
use qmux_go.Wire.Frame.{
  Frame, connection_close, datagram, encode, encode_max_data, encode_max_stream_data,
  encode_max_streams, encode_ping, encode_reset_stream, encode_stop_sending, max_data,
  max_stream_data, max_streams, ping, ping_type, reset_stream, stop_sending, stream,
  transport_parameters,
}
use qmux_go.Wire.Params.{default_max_record_size}
use qmux_go.Wire.RoundTrip.Valid.{IsEncodable}

-- The frames that go through the control queue, with the fields that they have.
abbrev pub IsControl : Frame → Type 0
IsControl (reset_stream f) = IsEncodable (reset_stream f)
IsControl (stop_sending f) = IsEncodable (stop_sending f)
IsControl (max_data f) = IsEncodable (max_data f)
IsControl (max_stream_data f) = IsEncodable (max_stream_data f)
IsControl (max_streams f) = IsEncodable (max_streams f)
IsControl (ping f) = IsEncodable (ping f)
IsControl _ = ⊥

abbrev pub concat {ℓ} : {A : Type ℓ} → List (List A) → List A
concat [] = []
concat (r ∷ rs) = r ++ concat rs

-- A record of the default size that is not empty.
abbrev pub IsRecord : List ℕ → Type 0
IsRecord r = (0 < length r) × (length r ≤ default_max_record_size)

module _ ⦃q : Varint⦄ where
  -- For a frame that goes through the control queue, with values that can be encoded, the
  -- encoding is not empty and `maxControlFrameSize` bounds it.
  pub length-encode_control :
      (f : Frame)
      → IsControl f
      → (0 < length (encode f)) × (length (encode f) ≤ max_control_frame_size)
  unfolding encode
  length-encode_control (reset_stream f) h =
      unfold encode_reset_stream in
      simp length-append (
        omega (
          arith,
          encode_bounds f.stream_id h.0,
          encode_bounds f.code h.1,
          encode_bounds f.final_size h.2,
        ))
  length-encode_control (stop_sending f) h =
      unfold encode_stop_sending in
      simp length-append (omega (arith, encode_bounds f.stream_id h.0, encode_bounds f.code h.1))
  length-encode_control (max_data f) h =
      unfold encode_max_data in omega (arith, encode_bounds f.maximum h)
  length-encode_control (max_stream_data f) h =
      unfold encode_max_stream_data in
      simp length-append (omega (arith, encode_bounds f.stream_id h.0, encode_bounds f.maximum h.1))
  length-encode_control (max_streams f) h =
      unfold encode_max_streams in omega (arith, encode_bounds f.maximum (omega arith))
  length-encode_control (ping f) h =
      unfold encode_ping in
      simp length-append (
        omega
          (arith, encode_bounds (ping_type f.response) (ground arith), encode_bounds f.sequence h))
  length-encode_control (stream f) h = absurd h
  length-encode_control (connection_close f) h = absurd h
  length-encode_control (datagram f) h = absurd h
  length-encode_control (transport_parameters f) h = absurd h

  abbrev pub encode_all : List Frame → List ℕ
  encode_all [] = []
  encode_all (f ∷ fs) = encode f ++ encode_all fs

  flush_records_fit :
      (buf : List ℕ) (fs : List Frame)
      → length buf ≤ default_max_record_size - max_control_frame_size
      → All IsControl fs
      → All IsRecord (flush_records buf fs)
  unfolding flush_records
  flush_records_fit buf [] h k = ground arith
  flush_records_fit buf (f ∷ fs) h k = ground (
    arith,
    length-append buf (encode f),
    length-encode_control f k.0,
    flush_records_fit [] fs (omega arith) k.1,
    flush_records_fit (buf ++ encode f) fs,
  )

  encode_all-append : (fs gs : List Frame) → encode_all (fs ++ gs) ≡ encode_all fs ++ encode_all gs
  encode_all-append [] gs = refl
  encode_all-append (f ∷ fs) gs =
      ap (◌++◌ (encode f)) (encode_all-append fs gs)
      ∙ sym (append_assoc (encode f) (encode_all fs) (encode_all gs))

  -- Frames of the control queue that encode to nothing are none.
  encode_all_none : (fs : List Frame) → All IsControl fs → length (encode_all fs) ≡ 0 → fs ≡ []
  encode_all_none [] h e = refl
  encode_all_none (f ∷ fs) h e =
      absurd (
        omega (arith, e, length-append (encode f) (encode_all fs), (length-encode_control f h.0).0))

  -- The records are the encodings of consecutive groups of whole frames.
  record IsGrouped (fs : List Frame) (rs : List (List ℕ)) : Type 0 where
    groups : List (List Frame)
    encoded : rs ≡ map encode_all groups
    all_frames : concat groups ≡ fs

  flush_records-IsGrouped :
      (gs fs : List Frame)
      → All IsControl gs
      → All IsControl fs
      → IsGrouped (gs ++ fs) (flush_records (encode_all gs) fs)
  unfolding flush_records
  flush_records-IsGrouped gs [] h k = elim (Bool-cases (length (encode_all gs) == 0)) [
    | inl e ↦
        let n : gs ≡ [] = encode_all_none gs h (ground (arith, e)) in
        rw e (record { groups = []; encoded = refl; all_frames = sym (ap (λ z. z ++ []) n) })
    | inr e ↦ rw e (record { groups = gs ∷ []; encoded = refl; all_frames = refl })
  ]
  flush_records-IsGrouped gs (f ∷ fs) h k =
      let e : encode_all gs ++ encode f ≡ encode_all (gs ++ f ∷ []) =
        ap (◌++◌ (encode_all gs)) (sym (append-nil (encode f)))
        ∙ sym (encode_all-append gs (f ∷ [])) in
      let a : (gs ++ f ∷ []) ++ fs ≡ gs ++ f ∷ fs = append_assoc gs (f ∷ []) fs in
      let full = flush_records-IsGrouped [] fs tt k.1 in
      let more =
        flush_records-IsGrouped (gs ++ f ∷ []) fs (All-append IsControl gs (f ∷ []) h (k.0, tt))
          k.1 in
      elim (Bool-cases (ltb 16350 (length (encode_all gs ++ encode f)))) [
        | inl x ↦ rw x (record {
          groups = (gs ++ f ∷ []) ∷ full.groups;
          encoded =
              ap (λ z. z ∷ flush_records [] fs) e
              ∙ ap (◌∷◌ (encode_all (gs ++ f ∷ []))) full.encoded;
          all_frames = ap (◌++◌ (gs ++ f ∷ [])) full.all_frames ∙ a;
        })
        | inr x ↦ rw x (record {
          groups = more.groups;
          encoded = ap (λ z. flush_records z fs) e ∙ more.encoded;
          all_frames = more.all_frames ∙ a;
        })
      ]

  -- If the frames in the control queue have values that can be encoded, the records that are
  -- written are the encodings of consecutive groups of whole frames, which together are all of
  -- the frames in order, and each record is not empty and fits the default record size.
  pub flush_control_lem :
      (now : ℕ) (c : Conn)
      → All IsControl (take_control now c).1
      → All IsRecord (flush_control now c).1
        × ((groups : List (List Frame)) × ((flush_control now c).1 ≡ map encode_all groups)
            × (concat groups ≡ (take_control now c).1))
  unfolding flush_control
  flush_control_lem now c h =
      let g = flush_records-IsGrouped [] (take_control now c).1 tt h in
      (
        flush_records_fit [] (take_control now c).1 (omega arith) h,
        (g.groups, g.encoded, g.all_frames),
      )
