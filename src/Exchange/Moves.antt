-- ===== src/Exchange/Moves.antt =====
-- One stream between two connections of qmux/conn.go, over any number of moves of the two ends.
use qmux_go.Base.{
  List, [], ap, append-nil, append_assoc, arith, length, refl, some, subst, sym, ℕ, ◌++◌, ◌+◌, ◌∙◌,
  ◌∷◌, ◌≡◌,
}
use qmux_go.Conn.Heap.{find-id}
use qmux_go.Conn.Receive.{Growth, try_read, unread}
use qmux_go.Conn.Run.{arrives, on_id, reads, step, writes, written}
use qmux_go.Conn.Send.{write_chunk}
use qmux_go.Conn.Send.Whole.{payloads}
use qmux_go.Conn.State.{Conn, Stream, commit, find}
use qmux_go.Exchange.{
  Ends, Move, chunk_frames, data_of, far_handles, far_reads, far_reports, handled_back,
  handled_forth, move, moves, near_handles, near_writes, read_from, written_forth,
}
use qmux_go.Exchange.Answering.{far_reads-IsFlowing, far_reports-IsFlowing}
use qmux_go.Exchange.Arriving.{far_handles-IsFlowing, far_takes, near_handles-IsFlowing}
use qmux_go.Exchange.Flowing.{IsFlowing, near_writes-IsFlowing, payloads-append}
use qmux_go.Exchange.States.{taken, unread-taken}
use qmux_go.Exchange.Taking.{try_read-IsTaken}
use qmux_go.Wire.Frame.{Frame, StreamFrame, frame, stream}

-- How many bytes a move may send.
abbrev pub cost : Move → ℕ
cost (near_writes p) = length p
cost (far_reads room) = 0
cost far_handles = 0
cost near_handles = 0
cost far_reports = 0

abbrev pub costs : List Move → ℕ
costs [] = 0
costs (x ∷ xs) = cost x + costs xs

-- The data that was sent and not read yet: what the far end holds, and what is on its way.
abbrev pub held : Stream → Ends → List ℕ
held t e = unread t ++ payloads e.forth

module _ ⦃g : Growth⦄ (now id : ℕ) where
  -- The state stays in order, and what is read is the front of what is held, with what is sent at
  -- its end.
  pub record IsMoved (n : ℕ) (e : Ends) (t : Stream) (r : Ends × List ℕ × List ℕ) : Type 0 where
    pub near_stream : Stream
    pub far_stream : Stream
    pub flowing : IsFlowing id n r.0 near_stream far_stream
    pub carried : held t e ++ r.1 ≡ r.2 ++ held far_stream r.0

  pub on_id_found :
      (c : Conn) (s : Stream) (call : Stream → Conn)
      → find id c.heap ≡ some s
      → on_id c id call ≡ call s
  unfolding on_id
  on_id_found c s call h = rw (h, on_id) refl

  writes-IsMoved :
      (n : ℕ) (e : Ends) (s t : Stream) (p : List ℕ)
      → IsFlowing id (length p + n) e s t
      → IsMoved n e t (move now id e (near_writes p))
  unfolding move written_forth
  writes-IsMoved n e s t p v =
      let (s', w) = near_writes-IsFlowing id n e s t p v in
      let fs = chunk_frames (write_chunk e.near s p).2 in
      let a : step e.near (writes id p) ≡ written e.near s p =
        unfold step in on_id_found e.near s (λ z. written e.near z p) v.near_found in
      rw (a, v.near_found)
        (record {
          near_stream = s';
          far_stream = t;
          flowing = w;
          carried =
              append_assoc (unread t) (payloads e.forth) (payloads fs)
              ∙ ap (λ z. unread t ++ z) (sym (payloads-append e.forth fs));
        })

  reads-IsMoved :
      (n : ℕ) (e : Ends) (s t : Stream) (room : ℕ)
      → IsFlowing id n e s t
      → IsMoved n e t (move now id e (far_reads room))
  unfolding move read_from
  reads-IsMoved n e s t room v =
      let i = find-id id e.far.heap t v.far_found in
      let (c', t', k) =
        try_read-IsTaken id e.far t room v.counters v.unended i v.far_route.is_open v.queued in
      let p = data_of (try_read e.far t room).1 in
      let a : step e.far (reads id room) ≡ (try_read e.far t room).0 =
        unfold step in on_id_found e.far t (λ z. (try_read e.far z room).0) v.far_found in
      rw (a, v.far_found)
        (record {
          near_stream = s;
          far_stream = t';
          flowing = far_reads-IsFlowing id n e s t p _ c' t' v k;
          carried =
              append-nil (held t e)
              ∙ ap (λ z. z ++ payloads e.forth) k.front
              ∙ append_assoc p (unread t') (payloads e.forth);
        })

  no_cost : (n : ℕ) (e : Ends) (s t : Stream) → IsFlowing id (0 + n) e s t → IsFlowing id n e s t
  no_cost n e s t v = subst (λ z. IsFlowing id z e s t) (omega arith) v

  still-IsMoved :
      (n : ℕ) (e : Ends) (s t : Stream) → IsFlowing id n e s t → IsMoved n e t (e, [], [])
  still-IsMoved n e s t v = record {
    near_stream = s;
    far_stream = t;
    flowing = v;
    carried = append-nil (held t e);
  }

  handles-IsMoved :
      (n : ℕ) (e : Ends) (s t : Stream) (fs : List StreamFrame)
      → e.forth ≡ fs
      → IsFlowing id n e s t
      → IsMoved n e t (handled_forth now id e fs, [], [])
  unfolding handled_forth payloads
  handles-IsMoved n e s t [] h v = still-IsMoved n e s t v
  handles-IsMoved n e s t (f ∷ fs) h v =
      let a : step e.far (arrives now (frame (stream f)))
          ≡ commit (record e.far { received = e.far.received + length f.payload }, taken t f) =
        unfold step in ap (λ z. z.0) (far_takes now id n e s t f fs h v) in
      rw a (record {
        near_stream = s;
        far_stream = taken t f;
        flowing = far_handles-IsFlowing id n e s t f fs h v;
        carried =
            append-nil (held t e)
            ∙ ap (λ z. unread t ++ payloads z) h
            ∙ sym (append_assoc (unread t) f.payload (payloads fs))
            ∙ ap (λ z. z ++ payloads fs) (sym (unread-taken e.far t f v.unended));
      })

  hears-IsMoved :
      (n : ℕ) (e : Ends) (s t : Stream) (fs : List Frame)
      → e.back ≡ fs
      → IsFlowing id n e s t
      → IsMoved n e t (handled_back now id e fs, [], [])
  unfolding handled_back step
  hears-IsMoved n e s t [] h v = still-IsMoved n e s t v
  hears-IsMoved n e s t (f ∷ fs) h v =
      let (s', w) = near_handles-IsFlowing now id n e s t f fs h v in
      record { near_stream = s'; far_stream = t; flowing = w; carried = append-nil (held t e) }

  move-IsMoved :
      (n : ℕ) (e : Ends) (s t : Stream) (x : Move)
      → IsFlowing id (cost x + n) e s t
      → IsMoved n e t (move now id e x)
  unfolding move step
  move-IsMoved n e s t (near_writes p) v = writes-IsMoved n e s t p v
  move-IsMoved n e s t (far_reads room) v = reads-IsMoved n e s t room (no_cost n e s t v)
  move-IsMoved n e s t far_handles v = handles-IsMoved n e s t e.forth refl (no_cost n e s t v)
  move-IsMoved n e s t near_handles v = hears-IsMoved n e s t e.back refl (no_cost n e s t v)
  move-IsMoved n e s t far_reports v = record {
    near_stream = s;
    far_stream = t;
    flowing = far_reports-IsFlowing now id n e s t (no_cost n e s t v);
    carried = append-nil (held t e);
  }

  pub moves-IsMoved :
      (n : ℕ) (e : Ends) (s t : Stream) (xs : List Move)
      → IsFlowing id (costs xs + n) e s t
      → IsMoved n e t (moves now id e xs)
  unfolding moves
  moves-IsMoved n e s t [] v = still-IsMoved n e s t (no_cost n e s t v)
  moves-IsMoved n e s t (x ∷ xs) v =
      let m =
        move-IsMoved (costs xs + n) e s t x (subst (λ z. IsFlowing id z e s t) (omega arith) v) in
      let (e', w, r) = move now id e x in
      let k = moves-IsMoved n e' m.near_stream m.far_stream xs m.flowing in
      let (e'', ws, rs) = moves now id e' xs in
      record {
        near_stream = k.near_stream;
        far_stream = k.far_stream;
        flowing = k.flowing;
        carried =
            sym (append_assoc (held t e) w ws)
            ∙ ap (λ z. z ++ ws) m.carried
            ∙ append_assoc r (held m.far_stream e') ws
            ∙ ap (λ z. r ++ z) k.carried
            ∙ sym (append_assoc r rs (held k.far_stream e''));
      }
