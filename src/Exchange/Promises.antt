-- ===== src/Exchange/Promises.antt =====
-- What a stream between two connections of qmux/conn.go promises its users, whatever the two ends
-- do and in whatever order.
use qmux_go.Base.{All, List, [], ap, map, refl, some, subst, ℕ, ◌++◌, ◌+◌, ◌∷◌, ◌≡◌}
use qmux_go.Conn.Handle.{handle_frame}
use qmux_go.Conn.Receive.{Growth, fine, unread}
use qmux_go.Conn.Send.Whole.{payloads}
use qmux_go.Conn.State.{Conn, Stream, find}
use qmux_go.Exchange.{Ends, Move, moves}
use qmux_go.Exchange.Arriving.{far_takes}
use qmux_go.Exchange.Flowing.{IsFlowing}
use qmux_go.Exchange.Hearing.{handle_frame-IsHeard}
use qmux_go.Exchange.Moves.{costs, moves-IsMoved}
use qmux_go.Exchange.Reports.{IsReport}
use qmux_go.Wire.Frame.{Frame, StreamFrame, frame, stream}

module _ ⦃g : Growth⦄ where
  -- The first frame, if there is one, is no violation and no end.
  abbrev pub IsFirstFine : ℕ → Conn → List Frame → Type 0
  IsFirstFine now c [] = Unit {0}
  IsFirstFine now c (f ∷ fs) = (handle_frame now c (frame f)).1 ≡ fine

  forth-IsFirstFine :
      (now id n : ℕ) (e : Ends) (s t : Stream) (fs : List StreamFrame)
      → e.forth ≡ fs
      → IsFlowing id n e s t
      → IsFirstFine now e.far (map stream fs)
  forth-IsFirstFine now id n e s t [] h v = tt
  forth-IsFirstFine now id n e s t (f ∷ fs) h v = ap (λ z. z.1) (far_takes now id n e s t f fs h v)

  back-IsFirstFine :
      (now id n : ℕ) (e : Ends) (s t : Stream) (fs : List Frame)
      → e.back ≡ fs
      → IsFlowing id n e s t
      → IsFirstFine now e.near fs
  back-IsFirstFine now id n e s t [] h v = tt
  back-IsFirstFine now id n e s t (f ∷ fs) h v =
      let (r, rs) = subst (All (IsReport id)) h v.reports in
      let (s', c', q, w) = handle_frame-IsHeard now id e.near s f r v.near_route v.near_found in
      ap (λ z. z.1) q

  module _ (now id n : ℕ) (e : Ends) (s t : Stream) (xs : List Move)
      (v : IsFlowing id (costs xs + n) e s t) where
    -- What is sent follows what was held, and what is read is the front of it.
    pub moves_carry :
        let (e', w, r) = moves now id e xs in
        (t' : Stream) × (find id e'.far.heap ≡ some t')
        × (unread t ++ payloads e.forth ++ w ≡ r ++ (unread t' ++ payloads e'.forth))
    moves_carry =
        let m = moves-IsMoved now id n e s t xs v in (m.far_stream, m.flowing.far_found, m.carried)

    -- No frame that is on its way is a violation for the end that it reaches.
    pub moves_keep_limits :
        (later : ℕ)
        → let e' = (moves now id e xs).0 in
          IsFirstFine later e'.far (map stream e'.forth) × IsFirstFine later e'.near e'.back
    moves_keep_limits later =
        let m = moves-IsMoved now id n e s t xs v in
        let e' = (moves now id e xs).0 in
        (
          forth-IsFirstFine later id n e' m.near_stream m.far_stream e'.forth refl m.flowing,
          back-IsFirstFine later id n e' m.near_stream m.far_stream e'.back refl m.flowing,
        )
