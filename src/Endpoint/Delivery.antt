-- ===== src/Endpoint/Delivery.antt =====
-- The records of one endpoint at the other: `writeFramesLocked`, `sendParameters`, `handleRecord`
-- and `start` of qmux/conn.go and qmux/qmux.go.
use qmux_go.Base.{
  All, Bool, List, Option, [], arith, false, inl, inr, is_some, length, none, refl, some, suc, true,
  zero, ℕ, ◌<◌, ◌==◌, ◌||◌, ◌∙◌, ◌∷◌, ◌≡◌,
}
use qmux_go.Config.{Config, local_parameters, normalized}
use qmux_go.Config.Bounds.{IsPassed, normalized-IsDeclarable}
use qmux_go.Conn.Handle.{handle_first, handle_frame, handle_parameters, handle_record, record_loop}
use qmux_go.Conn.Handle.Open.{handle_frame_same}
use qmux_go.Conn.Handle.Total.{Outcome-cases}
use qmux_go.Conn.Receive.{Growth, Outcome, closed, fine, violation}
use qmux_go.Conn.State.{Conn, new_conn}
use qmux_go.Endpoint.{Endpoint, Link, frames_record, new_endpoint, parameters_record}
use qmux_go.Endpoint.Loops.{counted, react, record_in, start_result, started}
use qmux_go.Varint.{Varint}
use qmux_go.Wire.Error.{Reason, ok}
use qmux_go.Wire.Frame.{Frame, frame, transport_parameters}
use qmux_go.Wire.Parse.{parse}
use qmux_go.Wire.Parse.Progress.{parse_takes}
use qmux_go.Wire.RoundTrip.Frames.{parse-encode}
use qmux_go.Wire.RoundTrip.Valid.{IsEncodable, filled, received}

-- Handling frames one after the other, as long as there is nothing to report.
unfoldable pub handle_frames : ⦃g : Growth⦄ → ℕ → Conn → List Frame → Conn × Outcome
handle_frames now c [] = (c, fine)
handle_frames now c (f ∷ fs) =
    let (c', o) = handle_frame now c (frame (received f)) in
    elim o [
      | fine ↦ handle_frames now c' fs
      | violation x ↦ (c', violation x)
      | closed x ↦ (c', closed x)
    ]

module _ ⦃q : Varint⦄ ⦃g : Growth⦄ where
  record_loop-frames :
      (n now : ℕ) (c : Conn) (fs : List Frame)
      → All IsEncodable fs
      → c.close_err ≡ none
      → length (frames_record fs) < n
      → record_loop n now c (frames_record fs) ≡ some (handle_frames now c fs)
  unfolding record_loop handle_frames
  record_loop-frames zero now c fs v k h = absurd (omega (arith, h))
  record_loop-frames (suc n) now c [] v k h = unfold frames_record in refl
  record_loop-frames (suc n) now c (f ∷ fs) (x, v) k h =
      let p : parse (frames_record (f ∷ fs)) ≡ ok (some (frame (received f)), frames_record fs) =
        unfold frames_record in parse-encode f (frames_record fs) x in
      let t = parse_takes (frames_record (f ∷ fs)) (frames_record fs) (frame (received f)) p in
      let z : (length (frames_record (f ∷ fs)) == 0 || is_some c.close_err) ≡ false =
        ground (arith, t, k) in
      let s = handle_frame_same now c (frame (received f)) in
      elim (Outcome-cases (handle_frame now c (frame (received f))).1) [
        | inl o ↦
            rw (z, p, o, handle_frames)
              (record_loop-frames n now (handle_frame now c (frame (received f))).0 fs v (s ∙ k)
                (omega (arith, h, t)))
        | inr (inl (y, o)) ↦ rw (z, p, o, handle_frames) refl
        | inr (inr (y, o)) ↦ rw (z, p, o, handle_frames) refl
      ]

  -- For an open connection and frames with values that can be encoded, handling the record that
  -- `writeFramesLocked` makes of them is handling the frames as the peer receives them, one after
  -- the other, as long as there is nothing to report.
  pub handle_record-frames_record :
      (now : ℕ) (c : Conn) (fs : List Frame)
      → All IsEncodable fs
      → c.close_err ≡ none
      → handle_record now c (frames_record fs) ≡ some (handle_frames now c fs)
  unfolding handle_record
  handle_record-frames_record now c fs v k =
      record_loop-frames (suc (length (frames_record fs))) now c fs v k (omega arith)

module _ ⦃q : Varint⦄ ⦃g : Growth⦄ ⦃l : Link⦄ (render : Reason → List ℕ) where
  record_in_handled :
      (now : ℕ) (rec : List ℕ) (e : Endpoint) (c : Conn) (o : Outcome)
      → handle_record now e.conn rec ≡ some (c, o)
      → record_in render now rec e ≡ react render now (record (counted now rec e) { conn = c }) o
  record_in_handled now rec e c o h = unfold record_in in rw (h, record_in) refl

  parameters_handled :
      (now : ℕ) (ours : Config) (is_server : Bool) (theirs : Option Config)
      → IsPassed theirs
      → handle_record now (new_conn ours is_server) (parameters_record (normalized theirs))
        ≡ some (
          handle_parameters
              (new_conn ours is_server)
              (filled (local_parameters (normalized theirs))),
          fine,
        )
  unfolding parameters_record handle_frames handle_frame handle_first
  parameters_handled now ours is_server theirs h =
      handle_record-frames_record now (new_conn ours is_server)
        (transport_parameters (local_parameters (normalized theirs)) ∷ [])
        (normalized-IsDeclarable theirs h, tt) (unfold new_conn in refl)
      ∙ unfold new_conn in refl

  -- The connection after the peer's first record.
  pub handshake_conn :
      (start now : ℕ) (ours : Config) (is_server : Bool) (theirs : Option Config)
      → IsPassed theirs
      → (record_in render now
          (parameters_record (normalized theirs))
          (new_endpoint start ours is_server)).conn
        ≡ handle_parameters
            (new_conn ours is_server)
            (filled (local_parameters (normalized theirs)))
  handshake_conn start now ours is_server theirs h =
      let m =
        record_in_handled now (parameters_record (normalized theirs))
          (new_endpoint start ours is_server)
          (handle_parameters (new_conn ours is_server)
            (filled (local_parameters (normalized theirs))))
          fine (unfold new_endpoint in parameters_handled now ours is_server theirs h) in
      rw m (unfold react in refl)

  -- Whatever configuration the peer is given, with int64 and uint64 fields or none at all, the
  -- first record that it sends makes a new connection ready with the peer's parameters, and
  -- `start` returns the connection, whatever its own writers have still to write.
  pub handshake_completes :
      (start now : ℕ) (ours : Config) (is_server : Bool) (theirs : Option Config)
      → IsPassed theirs
      → let e =
          record_in render now
            (parameters_record (normalized theirs))
            (new_endpoint start ours is_server) in
        (start_result e ≡ started)
        × (e.conn.ready ≡ true)
        × (e.conn.peer ≡ filled (local_parameters (normalized theirs)))
        × (e.holder ≡ (new_endpoint start ours is_server).holder)
  handshake_completes start now ours is_server theirs h =
      let p = local_parameters (normalized theirs) in
      let e = new_endpoint start ours is_server in
      let m =
        record_in_handled now (parameters_record (normalized theirs)) e
          (handle_parameters (new_conn ours is_server) (filled p)) fine
          (unfold new_endpoint in parameters_handled now ours is_server theirs h) in
      rw m (
        unfold react start_result handle_parameters counted new_conn new_endpoint in
        (refl, refl, refl, refl))
