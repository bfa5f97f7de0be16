-- ===== src/Endpoint/Order/Life.antt =====
-- What is on the transport of a connection over its life: the first record, the last one and the
-- statistics.
use qmux_go.Base.{Bool, List, [], inl, inr, length, true, ℕ, ◌%◌, ◌++◌, ◌^◌, ◌∷◌, ◌≡◌, ◌⊎◌}
use qmux_go.Config.{Config}
use qmux_go.Conn.Receive.{Growth}
use qmux_go.Endpoint.{Link, farewell_record, new_endpoint, parameters_record, said}
use qmux_go.Endpoint.Acts.{Act, acts}
use qmux_go.Endpoint.Kept.Acts.{acts_kept}
use qmux_go.Endpoint.Order.Run.{acts-IsOrdered}
use qmux_go.Endpoint.Order.Sealed.{IsOrdered-IsSealed, Kept-IsSealed}
use qmux_go.Endpoint.Order.Writing.{said-EndsWith}
use qmux_go.Varint.{Varint}
use qmux_go.Wire.Error.{Reason}
use qmux_go.Wire.Frame.{ConnectionClose}

module _ ⦃q : Varint⦄ ⦃g : Growth⦄ ⦃l : Link⦄ (render : Reason → List ℕ) where
  -- Whatever writers, goroutines, calls and records of the peer there are, in any order, the
  -- first record on a new connection's transport is the one with its transport parameters, unless
  -- the transport has failed to take a record, and the records sent are counted modulo 2^64.
  pub parameters_first :
      (now : ℕ) (cfg : Config) (is_server : Bool) (first : List Act)
      → let e = acts render (new_endpoint now cfg is_server) first in
        ((e.broken ≡ true)
          ⊎ ((e.wire ≡ [])
              ⊎ ((others : List (List ℕ)) × (e.wire ≡ parameters_record cfg ∷ others))))
        × (e.records_sent ≡ length e.wire % 2 ^ 64)
  parameters_first now cfg is_server first =
      let v = acts-IsOrdered render now cfg is_server first in
      (
        elim v.opening [
          | inl x ↦ inl x
          | inr (inl (a, b)) ↦ inr (inl a)
          | inr (inr x) ↦ inr (inr x)
        ],
        v.tally,
      )

  -- Once `closeGracefully` has written its frame on a connection's transport, whatever writers,
  -- goroutines, calls and records of the peer came before, in any order, and whether or not the
  -- transport fails at times, the last record is the one with the CONNECTION_CLOSE frame, and no
  -- record follows it, whatever happens later.
  pub farewell_last :
      (now : ℕ) (cfg : Config) (is_server : Bool) (first later : List Act) (f : ConnectionClose)
      → (acts render (new_endpoint now cfg is_server) first).goodbye ≡ said f
      → let e = acts render (new_endpoint now cfg is_server) first in
        ((before : List (List ℕ)) × (e.wire ≡ before ++ farewell_record f ∷ []))
        × ((acts render e later).wire ≡ e.wire)
  farewell_last now cfg is_server first later f h =
      let v = acts-IsOrdered render now cfg is_server first in
      (
        said-EndsWith _ _ v f h,
        (acts_kept render _ (Kept-IsSealed f _) _ later (IsOrdered-IsSealed f _ _ h v)).sealed,
      )
