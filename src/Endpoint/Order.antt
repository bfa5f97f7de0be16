-- ===== src/Endpoint/Order.antt =====
-- The order of the records on the transport, of the writers of qmux/conn.go and qmux/stream.go.
use qmux_go.Base.{
  Bool, List, [], false, inl, inr, length, true, ℕ, ◌%◌, ◌++◌, ◌^◌, ◌∙◌, ◌∷◌, ◌≡◌, ◌⊎◌,
}
use qmux_go.Endpoint.{
  Endpoint, Goodbye, Holder, farewell, farewell_record, holds, nobody, not_closing, said, saying,
  sending,
}
use qmux_go.Endpoint.Closed.{IsClosedConn}
use qmux_go.Endpoint.Kept.{SameTurn}
use qmux_go.Varint.{Varint}
use qmux_go.Wire.Frame.{ConnectionClose}
use qmux_go.WriteLock.Exclusion.{turn}
pub mod Start
pub mod Writing
pub mod Run
pub mod Sealed
pub mod Life

module _ ⦃q : Varint⦄ where
  abbrev pub EndsWith : List ℕ → List (List ℕ) → Type 0
  EndsWith r w = (before : List (List ℕ)) × (w ≡ before ++ r ∷ [])

  abbrev pub is_farewell : Holder → Bool
  is_farewell nobody = false
  is_farewell (holds sending rs) = false
  is_farewell (holds farewell rs) = true

  -- The CONNECTION_CLOSE frame is not under way and was not written.
  abbrev pub is_unspoken : Goodbye → Bool
  is_unspoken (saying f) = false
  is_unspoken (said f) = false
  is_unspoken _ = true

  -- Whose turn it is on the transport: the ordinary writers', or that of the record with the
  -- CONNECTION_CLOSE frame, or nobody's, since it was written.
  abbrev pub AtTurn : Goodbye → Holder → List (List ℕ) → Type 0
  AtTurn g h w =
      ((is_farewell h ≡ false) × (is_unspoken g ≡ true))
      ⊎ (((f : ConnectionClose) × (g ≡ saying f) × (h ≡ holds farewell (farewell_record f ∷ [])))
          ⊎ (((f : ConnectionClose) × (g ≡ saying f)
                × (h ≡ holds farewell [])
                × EndsWith (farewell_record f) w)
              ⊎ ((f : ConnectionClose) × (g ≡ said f)
                  × ((h ≡ nobody) ⊎ (h ≡ holds sending []))
                  × EndsWith (farewell_record f) w)))

  -- The record `p` is first, and the lock is held until it is written.
  abbrev pub Opens : List ℕ → Holder → List (List ℕ) → Type 0
  Opens p h w =
      ((w ≡ []) × (h ≡ holds sending (p ∷ []))) ⊎ ((others : List (List ℕ)) × (w ≡ p ∷ others))

  pub record IsOrdered (p : List ℕ) (e : Endpoint) : Type 0 where
    pub ending : (e.goodbye ≡ not_closing) ⊎ IsClosedConn e.conn
    pub turn : AtTurn e.goodbye e.holder e.wire
    pub opening : (e.broken ≡ true) ⊎ Opens p e.holder e.wire
    pub tally : e.records_sent ≡ length e.wire % 2 ^ 64

  pub SameTurn-IsOrdered :
      (p : List ℕ) (e e' : Endpoint) → SameTurn e e' → IsOrdered p e → IsOrdered p e'
  SameTurn-IsOrdered p e e' s v = record {
    ending = elim v.ending [ inl h ↦ inl (s.same_goodbye ∙ h) | inr h ↦ inr (s.still_closed h) ];
    turn = rw (s.same_goodbye, s.same_holder, s.same_wire) v.turn;
    opening = rw (s.same_broken, s.same_holder, s.same_wire) v.opening;
    tally = rw (s.same_tally, s.same_wire) v.tally;
  }
