-- ===== src/Endpoint/Order/Sealed.antt =====
-- Nothing follows the CONNECTION_CLOSE frame that `closeGracefully` has written.
use qmux_go.Base.{
  List, Option, [], ap, arith, inl, inr, is_some, refl, subst, sym, true, ℕ, ◌∙◌, ◌∷◌, ◌≡◌, ◌⊎◌,
}
use qmux_go.Conn.Close.{terminate}
use qmux_go.Conn.Failure.{Failure}
use qmux_go.Endpoint.{
  Endpoint, Holder, Link, advance, close_gracefully, farewell, holds, nobody, put_next, release,
  said, sending,
}
use qmux_go.Endpoint.Closed.{IsClosedConn}
use qmux_go.Endpoint.Kept.{Kept, SameTurn}
use qmux_go.Endpoint.Order.{IsOrdered}
use qmux_go.Endpoint.Order.Writing.{said_closed}
use qmux_go.Varint.{Varint}
use qmux_go.Wire.Frame.{ConnectionClose}

-- The frame is written, and these are the records on the transport.
pub record IsSealed (f : ConnectionClose) (w : List (List ℕ)) (e : Endpoint) : Type 0 where
  pub spoken : e.goodbye ≡ said f
  pub quiet : (e.holder ≡ nobody) ⊎ (e.holder ≡ holds sending [])
  pub over : IsClosedConn e.conn
  pub sealed : e.wire ≡ w

SameTurn-IsSealed :
    (f : ConnectionClose) (w : List (List ℕ)) (e e' : Endpoint)
    → SameTurn e e'
    → IsSealed f w e
    → IsSealed f w e'
SameTurn-IsSealed f w e e' s v = record {
  spoken = s.same_goodbye ∙ v.spoken;
  quiet = rw (s.same_holder) v.quiet;
  over = s.still_closed v.over;
  sealed = s.same_wire ∙ v.sealed;
}

-- A connection that has ended is not closed again.
pub close_gracefully_closed :
    ⦃l : Link⦄ (now : ℕ) (x : Failure) (f : Option ConnectionClose) (e : Endpoint)
    → IsClosedConn e.conn
    → close_gracefully now x f e ≡ e
unfolding close_gracefully terminate
close_gracefully_closed now x f e h = ground (arith, h)

module _ ⦃q : Varint⦄ ⦃l : Link⦄ (f : ConnectionClose) (w : List (List ℕ)) where
  advanced-IsSealed :
      (now : ℕ) (e : Endpoint) (h : Holder)
      → e.holder ≡ h
      → IsSealed f w e
      → IsSealed f w (elim h as (λ x. Endpoint) [
        | nobody ↦ e
        | holds a [] ↦ release a e
        | holds a (r ∷ rs) ↦ put_next now a r rs e
      ])
  unfolding release
  advanced-IsSealed now e nobody h v = v
  advanced-IsSealed now e (holds sending []) h v = record {
    spoken = v.spoken;
    quiet = inl refl;
    over = v.over;
    sealed = v.sealed;
  }
  advanced-IsSealed now e (holds farewell []) h v =
      absurd (elim v.quiet [ inl x ↦ ground (arith, x, h) | inr x ↦ ground (arith, x, h) ])
  advanced-IsSealed now e (holds a (r ∷ rs)) h v =
      absurd (elim v.quiet [ inl x ↦ ground (arith, x, h) | inr x ↦ ground (arith, x, h) ])

  advance-IsSealed : (now : ℕ) (e : Endpoint) → IsSealed f w e → IsSealed f w (advance now e)
  unfolding advance
  advance-IsSealed now e v = advanced-IsSealed now e e.holder refl v

  pub Kept-IsSealed : Kept (IsSealed f w)
  Kept-IsSealed = record {
    same = SameTurn-IsSealed f w;
    starts = λ e c rs h k n v. record {
      spoken = v.spoken;
      quiet = inr (ap (holds sending) (n v.over));
      over = subst (λ o. is_some o ≡ true) (sym k) v.over;
      sealed = v.sealed;
    };
    bids = λ e f' h g v. absurd (ground (arith, g, v.spoken));
    goes_on = advance-IsSealed;
    closes = λ now x f' e v. simp (close_gracefully_closed now x f' e v.over) v;
  }

pub IsOrdered-IsSealed :
    ⦃q : Varint⦄ (f : ConnectionClose) (p : List ℕ) (e : Endpoint)
    → e.goodbye ≡ said f
    → IsOrdered p e
    → IsSealed f e.wire e
IsOrdered-IsSealed f p e h v = record {
  spoken = h;
  quiet = elim v.turn [
    | inl (a, b) ↦ absurd (ground (arith, h, b))
    | inr (inl (f', a, b)) ↦ absurd (ground (arith, h, a))
    | inr (inr (inl (f', a, b, c))) ↦ absurd (ground (arith, h, a))
    | inr (inr (inr (f', a, b, c))) ↦ b
  ];
  over = said_closed p e v (λ x. ground (arith, x, h));
  sealed = refl;
}
