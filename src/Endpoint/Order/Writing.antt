-- ===== src/Endpoint/Order/Writing.antt =====
-- The writers and the order of their records.
use qmux_go.Base.{
  List, [], ap, arith, false, inl, inr, length-append, none, refl, subst, sym, true, ℕ, ◌++◌, ◌∙◌,
  ◌∷◌, ◌≡◌, ◌≢◌, ◌⊎◌,
}
use qmux_go.Conn.State.{Conn}
use qmux_go.Endpoint.{
  Endpoint, Goodbye, Purpose, farewell, farewell_record, holds, nobody, not_closing, record_put,
  said, saying, sending, waiting,
}
use qmux_go.Endpoint.Closed.{IsClosedConn}
use qmux_go.Endpoint.Order.{EndsWith, IsOrdered, is_farewell, is_unspoken}
use qmux_go.Varint.{Varint}
use qmux_go.Wire.Frame.{ConnectionClose}
use qmux_go.Wire.Reader.{rest}

holds-inj :
    (a b : Purpose) (r s : List ℕ) (rs ss : List (List ℕ))
    → holds a (r ∷ rs) ≡ holds b (s ∷ ss)
    → (r ≡ s) × (rs ≡ ss)
holds-inj a b r s rs ss h = ground arith

pub said_closed :
    ⦃q : Varint⦄ (p : List ℕ) (e : Endpoint)
    → IsOrdered p e
    → e.goodbye ≢ not_closing
    → IsClosedConn e.conn
said_closed p e v h = elim v.ending [ inl x ↦ absurd (h x) | inr x ↦ x ]

module _ ⦃q : Varint⦄ (p : List ℕ) (e : Endpoint) (v : IsOrdered p e) where
  -- A writer that takes the free lock has nothing to write once the connection has ended.
  pub starts-IsOrdered :
      (c : Conn) (rs : List (List ℕ))
      → e.holder ≡ nobody
      → (IsClosedConn e.conn → IsClosedConn c)
      → (IsClosedConn e.conn → rs ≡ [])
      → IsOrdered p (record e { conn = c; holder = holds sending rs })
  starts-IsOrdered c rs h k n = record {
    ending = elim v.ending [ inl x ↦ inl x | inr x ↦ inr (k x) ];
    turn = elim v.turn [
      | inl (a, b) ↦ inl (refl, b)
      | inr (inl (f, a, b)) ↦ absurd (ground (arith, h, b))
      | inr (inr (inl (f, a, b, c))) ↦ absurd (ground (arith, h, b))
      | inr (inr (inr (f, a, b, c))) ↦ inr (
          inr (
            inr (
              f,
              a,
              inr (ap (holds sending) (n (said_closed p e v (λ x. ground (arith, x, a))))),
              c,
            )))
    ];
    opening = elim v.opening [
      | inl x ↦ inl x
      | inr (inl (a, b)) ↦ absurd (ground (arith, h, b))
      | inr (inr x) ↦ inr (inr x)
    ];
    tally = v.tally;
  }

  -- A record that is not the last one goes out.
  pub sent-IsOrdered :
      (now n : ℕ) (r : List ℕ) (rs : List (List ℕ))
      → e.holder ≡ holds sending (r ∷ rs)
      → IsOrdered p (record (record_put now n r e) { holder = holds sending rs })
  unfolding record_put
  sent-IsOrdered now n r rs h = record {
    ending = v.ending;
    turn = elim v.turn [
      | inl (a, b) ↦ inl (refl, b)
      | inr (inl (f, a, b)) ↦ absurd (ground (arith, h, b))
      | inr (inr (inl (f, a, b, c))) ↦ absurd (ground (arith, h, b))
      | inr (inr (inr (f, a, b, c))) ↦ absurd (ground (arith, h, b))
    ];
    opening = elim v.opening [
      | inl x ↦ inl x
      | inr (inl (a, b)) ↦
          inr (inr ([], let (x, y) = holds-inj _ _ r p rs [] (sym h ∙ b) in rw (a, x) refl))
      | inr (inr (rest, x)) ↦ inr (inr (rest ++ r ∷ [], ap (λ w. w ++ r ∷ []) x))
    ];
    tally = omega (arith, v.tally, length-append e.wire (r ∷ []));
  }

  -- The record with the CONNECTION_CLOSE frame goes out.
  pub bade-IsOrdered :
      (now n : ℕ) (r : List ℕ) (rs : List (List ℕ))
      → e.holder ≡ holds farewell (r ∷ rs)
      → IsOrdered p (record (record_put now n r e) { holder = holds farewell rs })
  unfolding record_put
  bade-IsOrdered now n r rs h = record {
    ending = v.ending;
    turn = elim v.turn [
      | inl (a, b) ↦ absurd (ground (arith, h, a))
      | inr (inl (f, a, b)) ↦
          let (x, y) = holds-inj _ _ r (farewell_record f) rs [] (sym h ∙ b) in
          inr (inr (inl (f, a, ap (holds farewell) y, (e.wire, ap (λ z. e.wire ++ z ∷ []) x))))
      | inr (inr (inl (f, a, b, c))) ↦ absurd (ground (arith, h, b))
      | inr (inr (inr (f, a, b, c))) ↦ absurd (ground (arith, h, b))
    ];
    opening = elim v.opening [
      | inl x ↦ inl x
      | inr (inl (a, b)) ↦ absurd (ground (arith, h, b))
      | inr (inr (rest, x)) ↦ inr (inr (rest ++ r ∷ [], ap (λ w. w ++ r ∷ []) x))
    ];
    tally = omega (arith, v.tally, length-append e.wire (r ∷ []));
  }

  -- The lock is released.
  pub released-IsOrdered : e.holder ≡ holds sending [] → IsOrdered p (record e { holder = nobody })
  released-IsOrdered h = record {
    ending = v.ending;
    turn = elim v.turn [
      | inl (a, b) ↦ inl (refl, b)
      | inr (inl (f, a, b)) ↦ absurd (ground (arith, h, b))
      | inr (inr (inl (f, a, b, c))) ↦ absurd (ground (arith, h, b))
      | inr (inr (inr (f, a, b, c))) ↦ inr (inr (inr (f, a, inl refl, c)))
    ];
    opening = elim v.opening [
      | inl x ↦ inl x
      | inr (inl (a, b)) ↦ absurd (ground (arith, h, b))
      | inr (inr x) ↦ inr (inr x)
    ];
    tally = v.tally;
  }

  -- The lock is released after the CONNECTION_CLOSE frame.
  pub bidden-IsOrdered :
      (f : ConnectionClose)
      → e.holder ≡ holds farewell []
      → e.goodbye ≡ saying f
      → IsOrdered p (record e { holder = nobody; goodbye = said f })
  bidden-IsOrdered f h g = record {
    ending = inr (said_closed p e v (λ x. ground (arith, x, g)));
    turn = elim v.turn [
      | inl (a, b) ↦ absurd (ground (arith, h, a))
      | inr (inl (f', a, b)) ↦ absurd (ground (arith, h, b))
      | inr (inr (inl (f', a, b, c))) ↦
          let i : f' ≡ f = ground (arith, a, g) in
          inr (inr (inr (f, refl, inl refl, subst (λ z. EndsWith (farewell_record z) e.wire) i c)))
      | inr (inr (inr (f', a, b, c))) ↦ absurd (ground (arith, h, b))
    ];
    opening = elim v.opening [
      | inl x ↦ inl x
      | inr (inl (a, b)) ↦ absurd (ground (arith, h, b))
      | inr (inr x) ↦ inr (inr x)
    ];
    tally = v.tally;
  }

  -- The transport fails.
  pub lost-IsOrdered :
      (g : Goodbye) (n : ℕ)
      → is_unspoken g ≡ true
      → IsClosedConn e.conn ⊎ (g ≡ not_closing)
      → IsOrdered p (record e { holder = nobody; goodbye = g; attempts = n; broken = true })
  lost-IsOrdered g n u k = record {
    ending = elim k [ inl x ↦ inr x | inr x ↦ inl x ];
    turn = inl (refl, u);
    opening = inl refl;
    tally = v.tally;
  }

  -- `closeGracefully` gets the lock.
  pub farewell-IsOrdered :
      (f : ConnectionClose)
      → e.holder ≡ nobody
      → e.goodbye ≡ waiting f
      → IsOrdered p
          (record e { goodbye = saying f; holder = holds farewell (farewell_record f ∷ []) })
  farewell-IsOrdered f h g = record {
    ending = inr (said_closed p e v (λ x. ground (arith, x, g)));
    turn = inr (inl (f, refl, refl));
    opening = elim v.opening [
      | inl x ↦ inl x
      | inr (inl (a, b)) ↦ absurd (ground (arith, h, b))
      | inr (inr x) ↦ inr (inr x)
    ];
    tally = v.tally;
  }

  -- Only `closeGracefully` of an ended connection has a record to say goodbye.
  open_quiet : e.conn.close_err ≡ none → is_farewell e.holder ≡ false
  open_quiet n = elim v.turn [
    | inl (a, b) ↦ a
    | inr (inl (f, a, b)) ↦
        let k = said_closed p e v (λ x. ground (arith, x, a)) in absurd (ground (arith, k, n))
    | inr (inr (inl (f, a, b, c))) ↦
        let k = said_closed p e v (λ x. ground (arith, x, a)) in absurd (ground (arith, k, n))
    | inr (inr (inr (f, a, b, c))) ↦
        let k = said_closed p e v (λ x. ground (arith, x, a)) in absurd (ground (arith, k, n))
  ]

  -- The connection ends.
  pub ended-IsOrdered :
      (c : Conn) (g : Goodbye)
      → e.conn.close_err ≡ none
      → IsClosedConn c
      → is_unspoken g ≡ true
      → IsOrdered p (record e { conn = c; goodbye = g })
  ended-IsOrdered c g n k u = record {
    ending = inr k;
    turn = inl (open_quiet n, u);
    opening = v.opening;
    tally = v.tally;
  }

  -- What the holder says of the close.
  pub sending_unspoken :
      (r : List ℕ) (rs : List (List ℕ))
      → e.holder ≡ holds sending (r ∷ rs)
      → is_unspoken e.goodbye ≡ true
  sending_unspoken r rs h = elim v.turn [
    | inl (a, b) ↦ b
    | inr (inl (f, a, b)) ↦ absurd (ground (arith, h, b))
    | inr (inr (inl (f, a, b, c))) ↦ absurd (ground (arith, h, b))
    | inr (inr (inr (f, a, b, c))) ↦ absurd (ground (arith, h, b))
  ]

  pub farewell_saying :
      (rs : List (List ℕ))
      → e.holder ≡ holds farewell rs
      → (f : ConnectionClose) × (e.goodbye ≡ saying f)
  farewell_saying rs h = elim v.turn [
    | inl (a, b) ↦ absurd (ground (arith, h, a))
    | inr (inl (f, a, b)) ↦ (f, a)
    | inr (inr (inl (f, a, b, c))) ↦ (f, a)
    | inr (inr (inr (f, a, b, c))) ↦ absurd (ground (arith, h, b))
  ]

  pub said-EndsWith :
      (f : ConnectionClose) → e.goodbye ≡ said f → EndsWith (farewell_record f) e.wire
  said-EndsWith f h = elim v.turn [
    | inl (a, b) ↦ absurd (ground (arith, h, b))
    | inr (inl (f', a, b)) ↦ absurd (ground (arith, h, a))
    | inr (inr (inl (f', a, b, c))) ↦ absurd (ground (arith, h, a))
    | inr (inr (inr (f', a, b, c))) ↦
        let i : f' ≡ f = ground (arith, a, h) in
        subst (λ z. EndsWith (farewell_record z) e.wire) i c
  ]
