-- ===== src/Endpoint/Order/Run.antt =====
-- The order of the records over a connection's life.
use qmux_go.Base.{
  Bool, Bool-cases, List, Option, Option-cases, [], arith, false, inl, inr, is_some, none, refl,
  some, subst, sym, true, ℕ, ◌+◌, ◌∷◌, ◌≡◌,
}
use qmux_go.Config.{Config}
use qmux_go.Conn.Close.{terminate}
use qmux_go.Conn.Failure.{Failure}
use qmux_go.Conn.Receive.{Growth}
use qmux_go.Conn.State.{Conn}
use qmux_go.Endpoint.{
  Endpoint, Holder, Link, Purpose, advance, close_gracefully, close_timeout, farewell, holds,
  new_endpoint, nobody, parameters_record, put_failed, put_next, release, sending, shut_down,
  unsaid, waiting, wordless,
}
use qmux_go.Endpoint.Acts.{Act, acts}
use qmux_go.Endpoint.Closed.{IsClosedConn, terminate-IsClosedConn}
use qmux_go.Endpoint.Kept.{Kept}
use qmux_go.Endpoint.Kept.Acts.{abort-SameTurn, acts_kept, shut_down-SameTurn}
use qmux_go.Endpoint.Order.{IsOrdered, SameTurn-IsOrdered}
use qmux_go.Endpoint.Order.Start.{new_endpoint-IsOrdered}
use qmux_go.Endpoint.Order.Writing.{
  bade-IsOrdered, bidden-IsOrdered, ended-IsOrdered, farewell-IsOrdered, farewell_saying,
  lost-IsOrdered, released-IsOrdered, said_closed, sending_unspoken, sent-IsOrdered,
  starts-IsOrdered,
}
use qmux_go.Varint.{Varint}
use qmux_go.Wire.Error.{Reason}
use qmux_go.Wire.Frame.{ConnectionClose}

-- Terminating.
terminate-open : (c : Conn) (x : Failure) → (terminate c x).1 ≡ true → c.close_err ≡ none
unfolding terminate
terminate-open c x h = ground (arith, h)

module _ ⦃q : Varint⦄ ⦃l : Link⦄ (p : List ℕ) where
  -- The parts of `closeGracefully` once the connection has ended.
  begun-IsOrdered :
      (c : Conn) (t : Option ℕ) (u : ℕ) (f : Option ConnectionClose) (e : Endpoint)
      → e.conn.close_err ≡ none
      → IsClosedConn c
      → IsOrdered p e
      → IsOrdered p (elim f as (λ x. Endpoint) [
        | some g ↦ record e { conn = c; expires = t; forced = some u; goodbye = waiting g }
        | none ↦
            shut_down false
              (record e { conn = c; expires = t; forced = some u; goodbye = wordless })
      ])
  begun-IsOrdered c t u (some g) e n k v =
      SameTurn-IsOrdered p _ _ (ground arith) (ended-IsOrdered p e v c (waiting g) n k refl)
  begun-IsOrdered c t u none e n k v =
      SameTurn-IsOrdered p _ _ (shut_down-SameTurn false _)
        (SameTurn-IsOrdered p _ _ (ground arith) (ended-IsOrdered p e v c wordless n k refl))

  pub close_gracefully-IsOrdered :
      (now : ℕ) (x : Failure) (f : Option ConnectionClose) (e : Endpoint)
      → IsOrdered p e
      → IsOrdered p (close_gracefully now x f e)
  unfolding close_gracefully
  close_gracefully-IsOrdered now x f e v = elim (Bool-cases (terminate e.conn x).1) [
    | inr h ↦ simp h v
    | inl h ↦ simp h (
        begun-IsOrdered (terminate e.conn x).0 (some (now + close_timeout)) (now + close_timeout) f
          e (terminate-open e.conn x h) (terminate-IsClosedConn e.conn x) v)
  ]

  put_failed-IsOrdered :
      (a : Purpose) (r : List ℕ) (rs : List (List ℕ)) (e : Endpoint)
      → e.holder ≡ holds a (r ∷ rs)
      → IsOrdered p e
      → IsOrdered p (put_failed a e)
  unfolding put_failed
  put_failed-IsOrdered sending r rs e h v = SameTurn-IsOrdered p _ _ (abort-SameTurn _ _) (
      lost-IsOrdered p e v e.goodbye (e.attempts + 1) (sending_unspoken p e v r rs h)
        (elim v.ending [ inl x ↦ inr x | inr x ↦ inl x ]))
  put_failed-IsOrdered farewell r rs e h v =
      let (f, g) = farewell_saying p e v _ h in
      let k = said_closed p e v (λ x. ground (arith, x, g)) in
      simp g (
        SameTurn-IsOrdered p _ _ (shut_down-SameTurn true _)
          (lost-IsOrdered p e v (unsaid f) (e.attempts + 1) refl (inl k)))

  release-IsOrdered :
      (a : Purpose) (e : Endpoint)
      → e.holder ≡ holds a []
      → IsOrdered p e
      → IsOrdered p (release a e)
  unfolding release
  release-IsOrdered sending e h v = released-IsOrdered p e v h
  release-IsOrdered farewell e h v =
      let (f, g) = farewell_saying p e v _ h in
      simp g (SameTurn-IsOrdered p _ _ (shut_down-SameTurn false _) (bidden-IsOrdered p e v f h g))

  put_next-IsOrdered :
      (now : ℕ) (a : Purpose) (r : List ℕ) (rs : List (List ℕ)) (e : Endpoint)
      → e.holder ≡ holds a (r ∷ rs)
      → IsOrdered p e
      → IsOrdered p (put_next now a r rs e)
  unfolding put_next
  put_next-IsOrdered now sending r rs e h v = elim (Option-cases (l.put_record e.attempts r)) [
    | inl n ↦ rw (n, put_next) (put_failed-IsOrdered sending r rs e h v)
    | inr (n, m) ↦ rw (m, put_next) (sent-IsOrdered p e v now n r rs h)
  ]
  put_next-IsOrdered now farewell r rs e h v = elim (Option-cases (l.put_record e.attempts r)) [
    | inl n ↦ rw (n, put_next) (put_failed-IsOrdered farewell r rs e h v)
    | inr (n, m) ↦ rw (m, put_next) (bade-IsOrdered p e v now n r rs h)
  ]

  advanced-IsOrdered :
      (now : ℕ) (e : Endpoint) (h : Holder)
      → e.holder ≡ h
      → IsOrdered p e
      → IsOrdered p (elim h as (λ x. Endpoint) [
        | nobody ↦ e
        | holds a [] ↦ release a e
        | holds a (r ∷ rs) ↦ put_next now a r rs e
      ])
  advanced-IsOrdered now e nobody h v = v
  advanced-IsOrdered now e (holds a []) h v = release-IsOrdered a e h v
  advanced-IsOrdered now e (holds a (r ∷ rs)) h v = put_next-IsOrdered now a r rs e h v

  pub advance-IsOrdered : (now : ℕ) (e : Endpoint) → IsOrdered p e → IsOrdered p (advance now e)
  unfolding advance
  advance-IsOrdered now e v = advanced-IsOrdered now e e.holder refl v

  Kept-IsOrdered : Kept (IsOrdered p)
  Kept-IsOrdered = record {
    same = SameTurn-IsOrdered p;
    starts = λ e c rs h k n v.
        starts-IsOrdered p e v c rs h (λ m. subst (λ o. is_some o ≡ true) (sym k) m) n;
    bids = λ e f h g v. farewell-IsOrdered p e v f h g;
    goes_on = advance-IsOrdered;
    closes = close_gracefully-IsOrdered;
  }

module _ ⦃q : Varint⦄ ⦃g : Growth⦄ ⦃l : Link⦄ (render : Reason → List ℕ) where
  pub acts-IsOrdered :
      (now : ℕ) (cfg : Config) (is_server : Bool) (first : List Act)
      → IsOrdered (parameters_record cfg) (acts render (new_endpoint now cfg is_server) first)
  acts-IsOrdered now cfg is_server first =
      acts_kept render _ (Kept-IsOrdered (parameters_record cfg)) _ first
        (new_endpoint-IsOrdered now cfg is_server)
