-- ===== src/Endpoint/Guard.antt =====
-- The end of a connection is the end of its transport: `abort`, `closeGracefully` and the timer that
-- it sets in qmux/conn.go.
use qmux_go.Base.{
  Bool, Bool-cases, List, Option, Option-cases, [], arith, false, inl, inr, is_some, none, refl,
  some, subst, true, ℕ, ◌∷◌, ◌≡◌,
}
use qmux_go.Config.{Config}
use qmux_go.Conn.Close.{terminate}
use qmux_go.Conn.Failure.{Failure, write_failed}
use qmux_go.Conn.Receive.{Growth}
use qmux_go.Conn.State.{new_conn}
use qmux_go.Endpoint.{
  Endpoint, Goodbye, Holder, Link, Purpose, advance, close_gracefully, farewell, holds,
  new_endpoint, nobody, not_closing, put_failed, put_next, record_put, release, said, saying,
  sending, shut_down, unsaid, waiting, wordless,
}
use qmux_go.Endpoint.Acts.{Act, act, acts, forces_close}
use qmux_go.Endpoint.Kept.{IsGuarded, Kept}
use qmux_go.Endpoint.Kept.Acts.{abort-SameTurn, acts_kept, shut_down-SameTurn}
use qmux_go.Varint.{Varint}
use qmux_go.Wire.Error.{Reason}
use qmux_go.Wire.Frame.{ConnectionClose}

close_gracefully-IsGuarded :
    ⦃l : Link⦄ (now : ℕ) (x : Failure) (f : Option ConnectionClose) (e : Endpoint)
    → IsGuarded e
    → IsGuarded (close_gracefully now x f e)
unfolding close_gracefully
close_gracefully-IsGuarded now x (some g) e v = elim (Bool-cases (terminate e.conn x).1) [
  | inr h ↦ simp h v
  | inl h ↦ simp h (λ k. inr refl)
]
close_gracefully-IsGuarded now x none e v = elim (Bool-cases (terminate e.conn x).1) [
  | inr h ↦ simp h v
  | inl h ↦ simp h ((shut_down-SameTurn false _).still_guarded (λ k. inr refl))
]

module _ ⦃q : Varint⦄ ⦃l : Link⦄ where
  put_failed-IsGuarded : (p : Purpose) (e : Endpoint) → IsGuarded e → IsGuarded (put_failed p e)
  unfolding put_failed
  put_failed-IsGuarded sending e v = (abort-SameTurn _ write_failed).still_guarded v
  put_failed-IsGuarded farewell e v = unfold shut_down in λ k. inl refl

  release-IsGuarded : (p : Purpose) (e : Endpoint) → IsGuarded e → IsGuarded (release p e)
  unfolding release
  release-IsGuarded sending e v = v
  release-IsGuarded farewell e v =
      (shut_down-SameTurn false _).still_guarded (bidden-IsGuarded e.goodbye)
    where
      bidden-IsGuarded :
          (b : Goodbye)
          → IsGuarded (elim b as (λ x. Endpoint) [
            | saying f ↦ record e { holder = nobody; goodbye = said f }
            | _ ↦ record e { holder = nobody }
          ])
      bidden-IsGuarded (saying f) = v
      bidden-IsGuarded not_closing = v
      bidden-IsGuarded (waiting f) = v
      bidden-IsGuarded (said f) = v
      bidden-IsGuarded (unsaid f) = v
      bidden-IsGuarded wordless = v

  put_next-IsGuarded :
      (now : ℕ) (p : Purpose) (r : List ℕ) (rs : List (List ℕ)) (e : Endpoint)
      → IsGuarded e
      → IsGuarded (put_next now p r rs e)
  unfolding put_next
  put_next-IsGuarded now p r rs e v = elim (Option-cases (l.put_record e.attempts r)) [
    | inl n ↦ rw (n, put_next) (put_failed-IsGuarded p e v)
    | inr (n, m) ↦ rw (m, put_next) (unfold record_put in v)
  ]

  advance-IsGuarded : (now : ℕ) (e : Endpoint) → IsGuarded e → IsGuarded (advance now e)
  unfolding advance
  advance-IsGuarded now e v = advanced-IsGuarded e.holder
    where
      advanced-IsGuarded :
          (h : Holder)
          → IsGuarded (elim h as (λ x. Endpoint) [
            | nobody ↦ e
            | holds a [] ↦ release a e
            | holds a (r ∷ rs) ↦ put_next now a r rs e
          ])
      advanced-IsGuarded nobody = v
      advanced-IsGuarded (holds a []) = release-IsGuarded a e v
      advanced-IsGuarded (holds a (r ∷ rs)) = put_next-IsGuarded now a r rs e v

  Kept-IsGuarded : Kept IsGuarded
  Kept-IsGuarded = record {
    same = λ e e' s v. s.still_guarded v;
    starts = λ e c rs h k n v m. v (subst (λ o. is_some o ≡ true) k m);
    bids = λ e f h g v. v;
    goes_on = advance-IsGuarded;
    closes = close_gracefully-IsGuarded;
  }

module _ ⦃q : Varint⦄ ⦃g : Growth⦄ ⦃l : Link⦄ (render : Reason → List ℕ) where
  -- Whatever writers, goroutines, calls and records of the peer there are, in any order, if a
  -- connection has ended then its transport is closed, at the latest when the timer that
  -- `closeGracefully` sets goes off.
  pub closing_ends :
      (now : ℕ) (cfg : Config) (is_server : Bool) (first : List Act)
      → is_some (acts render (new_endpoint now cfg is_server) first).conn.close_err ≡ true
      → (act render (acts render (new_endpoint now cfg is_server) first) forces_close).link_closed
        ≡ true
  unfolding act
  closing_ends now cfg is_server first h =
      let e = acts render (new_endpoint now cfg is_server) first in
      let v : IsGuarded (new_endpoint now cfg is_server) =
        unfold new_endpoint new_conn in λ m. absurd (ground (arith, m)) in
      elim (acts_kept render IsGuarded Kept-IsGuarded (new_endpoint now cfg is_server) first v h) [
        | inr k ↦ simp k refl
        | inl k ↦ ground (arith, k)
      ]
