-- ===== src/Endpoint/Kept/Writers.antt =====
-- The writers keep what each way to take the write lock keeps.
use qmux_go.Base.{Bool-cases, List, Option, [], inl, inr, none, refl, some, ℕ, ◌∷◌, ◌≡◌}
use qmux_go.Conn.Handle.Open.{SameOut-SameEnd}
use qmux_go.Conn.Run.{written}
use qmux_go.Conn.Run.Open.{close_send_same, written_same}
use qmux_go.Conn.Send.{close_send}
use qmux_go.Conn.State.{Stream, find}
use qmux_go.Endpoint.{
  Endpoint, Goodbye, Holder, Link, farewell, farewell_record, holds, nobody, not_closing, said,
  saying, unsaid, waiting, wordless,
}
use qmux_go.Endpoint.Acts.{on_held, when_free}
use qmux_go.Endpoint.Closed.{
  close_send_closed, flush_control_closed, flush_control_same, send_datagram_closed,
  write_chunk_closed,
}
use qmux_go.Endpoint.Kept.{Kept}
use qmux_go.Endpoint.Writers.{start_chunk, start_datagram, start_farewell, start_fin, start_flush}
use qmux_go.Varint.{Varint}

module _ ⦃q : Varint⦄ ⦃l : Link⦄ (P : Endpoint → Type 0) (law : Kept P) where
  -- A stream that is written to, or whose end is declared.
  pub chunk_kept :
      (e : Endpoint) (s : Stream) (p : List ℕ) → e.holder ≡ nobody → P e → P (start_chunk e s p)
  unfolding start_chunk
  chunk_kept e s p h v =
      law.starts e _ _ h (SameOut-SameEnd e.conn (written e.conn s p) (written_same e.conn s p))
        (write_chunk_closed e.conn s p) v

  pub fin_kept : (e : Endpoint) (s : Stream) → e.holder ≡ nobody → P e → P (start_fin e s)
  unfolding start_fin
  fin_kept e s h v =
      law.starts e _ _ h (SameOut-SameEnd e.conn (close_send e.conn s).0 (close_send_same e.conn s))
        (close_send_closed e.conn s) v

  pub flush_kept : (now : ℕ) (e : Endpoint) → e.holder ≡ nobody → P e → P (start_flush now e)
  unfolding start_flush
  flush_kept now e h v = elim (Bool-cases e.conn.control_wake) [
    | inr w ↦ simp w v
    | inl w ↦
        simp w (law.starts e _ _ h (flush_control_same now _) (λ k. flush_control_closed now _ k) v)
  ]

  pub datagram_kept : (e : Endpoint) (p : List ℕ) → e.holder ≡ nobody → P e → P (start_datagram e p)
  unfolding start_datagram
  datagram_kept e p h v = law.starts e e.conn _ h refl (send_datagram_closed e.conn p) v

  bids_kept :
      (e : Endpoint) (g : Goodbye)
      → e.holder ≡ nobody
      → e.goodbye ≡ g
      → P e
      → P (elim g as (λ x. Endpoint) [
        | waiting f ↦ record e {
          goodbye = saying f;
          holder = holds farewell (farewell_record f ∷ []);
        }
        | _ ↦ e
      ])
  bids_kept e not_closing h k v = v
  bids_kept e (waiting f) h k v = law.bids e f h k v
  bids_kept e (saying f) h k v = v
  bids_kept e (said f) h k v = v
  bids_kept e (unsaid f) h k v = v
  bids_kept e wordless h k v = v

  pub bid_kept : (e : Endpoint) → e.holder ≡ nobody → P e → P (start_farewell e)
  unfolding start_farewell
  bid_kept e h v = bids_kept e e.goodbye h refl v

  -- A writer that waits for the lock, and one that has no stream.
  pub when_free_kept : (e e' : Endpoint) → P e → (e.holder ≡ nobody → P e') → P (when_free e e')
  when_free_kept e e' v k = freed_kept e.holder refl
    where
      freed_kept :
          (h : Holder)
          → e.holder ≡ h
          → P (elim h as (λ x. Endpoint) [ nobody ↦ e' | holds p rs ↦ e ])
      freed_kept nobody i = k i
      freed_kept (holds p rs) i = v

  pub on_held_kept :
      (e : Endpoint) (id : ℕ) (call : Stream → Endpoint)
      → P e
      → ((s : Stream) → P (call s))
      → P (on_held e id call)
  on_held_kept e id call v k = found_kept (find id e.conn.heap)
    where
      found_kept :
          (o : Option Stream) → P (elim o as (λ x. Endpoint) [ some s ↦ call s | none ↦ e ])
      found_kept none = v
      found_kept (some s) = k s
