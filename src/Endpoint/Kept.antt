-- ===== src/Endpoint/Kept.antt =====
-- What holds of a connection on its transport, whatever happens: an interface of the writers, the
-- goroutines and the calls of qmux/conn.go and qmux/stream.go, for a predicate on what is written.
use qmux_go.Base.{List, Option, [], is_some, true, ℕ, ◌∷◌, ◌≡◌, ◌⊎◌}
use qmux_go.Conn.Failure.{Failure}
use qmux_go.Conn.Handle.Open.{SameEnd}
use qmux_go.Conn.State.{Conn}
use qmux_go.Endpoint.{
  Endpoint, Link, advance, close_gracefully, farewell, farewell_record, holds, nobody, saying,
  sending, waiting,
}
use qmux_go.Endpoint.Closed.{IsClosedConn}
use qmux_go.Varint.{Varint}
use qmux_go.Wire.Frame.{ConnectionClose}
pub mod Writers
pub mod Acts

-- Once the connection has ended, its transport is closed, or a timer is set that closes it.
abbrev pub IsGuarded : Endpoint → Type 0
IsGuarded e = IsClosedConn e.conn → (e.link_closed ≡ true) ⊎ (is_some e.forced ≡ true)

-- Nothing changes but the connection, which stays ended if it has, and the clock.
pub record SameTurn (e e' : Endpoint) : Type 0 where
  pub same_goodbye : e'.goodbye ≡ e.goodbye
  pub same_holder : e'.holder ≡ e.holder
  pub same_wire : e'.wire ≡ e.wire
  pub same_broken : e'.broken ≡ e.broken
  pub same_tally : e'.records_sent ≡ e.records_sent
  pub still_closed : IsClosedConn e.conn → IsClosedConn e'.conn
  pub still_guarded : IsGuarded e → IsGuarded e'

-- A predicate that each way to take the write lock, to write and to close preserves.
pub record Kept ⦃q : Varint⦄ ⦃l : Link⦄ (P : Endpoint → Type 0) : Type 0 where
  pub same : (e e' : Endpoint) → SameTurn e e' → P e → P e'
  pub starts :
      (e : Endpoint) (c : Conn) (rs : List (List ℕ))
      → e.holder ≡ nobody
      → SameEnd e.conn c
      → (IsClosedConn e.conn → rs ≡ [])
      → P e
      → P (record e { conn = c; holder = holds sending rs })
  pub bids :
      (e : Endpoint) (f : ConnectionClose)
      → e.holder ≡ nobody
      → e.goodbye ≡ waiting f
      → P e
      → P (record e { goodbye = saying f; holder = holds farewell (farewell_record f ∷ []) })
  pub goes_on : (now : ℕ) (e : Endpoint) → P e → P (advance now e)
  pub closes :
      (now : ℕ) (x : Failure) (f : Option ConnectionClose) (e : Endpoint)
      → P e
      → P (close_gracefully now x f e)
