-- ===== src/Adapter.antt =====
-- `NetConn` of qmux/adapter.go: a message-oriented transport as a byte stream. `ReadMessage` gives
-- the messages in order and then an error; a transport that takes no message gives an error of its
-- own.
use qmux_go.Base.{
  Bool, List, Option, [], drop, if◌then◌else◌, length, none, some, take, ℕ, ◌++◌, ◌∷◌,
}
pub mod Pending
pub mod Records

-- The messages that are still to be read, and the rest of the last one.
pub record Adapter : Type 0 where
  pub messages : List (List ℕ)
  pub buf : List ℕ

abbrev pub net_conn : List (List ℕ) → Adapter
net_conn messages = record { messages = messages; buf = [] }

-- The loop of `Read`, which skips messages that are empty: `none` for the error of `ReadMessage`.
unfoldable pub refill : List (List ℕ) → List ℕ → Option Adapter
refill messages (b ∷ bs) = some (record { messages = messages; buf = b ∷ bs })
refill [] [] = none
refill (p ∷ messages) [] = refill messages p

-- `Read` into room for so many bytes: what is copied.
unfoldable pub adapter_read : ℕ → Adapter → Option (List ℕ × Adapter)
adapter_read room a = elim (refill a.messages a.buf) [
  | some a' ↦ some (take room a'.buf, record a' { buf = drop room a'.buf })
  | none ↦ none
]

-- `Write`: how many bytes it says it wrote, with the messages on the transport, which takes the
-- message or not.
unfoldable pub adapter_write : Bool → List ℕ → List (List ℕ) → Option ℕ × List (List ℕ)
adapter_write taken b messages =
    if taken then (some (length b), messages ++ b ∷ []) else (none, messages)

-- A reader that goes on until there is an error or no room is left.
unfoldable pub drain : List ℕ → Adapter → List ℕ
drain [] a = []
drain (room ∷ rooms) a = elim (adapter_read room a) [
  | some (b, a') ↦ b ++ drain rooms a'
  | none ↦ []
]
