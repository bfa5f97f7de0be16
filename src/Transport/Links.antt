-- ===== src/Transport/Links.antt =====
-- The two implementations of `recordTransport` of qmux/transport.go: what the underlying connection
-- does is an argument. A method that it may not have is an `Option`.
use qmux_go.Base.{
  Bool, List, Option, [], arith, false, if◌then◌else◌, length, length-append, none, some, ℕ, ◌++◌,
  ◌-◌, ◌∷◌, ◌≡◌,
}
use qmux_go.Endpoint.{Link}
use qmux_go.Transport.{record_headroom, write_message, write_record}
use qmux_go.Varint.{Varint}

-- The buffer of a record: the headroom, and the Frames field.
abbrev empty_headroom : List ℕ
empty_headroom = 0 ∷ 0 ∷ 0 ∷ 0 ∷ 0 ∷ 0 ∷ 0 ∷ 0 ∷ []

abbrev pub buffer_of : List ℕ → List ℕ
buffer_of r = empty_headroom ++ r

-- `closeWrite` on a byte stream: whether its `CloseWrite`, if it has one, succeeds.
unfoldable pub close_write : Option Bool → Bool
close_write none = false
close_write (some succeeds) = succeeds

-- A byte stream whose `Write` gives the bytes written, or an error, by how many records there were
-- before.
unfoldable pub stream_link : ⦃q : Varint⦄ → (ℕ → List ℕ → Option ℕ) → Option Bool → Link
stream_link write half = record {
  put_record = λ k r. write k (write_record (buffer_of r));
  half_close = close_write half;
}

-- `closeWrite` on messages.
abbrev pub close_write_messages : Bool
close_write_messages = false

-- Messages, of which `WriteMessage` takes each or not: the record's bytes are counted.
unfoldable pub message_link : (ℕ → List ℕ → Bool) → Link
message_link takes = record {
  put_record = λ k r.
      (if takes k (write_message (buffer_of r))
        then some (length (buffer_of r) - record_headroom)
        else none);
  half_close = close_write_messages;
}

-- Over messages, a record that is taken counts with the bytes of its Frames field.
message_link-length :
    (takes : ℕ → List ℕ → Bool) (k n : ℕ) (r : List ℕ)
    → (message_link takes).put_record k r ≡ some n
    → n ≡ length r
unfolding message_link
message_link-length takes k n r e = ground (arith, e, length-append empty_headroom r)

-- The network and the text of an address.
pub record Address : Type 0 where
  pub network : List ℕ
  pub text : List ℕ

-- `unknownAddr`: "qmux" and "unknown".
abbrev pub unknown_addr : Address
unknown_addr = record {
  network = 113 ∷ 109 ∷ 117 ∷ 120 ∷ [];
  text = 117 ∷ 110 ∷ 107 ∷ 110 ∷ 111 ∷ 119 ∷ 110 ∷ [];
}

-- `localAddr` and `remoteAddr` on messages, of a connection that may report its addresses.
unfoldable pub message_local_addr : Option Address → Address
message_local_addr none = unknown_addr
message_local_addr (some a) = a

unfoldable pub message_remote_addr : Option Address → Address
message_remote_addr none = unknown_addr
message_remote_addr (some a) = a

-- `tlsStateOf`: the state that the connection reports, or the zero value.
unfoldable pub tls_state_of {ℓ} : {A : Type ℓ} → A → Option A → A
tls_state_of zero_state none = zero_state
tls_state_of zero_state (some state) = state
