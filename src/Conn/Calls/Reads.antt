-- ===== src/Conn/Calls/Reads.antt =====
-- What the calls that wait on a stream return: `read`, `peek` and `waitSendCredit` of
-- qmux/stream.go.
use qmux_go.Base.{
  Any, Bool-cases, List, [], ap, arith, drop, false, inl, inr, length, length-take, ltb, ltb→le,
  none, refl, take, take-append-drop, ℕ, ◌++◌, ◌<◌, ◌==◌, ◌∙◌, ◌∷◌, ◌≡◌, ◌≤◌, ◌⊎◌,
}
use qmux_go.Config.{Config}
use qmux_go.Conn.Calls.{
  CreditEnd, Look, ReadEnd, Waited, after_wait, credit_round, expired, go_on, has_credit, peek,
  peek_loop, peek_round, read_loop, read_ok, reading_round, still_waiting, wait_send_credit,
  wait_until,
}
use qmux_go.Conn.Receive.{Reading, data_read, read_error, try_peek, try_read, unread, wait_for}
use qmux_go.Conn.Send.{
  Sending, credit, send_credit_locked, send_err_locked, send_error, try_send, wait_either,
}
use qmux_go.Conn.State.{Conn, Stream}

-- What a read of data returns for a round: between 1 byte and the room, from the front.
abbrev pub IsReadAt : ℕ → List ℕ → Look → Type 0
IsReadAt room p l =
    (0 < length p) × (length p ≤ room) × ((left : List ℕ) × (p ++ left ≡ unread l.stream))

after_wait-ok : (w : Waited) (r : ReadEnd) (p : List ℕ) → after_wait w r ≡ read_ok p → r ≡ read_ok p
unfolding after_wait
after_wait-ok go_on r p e = e
after_wait-ok expired r p e = ground (arith, e)
after_wait-ok still_waiting r p e = ground (arith, e)

-- A round that ends with data got it from `tryRead`, or leaves it to the other rounds.
reading_round-ok :
    (room : ℕ) (l : Look) (r : Reading) (others : ReadEnd) (p : List ℕ)
    → 0 < room
    → reading_round room l r others ≡ read_ok p
    → ((r ≡ data_read p) × (0 < length p)) ⊎ (others ≡ read_ok p)
unfolding reading_round
reading_round-ok room l (data_read d) others p h e = inl (ground (arith, e, h))
reading_round-ok room l (read_error d x) others p h e = ground (arith, e)
reading_round-ok room l (wait_for k d) others p h e =
    let z : (room == 0) ≡ false = ground (arith, h) in
    inr (after_wait-ok (wait_until d l.now l.wakeup) others p (rw z at e))

try_read-data :
    (c : Conn) (s : Stream) (room : ℕ) (p : List ℕ)
    → (try_read c s room).1 ≡ data_read p
    → p ≡ take room (unread s)
unfolding try_read
try_read-data c s room p e = ground (arith, e)

-- If `read` into a buffer that is not empty returns without an error, then some round of its loop
-- found unread data, and what it returns is between one byte and as many as the buffer holds,
-- from the front of that data.
pub read_loop-IsReadAt :
    (room : ℕ) (looks : List Look) (p : List ℕ)
    → 0 < room
    → read_loop looks room ≡ read_ok p
    → Any (IsReadAt room p) looks
unfolding read_loop
read_loop-IsReadAt room [] p h e = ground (arith, e)
read_loop-IsReadAt room (l ∷ looks) p h e =
    elim (reading_round-ok room l (try_read l.conn l.stream room).1 (read_loop looks room) p h e) [
      | inl (r, z) ↦
          let m = try_read-data l.conn l.stream room p r in
          inl (
            z,
            omega (arith, ap length m, length-take room (unread l.stream)),
            (
              drop room (unread l.stream),
              ap (λ y. y ++ drop room (unread l.stream)) m
                  ∙ take-append-drop room (unread l.stream),
            ),
          )
      | inr r ↦ inr (read_loop-IsReadAt room looks p h r)
    ]

-- What a peek returns for a round: all that it has room for, which is the front, and stays.
abbrev pub IsPeekAt : ℕ → List ℕ → Look → Type 0
IsPeekAt room p l =
    (length p ≡ room)
    × ((left : List ℕ) × (p ++ left ≡ unread l.stream))
    × ((try_peek l.conn l.stream room).0 ≡ l.conn)

peek_round-ok :
    (l : Look) (r : Reading) (others : ReadEnd) (p : List ℕ)
    → peek_round l r others ≡ read_ok p
    → (r ≡ data_read p) ⊎ (others ≡ read_ok p)
unfolding peek_round
peek_round-ok l (data_read d) others p e = inl (ground (arith, e))
peek_round-ok l (read_error d x) others p e = ground (arith, e)
peek_round-ok l (wait_for k d) others p e =
    inr (after_wait-ok (wait_until d l.now l.wakeup) others p e)

try_peek-data :
    (c : Conn) (s : Stream) (room : ℕ) (p : List ℕ)
    → (try_peek c s room).1 ≡ data_read p
    → (p ≡ take room (unread s)) × (room ≤ length (unread s)) × ((try_peek c s room).0 ≡ c)
unfolding try_peek
try_peek-data c s room p e = ground (arith, e)

peek_loop-IsPeekAt :
    (room : ℕ) (looks : List Look) (p : List ℕ)
    → peek_loop looks room ≡ read_ok p
    → Any (IsPeekAt room p) looks
unfolding peek_loop
peek_loop-IsPeekAt room [] p e = ground (arith, e)
peek_loop-IsPeekAt room (l ∷ looks) p e =
    elim (peek_round-ok l (try_peek l.conn l.stream room).1 (peek_loop looks room) p e) [
      | inl r ↦
          let (m, w, k) = try_peek-data l.conn l.stream room p r in
          inl (
            omega (arith, ap length m, w, length-take room (unread l.stream)),
            (
              drop room (unread l.stream),
              ap (λ y. y ++ drop room (unread l.stream)) m
                  ∙ take-append-drop room (unread l.stream),
            ),
            k,
          )
      | inr r ↦ inr (peek_loop-IsPeekAt room looks p r)
    ]

-- If `peek` returns without an error, then it was asked for no more than the stream's window, and
-- some round of its loop found that much unread; it returns it all and leaves the connection as
-- it is.
pub peek-IsPeekAt :
    (cfg : Config) (room : ℕ) (looks : List Look) (p : List ℕ)
    → peek cfg looks room ≡ read_ok p
    → (room ≤ cfg.initial_stream_receive_window) × Any (IsPeekAt room p) looks
unfolding peek
peek-IsPeekAt cfg room looks p e = elim (Bool-cases (ltb cfg.initial_stream_receive_window room)) [
  | inl h ↦ ground (arith, e, h)
  | inr h ↦ (ltb→le _ _ h, peek_loop-IsPeekAt room looks p (rw h at e))
]

-- A round that finds the stream able to send, with credit.
abbrev pub IsCreditAt : Look → Type 0
IsCreditAt l = (send_err_locked l.conn l.stream ≡ none) × (0 < send_credit_locked l.conn l.stream)

credit_round-has :
    (l : Look) (r : Sending) (others : CreditEnd)
    → credit_round l r others ≡ has_credit
    → (r ≡ credit) ⊎ (others ≡ has_credit)
unfolding credit_round
credit_round-has l credit others e = inl refl
credit_round-has l (send_error x) others e = ground (arith, e)
credit_round-has l (wait_either k j d) others e = ground (arith, e)

try_send-credit :
    (now : ℕ) (c : Conn) (s : Stream)
    → (try_send now c s).1 ≡ credit
    → (send_err_locked c s ≡ none) × (0 < send_credit_locked c s)
unfolding try_send
try_send-credit now c s e = ground (arith, e)

-- If `waitSendCredit` returns without an error, then some round found the stream able to send, with
-- credit.
pub wait_send_credit-IsCreditAt :
    (looks : List Look) → wait_send_credit looks ≡ has_credit → Any IsCreditAt looks
unfolding wait_send_credit
wait_send_credit-IsCreditAt [] e = ground (arith, e)
wait_send_credit-IsCreditAt (l ∷ looks) e =
    elim (credit_round-has l (try_send l.now l.conn l.stream).1 (wait_send_credit looks) e) [
      | inl r ↦ inl (try_send-credit l.now l.conn l.stream r)
      | inr r ↦ inr (wait_send_credit-IsCreditAt looks r)
    ]
