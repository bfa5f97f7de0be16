-- ===== src/Exchange/Route.antt =====
-- Which frames reach a stream: `streamLocked` of qmux/conn.go on a stream that is there.
use qmux_go.Base.{
  Bool, Bool-cases, List, Option, ap, arith, contains, false, if◌then◌else◌, inl, inr, ltb, none,
  not, refl, some, true, ℕ, ◌&&◌, ◌+◌, ◌-◌, ◌∙◌, ◌≡◌,
}
use qmux_go.Conn.Failure.{Failure}
use qmux_go.Conn.Ids.{Dir, initiated_locally, one_way, same, stream_dir, stream_index, two_way}
use qmux_go.Conn.State.{Both, Conn, Incoming, Outgoing, Stream, at, find, lookup_stream, put_at}
use qmux_go.Conn.Streams.{is_two_way, open_incoming, stream_locked}
use qmux_go.Wire.Error.{ok}

-- The stream was opened, by this endpoint or within its limit by the peer.
abbrev pub is_known : Conn → ℕ → Bool
is_known c id =
    let i = at (stream_dir id) c.incoming in
    if initiated_locally c.is_server id
    then ltb (stream_index id) (at (stream_dir id) c.outgoing).next
    else (ltb (stream_index id) i.next && ltb (stream_index id) i.max)

-- An open connection on which the frames of the peer about a stream reach it.
pub record IsRoute (c : Conn) (id : ℕ) (recv : Bool) : Type 0 where
  pub is_ready : c.ready ≡ true
  pub is_open : c.close_err ≡ none
  pub allowed :
      (not (is_two_way (stream_dir id)) && same (initiated_locally c.is_server id) recv) ≡ false
  pub known : is_known c id ≡ true
  pub stored : contains id c.streams ≡ true

-- What the operations on the stream leave alone.
abbrev pub route : Conn → ℕ → Bool × Option Failure × Bool × Bool × List ℕ
route c id = (c.ready, c.close_err, c.is_server, is_known c id, c.streams)

abbrev pub SameRoute : Conn → Conn → ℕ → Type 0
SameRoute c d id = route d id ≡ route c id

pub SameRoute-IsRoute :
    (c d : Conn) (id : ℕ) (recv : Bool) → SameRoute c d id → IsRoute c id recv → IsRoute d id recv
SameRoute-IsRoute c d id recv h v =
    let side : d.is_server ≡ c.is_server = ap (λ r. r.2) h in
    let ids : d.streams ≡ c.streams = ap (λ r. r.4) h in
    record {
      is_ready = ap (λ r. r.0) h ∙ v.is_ready;
      is_open = ap (λ r. r.1) h ∙ v.is_open;
      allowed = rw side v.allowed;
      known = ap (λ r. r.3) h ∙ v.known;
      stored = rw ids v.stored;
    }

open_none : (k : ℕ) (c : Conn) (dir : Dir) → k ≡ 0 → open_incoming k c dir ≡ c
unfolding open_incoming
open_none k c dir e = rw e refl

lookup_lem :
    (c : Conn) (id : ℕ) (s : Stream)
    → contains id c.streams ≡ true
    → find id c.heap ≡ some s
    → lookup_stream c id ≡ some s
unfolding lookup_stream
lookup_lem c id s e f = rw e f

pub stream_locked-IsRoute :
    (c : Conn) (id : ℕ) (recv : Bool) (s : Stream)
    → IsRoute c id recv
    → find id c.heap ≡ some s
    → stream_locked c id recv ≡ ok (c, some s)
unfolding stream_locked
stream_locked-IsRoute c id recv s v e =
    let l = lookup_lem c id s v.stored e in
    let m = v.known in
    let a = v.allowed in
    elim (Bool-cases (initiated_locally c.is_server id)) [
      | inl h ↦ ground (arith, h, m, a, l)
      | inr h ↦
          let o =
            open_none (stream_index id + 1 - (at (stream_dir id) c.incoming).next) c (stream_dir id)
              (ground (arith, h, m)) in
          rw (o, h) (ground (arith, h, m, a, l))
    ]

incoming_put :
    (x dir : Dir) (i : Incoming) (b : Both Incoming)
    → i.next ≡ (at dir b).next
    → i.max ≡ (at dir b).max
    → ((at x (put_at dir i b)).next ≡ (at x b).next) × ((at x (put_at dir i b)).max ≡ (at x b).max)
incoming_put two_way two_way i b h k = (h, k)
incoming_put two_way one_way i b h k = (refl, refl)
incoming_put one_way two_way i b h k = (refl, refl)
incoming_put one_way one_way i b h k = (h, k)

outgoing_put :
    (x dir : Dir) (o : Outgoing) (b : Both Outgoing)
    → o.next ≡ (at dir b).next
    → (at x (put_at dir o b)).next ≡ (at x b).next
outgoing_put two_way two_way o b h = h
outgoing_put two_way one_way o b h = refl
outgoing_put one_way two_way o b h = refl
outgoing_put one_way one_way o b h = h

pub incoming_route :
    (c : Conn) (id : ℕ) (dir : Dir) (i : Incoming)
    → i.next ≡ (at dir c.incoming).next
    → i.max ≡ (at dir c.incoming).max
    → SameRoute c (record c { incoming = put_at dir i c.incoming }) id
incoming_route c id dir i h k =
    let (a, b) = incoming_put (stream_dir id) dir i c.incoming h k in rw (a, b) refl

pub outgoing_route :
    (c : Conn) (id : ℕ) (dir : Dir) (o : Outgoing)
    → o.next ≡ (at dir c.outgoing).next
    → SameRoute c (record c { outgoing = put_at dir o c.outgoing }) id
outgoing_route c id dir o h = rw (outgoing_put (stream_dir id) dir o c.outgoing h) refl
