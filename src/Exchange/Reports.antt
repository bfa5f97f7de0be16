-- ===== src/Exchange/Reports.antt =====
-- The limits that `takeControl` of qmux/conn.go sends, and what they do at the other end.
use qmux_go.Base.{
  All, All-append, Bool, Bool-cases, List, [], ap, append-nil, append_assoc, arith, false,
  if◌then◌else◌, inl, inr, is_some, max, none, not, refl, subst, sym, ℕ, ◌++◌, ◌==◌, ◌∙◌, ◌∷◌, ◌≡◌,
}
use qmux_go.Conn.Control.{take_control, take_max_data, take_max_streams, take_ping, take_pong}
use qmux_go.Conn.Ids.{Dir, one_way, two_way}
use qmux_go.Conn.State.{Conn, at}
use qmux_go.Conn.Streams.{is_two_way}
use qmux_go.Exchange.Route.{SameRoute, incoming_route}
use qmux_go.Wire.Frame.{Frame, max_data, max_stream_data, max_streams}

-- The largest value among frames.
unfoldable pub most : (Frame → ℕ) → List Frame → ℕ
most g [] = 0
most g (f ∷ fs) = max (g f) (most g fs)

-- What a frame lets the peer send on the connection and on a stream.
unfoldable pub conn_limit : Frame → ℕ
conn_limit (max_data f) = f.maximum
conn_limit f = 0

unfoldable pub stream_data_limit : ℕ → Frame → ℕ
stream_data_limit id (max_stream_data f) = if f.stream_id == id then f.maximum else 0
stream_data_limit id f = 0

-- The frames that come back for one stream.
abbrev pub IsReport : ℕ → Frame → Type 0
IsReport id (max_data f) = Unit {0}
IsReport id (max_streams f) = Unit {0}
IsReport id (max_stream_data f) = f.stream_id ≡ id
IsReport id f = ⊥

pub most-append :
    (g : Frame → ℕ) (fs hs : List Frame) → most g (fs ++ hs) ≡ max (most g fs) (most g hs)
unfolding most
most-append g [] hs = omega arith
most-append g (f ∷ fs) hs = omega (arith, most-append g fs hs)

-- What a part of `takeControl` does: it appends frames, which let the peer send up to `x` on the
-- connection, and leaves the flag of MAX_DATA at `y`.
record IsPart (id : ℕ) (a b : Conn × List Frame) (x : ℕ) (y : Bool) : Type 0 where
  added : List Frame
  appended : b.1 ≡ a.1 ++ added
  reports : All (IsReport id) added
  no_stream : most (stream_data_limit id) added ≡ 0
  conn_part : most conn_limit added ≡ x
  data_pending : b.0.max_data_pending ≡ y
  control_same : b.0.control ≡ a.0.control
  pong_same : b.0.pong_pending ≡ a.0.pong_pending
  ping_same : b.0.ping_pending ≡ a.0.ping_pending
  heap_same : b.0.heap ≡ a.0.heap
  route_same : SameRoute a.0 b.0 id

IsPart-trans :
    (id : ℕ) (a b d : Conn × List Frame) (x x' : ℕ) (y y' : Bool)
    → IsPart id a b x y
    → IsPart id b d x' y'
    → IsPart id a d (max x x') y'
IsPart-trans id a b d x x' y y' h k = record {
  added = h.added ++ k.added;
  appended = k.appended ∙ ap (λ z. z ++ k.added) h.appended ∙ append_assoc a.1 h.added k.added;
  reports = All-append (IsReport id) h.added k.added h.reports k.reports;
  no_stream =
      omega (arith, most-append (stream_data_limit id) h.added k.added, h.no_stream, k.no_stream);
  conn_part = most-append conn_limit h.added k.added ∙ omega (arith, h.conn_part, k.conn_part);
  data_pending = k.data_pending;
  control_same = k.control_same ∙ h.control_same;
  pong_same = k.pong_same ∙ h.pong_same;
  ping_same = k.ping_same ∙ h.ping_same;
  heap_same = k.heap_same ∙ h.heap_same;
  route_same = k.route_same ∙ h.route_same;
}

idle-IsPart : (id : ℕ) (a : Conn × List Frame) → IsPart id a a 0 a.0.max_data_pending
unfolding most
idle-IsPart id a = record {
  added = [];
  appended = sym (append-nil a.1);
  reports = tt;
  no_stream = refl;
  conn_part = refl;
  data_pending = refl;
  control_same = refl;
  pong_same = refl;
  ping_same = refl;
  heap_same = refl;
  route_same = refl;
}

take_max_data-IsPart :
    (id : ℕ) (a : Conn × List Frame)
    → IsPart id a (take_max_data a) (if a.0.max_data_pending then a.0.recv_max else 0) false
unfolding take_max_data most stream_data_limit conn_limit
take_max_data-IsPart id (c, fs) = elim (Bool-cases c.max_data_pending) [
  | inl h ↦ rw h (record {
    added = max_data (record { maximum = c.recv_max }) ∷ [];
    appended = refl;
    reports = (tt, tt);
    no_stream = refl;
    conn_part = omega arith;
    data_pending = refl;
    control_same = refl;
    pong_same = refl;
    ping_same = refl;
    heap_same = refl;
    route_same = refl;
  })
  | inr h ↦ rw h (idle-IsPart id (record c { max_data_pending = false }, fs))
]

take_max_streams-IsPart :
    (id : ℕ) (dir : Dir) (a : Conn × List Frame)
    → IsPart id a (take_max_streams dir a) 0 a.0.max_data_pending
unfolding take_max_streams most stream_data_limit conn_limit
take_max_streams-IsPart id dir (c, fs) = elim (Bool-cases (at dir c.incoming).pending) [
  | inl h ↦ simp h (record {
    added =
        max_streams (record { uni = not (is_two_way dir); maximum = (at dir c.incoming).max }) ∷ [];
    appended = refl;
    reports = (tt, tt);
    no_stream = refl;
    conn_part = refl;
    data_pending = refl;
    control_same = refl;
    pong_same = refl;
    ping_same = refl;
    heap_same = refl;
    route_same = incoming_route c id dir (record (at dir c.incoming) { pending = false }) refl refl;
  })
  | inr h ↦ simp h (idle-IsPart id (c, fs))
]

-- What `takeControl` does on an open connection without pings: what was queued for the stream and
-- the connection's limit are sent.
pub record IsReported (id : ℕ) (c c' : Conn) (fs : List Frame) : Type 0 where
  pub reports : All (IsReport id) fs
  pub stream_part : most (stream_data_limit id) fs ≡ most (stream_data_limit id) c.control
  pub conn_part :
      most conn_limit fs
      ≡ max (most conn_limit c.control) (if c.max_data_pending then c.recv_max else 0)
  pub control_empty : c'.control ≡ []
  pub none_pending : c'.max_data_pending ≡ false
  pub no_pong : c'.pong_pending ≡ false
  pub no_ping : c'.ping_pending ≡ false
  pub heap_same : c'.heap ≡ c.heap
  pub route_same : SameRoute c c' id

pub take_control-IsReported :
    (now id : ℕ) (c : Conn)
    → c.close_err ≡ none
    → c.pong_pending ≡ false
    → c.ping_pending ≡ false
    → All (IsReport id) c.control
    → IsReported id c (take_control now c).0 (take_control now c).1
unfolding take_control take_ping take_pong
take_control-IsReported now id c o h k v =
    let a : Conn × List Frame = (record c { control = [] }, c.control) in
    let r : SameRoute c a.0 id = refl in
    let a₁ = take_max_data a in
    let a₂ = take_max_streams two_way a₁ in
    let a₃ = take_max_streams one_way a₂ in
    let p₁ = take_max_data-IsPart id a in
    let p₂ = take_max_streams-IsPart id two_way a₁ in
    let p₃ = take_max_streams-IsPart id one_way a₂ in
    let p = IsPart-trans id a a₂ a₃ _ _ _ _ (IsPart-trans id a a₁ a₂ _ _ _ _ p₁ p₂) p₃ in
    let x : a₃.0.pong_pending ≡ false = p.pong_same ∙ h in
    let y : a₃.0.ping_pending ≡ false = p.ping_same ∙ k in
    let z : is_some c.close_err ≡ false = ap is_some o in
    simp (z, x, y)
      (record {
        reports =
            subst (All (IsReport id)) (sym p.appended)
              (All-append (IsReport id) c.control p.added v p.reports);
        stream_part =
            ap (most (stream_data_limit id)) p.appended
            ∙ omega (arith, most-append (stream_data_limit id) c.control p.added, p.no_stream);
        conn_part =
            ap (most conn_limit) p.appended
            ∙ omega (arith, most-append conn_limit c.control p.added, p.conn_part);
        control_empty = p.control_same;
        none_pending = p.data_pending ∙ p₂.data_pending ∙ p₁.data_pending;
        no_pong = x;
        no_ping = y;
        heap_same = p.heap_same;
        route_same = p.route_same ∙ r;
      })
