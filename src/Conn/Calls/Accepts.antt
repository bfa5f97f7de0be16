-- ===== src/Conn/Calls/Accepts.antt =====
-- What the calls that wait for a stream of the peer return: `accept` of qmux/conn.go.
use qmux_go.Base.{
  Any, List, Option-cases, [], ap, arith, inl, inr, none, refl, some, sym, true, ℕ, ◌∙◌, ◌∷◌, ◌≡◌,
  ◌≢◌, ◌⊎◌,
}
use qmux_go.Conn.Calls.{Glance, accept_loop, has_stream}
use qmux_go.Conn.Calls.Opens.{open_round-has}
use qmux_go.Conn.Heap.{find-id}
use qmux_go.Conn.Ids.{Dir, one_way, stream_dir, two_way}
use qmux_go.Conn.State.{Both, Conn, Incoming, Stream, at, commit, find, put_at}
use qmux_go.Conn.Streams.{
  Attempt, accept_from, accept_head, allow_another, complete_locked, dangling, failed, got,
  try_accept,
}

-- What a round of `accept` gives: the stream at the head of the queue, which leaves it.
pub record IsAcceptedAt (dir : Dir) (s : Stream) (l : Glance) : Type 0 where
  pub still_open : l.conn.close_err ≡ none
  pub others : List ℕ
  pub was_first : (at dir l.conn.incoming).queue ≡ s.id ∷ others
  pub left : (at dir (try_accept l.conn dir).0.incoming).queue ≡ others
  pub is_accepted : s.accepted ≡ true

stream_dir-cases : (id : ℕ) → (stream_dir id ≡ two_way) ⊎ (stream_dir id ≡ one_way)
unfolding stream_dir
stream_dir-cases id = ground arith

completed_queue :
    (c : Conn) (s : Stream) (dir : Dir)
    → ((at dir (complete_locked c s).0.incoming).queue ≡ (at dir c.incoming).queue)
      × ((complete_locked c s).1.accepted ≡ s.accepted)
      × ((complete_locked c s).1.id ≡ s.id)
unfolding complete_locked allow_another
completed_queue c s two_way = elim (stream_dir-cases s.id) [
  | inl h ↦ rw h (ground arith)
  | inr h ↦ rw h (ground arith)
]
completed_queue c s one_way = elim (stream_dir-cases s.id) [
  | inl h ↦ rw h (ground arith)
  | inr h ↦ rw h (ground arith)
]

accept_head-got :
    (c : Conn) (dir : Dir) (t s : Stream)
    → (accept_head c t).1 ≡ got s
    → (s.id ≡ t.id)
      × (s.accepted ≡ true)
      × ((at dir (accept_head c t).0.incoming).queue ≡ (at dir c.incoming).queue)
unfolding accept_head commit
accept_head-got c dir t s e =
    let r = complete_locked c (record t { accepted = true }) in
    let (a, b, d) = completed_queue c (record t { accepted = true }) dir in
    let h : got r.1 ≡ got s = e in
    let k : r.1 ≡ s = cc in (ap (λ z. z.id) (sym k) ∙ d, ap (λ z. z.accepted) (sym k) ∙ b, a)

queue_put :
    (dir : Dir) (i : Incoming) (b : Both Incoming) → (at dir (put_at dir i b)).queue ≡ i.queue
queue_put two_way i b = refl
queue_put one_way i b = refl

accept_from_found :
    (c : Conn) (dir : Dir) (id : ℕ) (ids : List ℕ)
    → ((accept_from c dir (id ∷ ids)).1 ≡ dangling)
      ⊎ ((t : Stream) × (find id c.heap ≡ some t)
          × (accept_from c dir (id ∷ ids)
              ≡ accept_head
                  (record c {
                    incoming = put_at dir (record (at dir c.incoming) { queue = ids }) c.incoming;
                  })
                  t))
unfolding accept_from
accept_from_found c dir id ids = elim (Option-cases (find id c.heap)) [
  | inl h ↦ inl (rw (h, accept_from) refl)
  | inr (t, h) ↦ inr (t, h, rw (h, accept_from) refl)
]

no_head : (c : Conn) (dir : Dir) (s : Stream) → (accept_from c dir []).1 ≢ got s
unfolding accept_from
no_head c dir s e = ground (arith, e)

accept_from-got :
    (c : Conn) (dir : Dir) (ids : List ℕ) (s : Stream)
    → (accept_from c dir ids).1 ≡ got s
    → (others : List ℕ) × (ids ≡ s.id ∷ others)
      × ((at dir (accept_from c dir ids).0.incoming).queue ≡ others)
      × (s.accepted ≡ true)
accept_from-got c dir [] s e = absurd (no_head c dir s e)
accept_from-got c dir (id ∷ ids) s e = elim (accept_from_found c dir id ids) [
  | inl h ↦ let x : dangling ≡ got s = sym h ∙ e in ground (arith, x)
  | inr (t, h, m) ↦
      let i = record (at dir c.incoming) { queue = ids } in
      let c' = record c { incoming = put_at dir i c.incoming } in
      let x : (accept_head c' t).1 ≡ got s = ap (λ y. y.1) (sym m) ∙ e in
      let (a, b, d) = accept_head-got c' dir t s x in
      let z = a ∙ find-id id c.heap t h in
      (
        ids,
        ap (λ y. y ∷ ids) (sym z),
        ap (λ (y : Conn × Attempt). (at dir y.0.incoming).queue) m ∙ d ∙ queue_put dir i c.incoming,
        b,
      )
]

try_accept-IsAcceptedAt :
    (l : Glance) (dir : Dir) (s : Stream) → (try_accept l.conn dir).1 ≡ got s → IsAcceptedAt dir s l
unfolding try_accept
try_accept-IsAcceptedAt l dir s e = elim (Option-cases l.conn.close_err) [
  | inr (x, h) ↦ let y : failed x ≡ got s = rw h at e in ground (arith, y)
  | inl h ↦
      let y : (accept_from l.conn dir (at dir l.conn.incoming).queue).1 ≡ got s =
        ground (arith, e, h) in
      let (others, a, b, d) = accept_from-got l.conn dir (at dir l.conn.incoming).queue s y in
      record {
        still_open = h;
        others = others;
        was_first = a;
        left = ground (arith, h, b);
        is_accepted = d;
      }
]

-- If `accept` returns a stream, then some round of its loop found the connection open and that
-- stream at the head of the direction's queue, and took it out of the queue and marked it as
-- accepted.
pub accept_loop-IsAcceptedAt :
    (looks : List Glance) (dir : Dir) (s : Stream)
    → accept_loop looks dir ≡ has_stream s
    → Any (IsAcceptedAt dir s) looks
unfolding accept_loop
accept_loop-IsAcceptedAt [] dir s e = ground (arith, e)
accept_loop-IsAcceptedAt (l ∷ looks) dir s e =
    elim (open_round-has l (try_accept l.conn dir).1 (accept_loop looks dir) s e) [
      | inl r ↦ inl (try_accept-IsAcceptedAt l dir s r)
      | inr r ↦ inr (accept_loop-IsAcceptedAt looks dir s r)
    ]
