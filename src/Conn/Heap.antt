-- ===== src/Conn/Heap.antt =====
-- Facts about the stream objects of a connection: following a pointer, writing through it, and sums
-- over all of them.
use qmux_go.Base.{
  All, Bool-cases, List, [], ap, arith, inl, inr, some, subst, ℕ, ◌+◌, ◌-◌, ◌==◌, ◌∙◌, ◌∷◌, ◌≡◌,
  ◌≤◌,
}
use qmux_go.Conn.State.{Conn, Stream, commit, find, put}
use qmux_go.Conn.Streams.{allow_another, complete_locked}

unfoldable pub sum_by : (Stream → ℕ) → List Stream → ℕ
sum_by f [] = 0
sum_by f (s ∷ ss) = f s + sum_by f ss

pub find-id : (i : ℕ) (ss : List Stream) (s : Stream) → find i ss ≡ some s → s.id ≡ i
unfolding find
find-id i [] s e = cc
find-id i (t ∷ ts) s e = ground (arith, find-id i ts s)

pub find-All {ℓ} :
    (P : Stream → Type ℓ) (i : ℕ) (ss : List Stream) (s : Stream)
    → All P ss
    → find i ss ≡ some s
    → P s
unfolding find
find-All P i [] s h e = cc
find-All P i (t ∷ ts) s h e = elim (Bool-cases (t.id == i)) [
  | inl k ↦ let f : some t ≡ some s = rw k at e in let g : t ≡ s = cc in subst P g h.0
  | inr k ↦ find-All P i ts s h.1 (rw k at e)
]

pub All-put {ℓ} :
    (P : Stream → Type ℓ) (s : Stream) (ss : List Stream) → All P ss → P s → All P (put s ss)
unfolding put
All-put P s [] h p = h
All-put P s (t ∷ ts) h p = elim (Bool-cases (t.id == s.id)) [
  | inl k ↦ rw k (p, h.1)
  | inr k ↦ rw k (h.0, All-put P s ts h.1 p)
]

pub sum_by-put :
    (f : Stream → ℕ) (s t : Stream) (ss : List Stream)
    → find s.id ss ≡ some t
    → sum_by f (put s ss) + f t ≡ sum_by f ss + f s
unfolding find put sum_by
sum_by-put f s t [] e = cc
sum_by-put f s t (u ∷ us) e = elim (Bool-cases (u.id == s.id)) [
  | inl k ↦
      let g : some u ≡ some t = rw k at e in let h : u ≡ t = cc in rw k (omega (arith, ap f h))
  | inr k ↦ rw k (omega (arith, sum_by-put f s t us (rw k at e)))
]

pub sum_by-find :
    (f : Stream → ℕ) (i : ℕ) (ss : List Stream) (s : Stream)
    → find i ss ≡ some s
    → f s ≤ sum_by f ss
unfolding find sum_by
sum_by-find f i [] s e = cc
sum_by-find f i (t ∷ ts) s e = elim (Bool-cases (t.id == i)) [
  | inl k ↦ let g : some t ≡ some s = rw k at e in let h : t ≡ s = cc in omega (arith, ap f h)
  | inr k ↦ omega (arith, sum_by-find f i ts s (rw k at e))
]

-- What an operation on a stream leaves alone.
pub record Keeps (c : Conn) (s : Stream) (r : Conn × Stream) : Type 0 where
  pub heap_kept : r.0.heap ≡ c.heap
  pub config_kept : r.0.config ≡ c.config
  pub id_kept : r.1.id ≡ s.id

pub Keeps-trans :
    (c : Conn) (s : Stream) (r t : Conn × Stream) → Keeps c s r → Keeps r.0 r.1 t → Keeps c s t
Keeps-trans c s r t h k = record {
  heap_kept = k.heap_kept ∙ h.heap_kept;
  config_kept = k.config_kept ∙ h.config_kept;
  id_kept = k.id_kept ∙ h.id_kept;
}

pub complete_locked-Keeps : (c : Conn) (s : Stream) → Keeps c s (complete_locked c s)
unfolding complete_locked allow_another
complete_locked-Keeps c s = ground arith

-- The sum after a stream is stored again, over what the others add up to.
pub sum_by-commit :
    (f : Stream → ℕ) (c : Conn) (s : Stream) (r : Conn × Stream)
    → find s.id c.heap ≡ some s
    → Keeps c s r
    → sum_by f (commit r).heap ≡ f r.1 + (sum_by f c.heap - f s)
unfolding commit
sum_by-commit f c s r e k =
    let e' : find r.1.id c.heap ≡ some s = rw k.id_kept e in
    rw k.heap_kept (omega (arith, sum_by-put f r.1 s c.heap e', sum_by-find f s.id c.heap s e))

pub find-put :
    (s t : Stream) (ss : List Stream) → find s.id ss ≡ some t → find s.id (put s ss) ≡ some s
unfolding find put
find-put s t [] e = cc
find-put s t (u ∷ us) e = elim (Bool-cases (u.id == s.id)) [
  | inl k ↦ rw k (ground arith)
  | inr k ↦ let h = find-put s t us (rw k at e) in ground (arith, k, h)
]

-- A stream that is stored again is found.
pub find-commit :
    (id : ℕ) (c : Conn) (s : Stream) (r : Conn × Stream)
    → find id c.heap ≡ some s
    → Keeps c s r
    → find id (commit r).heap ≡ some r.1
unfolding commit
find-commit id c s r e k =
    let i : r.1.id ≡ id = k.id_kept ∙ find-id id c.heap s e in
    let h : find r.1.id r.0.heap ≡ some s = rw (i, k.heap_kept) e in
    subst (λ z. find z (put r.1 r.0.heap) ≡ some r.1) i (find-put r.1 s r.0.heap h)
