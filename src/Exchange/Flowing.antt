-- ===== src/Exchange/Flowing.antt =====
-- The state of one open stream between two connections of qmux/conn.go, and what a write of the
-- near end and a frame that arrives at the far one make of it.
use qmux_go.Base.{
  ==→eq, All, Bool-cases, List, [], add64, ap, append-nil, append_assoc, arith, false,
  if◌then◌else◌, inl, inr, length, length-append, length-take, max, refl, some, subst, sym, take,
  true, ℕ, ◌++◌, ◌+◌, ◌<◌, ◌==◌, ◌^◌, ◌∙◌, ◌∷◌, ◌≡◌, ◌≤◌,
}
use qmux_go.Conn.Heap.{find-commit, find-id}
use qmux_go.Conn.Receive.Buffers.{stream_window, unread_length}
use qmux_go.Conn.Receive.Flow.{connection_window}
use qmux_go.Conn.Run.{written}
use qmux_go.Conn.Send.{chunk_of, reserved, write_chunk}
use qmux_go.Conn.Send.Credit.{IsCredit, send_credit_locked_exact}
use qmux_go.Conn.Send.Whole.{payloads}
use qmux_go.Conn.State.{Stream, commit, find}
use qmux_go.Exchange.{Ends, chunk_frames}
use qmux_go.Exchange.Counting.{IsSmall}
use qmux_go.Exchange.Reports.{IsReport, conn_limit, most, stream_data_limit}
use qmux_go.Exchange.Route.{IsRoute, SameRoute-IsRoute}
use qmux_go.Exchange.States.{IsSendable, IsUnended, advanced, charged, granted, write_chunk_lem}
use qmux_go.Wire.Frame.{Frame, StreamFrame}

-- The frames carry on from an offset, and none is the last.
abbrev pub IsInOrder : ℕ → ℕ → List StreamFrame → Type 0
IsInOrder id o [] = Unit {0}
IsInOrder id o (f ∷ fs) =
    (f.stream_id ≡ id) × (f.offset ≡ o) × (f.fin ≡ false) × IsInOrder id (o + length f.payload) fs

-- What limits of a kind are on their way, or wait in the far end's queue.
abbrev pub told : (Frame → ℕ) → Ends → ℕ
told g e = max (most g e.back) (most g e.far.control)

-- The stream is open at both ends. What was received and what is on its way is what was sent, and
-- keeps to the limits of the near end. These, and what is on its way to raise them, come to the
-- limits of the far end. Another `n` bytes can be sent before a counter could wrap.
pub record IsFlowing (id n : ℕ) (e : Ends) (s t : Stream) : Type 0 where
  pub near_route : IsRoute e.near id false
  pub far_route : IsRoute e.far id true
  pub near_found : find id e.near.heap ≡ some s
  pub far_found : find id e.far.heap ≡ some t
  pub sendable : IsSendable s
  pub unended : IsUnended t
  pub counters : IsSmall e.far t (unread_length t)
  pub in_order : IsInOrder id t.recv_offset e.forth
  pub stream_gap : t.recv_offset + length (payloads e.forth) ≡ s.send_offset
  pub conn_gap : e.far.received + length (payloads e.forth) ≡ e.near.sent
  pub stream_kept : s.send_offset ≤ s.send_max
  pub conn_kept : e.near.sent ≤ e.near.send_max
  pub reports : All (IsReport id) e.back
  pub queued : All (IsReport id) e.far.control
  pub stream_told : max s.send_max (told (stream_data_limit id) e) ≡ t.recv_max
  pub conn_told :
      max
        (max e.near.send_max (told conn_limit e))
        (if e.far.max_data_pending then e.far.recv_max else 0)
      ≡ e.far.recv_max
  pub no_pong : e.far.pong_pending ≡ false
  pub no_ping : e.far.ping_pending ≡ false
  pub stream_left : s.send_offset + n + stream_window e.far < 2 ^ 62
  pub conn_left : e.near.sent + n + connection_window e.far < 2 ^ 62

pub payloads-append : (fs gs : List StreamFrame) → payloads (fs ++ gs) ≡ payloads fs ++ payloads gs
unfolding payloads
payloads-append [] gs = refl
payloads-append (f ∷ fs) gs =
    ap (λ z. f.payload ++ z) (payloads-append fs gs)
    ∙ sym (append_assoc f.payload (payloads fs) (payloads gs))

pub append-IsInOrder :
    (id o : ℕ) (fs gs : List StreamFrame)
    → IsInOrder id o fs
    → IsInOrder id (o + length (payloads fs)) gs
    → IsInOrder id o (fs ++ gs)
unfolding payloads
append-IsInOrder id o [] gs v w = subst (λ z. IsInOrder id z gs) (omega arith) w
append-IsInOrder id o (f ∷ fs) gs (a, b, c, v) w = (
  a,
  b,
  c,
  append-IsInOrder id (o + length f.payload) fs gs v
      (subst (λ z. IsInOrder id z gs) (omega (arith, length-append f.payload (payloads fs))) w),
)

-- A chunk of `k` bytes.
pub chunk-IsInOrder :
    (id o k : ℕ) (p : List ℕ)
    → k ≤ length p
    → let fs = chunk_frames (chunk_of id p (reserved o k)) in
      IsInOrder id o fs × (payloads fs ≡ take k p) × (length (payloads fs) ≡ k)
unfolding chunk_of chunk_frames payloads
chunk-IsInOrder id o k p h = elim (Bool-cases (k == 0)) [
  | inl e ↦ let z = ==→eq k 0 e in rw z (tt, refl, refl)
  | inr e ↦
      simp (e, append-nil (take k p))
        ((refl, refl, refl, tt), refl, omega (arith, h, length-take k p))
]

-- The limits of the near end are those of the far one, or behind them.
pub near-IsCredit : (id n : ℕ) (e : Ends) (s t : Stream) → IsFlowing id n e s t → IsCredit e.near s
near-IsCredit id n e s t v = record {
  stream_within = v.stream_kept;
  within = v.conn_kept;
  stream_small = omega (
    arith, v.stream_told, v.counters.stream_ahead, v.counters.stream_within,
    v.counters.stream_small,
  );
  small =
      omega
        (arith, v.conn_told, v.counters.conn_ahead, v.counters.conn_within, v.counters.conn_small);
}

charged-IsFlowing :
    (id n k m : ℕ) (e : Ends) (s t : Stream) (fs : List StreamFrame)
    → k + n ≤ m
    → IsFlowing id m e s t
    → s.send_offset + k ≤ s.send_max
    → e.near.sent + k ≤ e.near.send_max
    → IsInOrder id s.send_offset fs
    → length (payloads fs) ≡ k
    → IsFlowing id n
        (record e { near = commit (charged e.near k, advanced s k); forth = e.forth ++ fs })
        (advanced s k)
        t
unfolding commit
charged-IsFlowing id n k m e s t fs r v h j o l =
    let a : add64 s.send_offset k ≡ s.send_offset + k = omega (arith, r, v.stream_left) in
    let b : add64 e.near.sent k ≡ e.near.sent + k = omega (arith, r, v.conn_left) in
    let q =
      ap length (payloads-append e.forth fs) ∙ length-append (payloads e.forth) (payloads fs) in
    record {
      near_route =
          SameRoute-IsRoute e.near (commit (charged e.near k, advanced s k)) id false refl
            v.near_route;
      far_route = v.far_route;
      near_found =
          find-commit id e.near s (charged e.near k, advanced s k) v.near_found
            (record { heap_kept = refl; config_kept = refl; id_kept = refl });
      far_found = v.far_found;
      sendable = record { no_error = v.sendable.no_error; no_fin = v.sendable.no_fin };
      unended = v.unended;
      counters = v.counters;
      in_order =
          append-IsInOrder id t.recv_offset e.forth fs v.in_order
            (subst (λ z. IsInOrder id z fs) (sym v.stream_gap) o);
      stream_gap = omega (arith, a, q, l, v.stream_gap);
      conn_gap = omega (arith, b, q, l, v.conn_gap);
      stream_kept = omega (arith, a, h);
      conn_kept = omega (arith, b, j);
      reports = v.reports;
      queued = v.queued;
      stream_told = v.stream_told;
      conn_told = v.conn_told;
      no_pong = v.no_pong;
      no_ping = v.no_ping;
      stream_left = omega (arith, a, r, v.stream_left);
      conn_left = omega (arith, b, r, v.conn_left);
    }

-- A write of the near end sends a chunk, which follows what is on its way.
pub near_writes-IsFlowing :
    (id n : ℕ) (e : Ends) (s t : Stream) (p : List ℕ)
    → IsFlowing id (length p + n) e s t
    → let fs = chunk_frames (write_chunk e.near s p).2 in
      (s' : Stream) × IsFlowing id n
        (record e { near = written e.near s p; forth = e.forth ++ fs })
        s'
        t
near_writes-IsFlowing id n e s t p v =
    let k = granted e.near s (length p) in
    let (x, y, z) = send_credit_locked_exact e.near s (near-IsCredit id (length p + n) e s t v) in
    let m = write_chunk_lem e.near s p v.near_route.is_open v.sendable in
    let (a, b, d) = chunk-IsInOrder s.id s.send_offset k p (omega arith) in
    let i = find-id id e.near.heap s v.near_found in
    let fs = chunk_frames (chunk_of s.id p (reserved s.send_offset k)) in
    rw m (
      advanced s k,
      charged-IsFlowing id n k (length p + n) e s t fs (omega arith) v (omega (arith, x))
          (omega (arith, y)) (subst (λ j. IsInOrder j s.send_offset fs) i a) d,
    )
