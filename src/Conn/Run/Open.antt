-- ===== src/Conn/Run/Open.antt =====
-- The calls and the writers of qmux/conn.go and qmux/stream.go do not end a connection.
use qmux_go.Base.{
  Bool, Bool-cases, List, Option, Option-cases, [], ap, arith, false, inl, inr, is_some, none, refl,
  some, true, ℕ, ◌||◌, ◌∙◌, ◌∷◌, ◌≡◌,
}
use qmux_go.Config.{negsuc, pos, ℤ}
use qmux_go.Conn.Control.{
  request_ping, take_control, take_max_data, take_max_streams, take_ping, take_pong,
}
use qmux_go.Conn.Failure.{Failure}
use qmux_go.Conn.Handle.Open.{
  SameEnd, SameOut, SameOut-SameEnd, complete_locked_same, finished_same, handle_frame_quiet,
  handle_frame_same, is_quiet_parsed, lasting, reset_send_locked_same,
}
use qmux_go.Conn.Ids.{Dir, one_way, two_way}
use qmux_go.Conn.Receive.{
  Growth, cancel_read, consume_locked, read_locked, read_out, reading_discarded, set_read_deadline,
  try_peek, try_read,
}
use qmux_go.Conn.Receive.Cases.{try_peek_cases, try_read_cases}
use qmux_go.Conn.Run.{
  Step, accepts, arrives, cancels_read, cancels_write, closes, ends, on_id, opens, peeks, reads,
  requests_ping, sets_priority, sets_read_deadline, sets_write_deadline, step, takes_control,
  tries_send, writes, written,
}
use qmux_go.Conn.Send.{
  cancel_write, close_send, fin_marked, finish, reserve, set_priority, set_write_deadline, try_send,
  write_chunk,
}
use qmux_go.Conn.State.{Conn, Stream, at, commit, find, queue_control}
use qmux_go.Conn.Streams.{
  Attempt, accept_from, accept_head, failed, new_stream, recv_done, try_accept, try_open,
}
use qmux_go.Wire.Frame.{Frame}

on_id_same :
    (c : Conn) (id : ℕ) (call : Stream → Conn)
    → ((s : Stream) → SameOut c (call s))
    → SameOut c (on_id c id call)
unfolding on_id
on_id_same c id call k = elim (Option-cases (find id c.heap)) [
  | inl e ↦ rw (e, on_id) refl
  | inr (s, e) ↦ rw (e, on_id) (k s)
]

read_out_same : (c : Conn) (s : Stream) (room : ℕ) → SameOut c (read_out c s room).0
unfolding read_out read_locked queue_control consume_locked
read_out_same c s room = ground arith

try_read_same : (c : Conn) (s : Stream) (room : ℕ) → SameOut c (try_read c s room).0
try_read_same c s room = elim (try_read_cases c s room) [
  | inl e ↦ ap lasting e
  | inr (inl (h, e)) ↦ ap lasting e ∙ finished_same _ _ ∙ read_out_same c s room
  | inr (inr e) ↦ ap lasting e ∙ unfold commit in refl
]

try_peek_same : (c : Conn) (s : Stream) (room : ℕ) → SameOut c (try_peek c s room).0
try_peek_same c s room = elim (try_peek_cases c s room) [
  | inl e ↦ ap lasting e
  | inr e ↦ ap lasting e ∙ unfold commit in refl
]

cancel_read_same : (c : Conn) (s : Stream) (code : ℕ) → SameOut c (cancel_read c s code)
cancel_read_same c s code =
    elim (Bool-cases (is_some c.close_err || (is_some s.recv_err || recv_done s))) [
      | inl h ↦ unfold cancel_read in rw h refl
      | inr h ↦
          unfold cancel_read in
          rw h (
            finished_same _ _
            ∙ unfold reading_discarded queue_control consume_locked in ground arith)
    ]

cancel_write_same : (c : Conn) (s : Stream) (code : ℕ) → SameOut c (cancel_write c s code)
unfolding cancel_write
cancel_write_same c s code = elim (Bool-cases (is_some c.close_err)) [
  | inl h ↦ simp h refl
  | inr h ↦ simp h (reset_send_locked_same c s code false)
]

try_send_same : (c : Conn) (s : Stream) (now : ℕ) → SameOut c (try_send now c s).0
unfolding try_send commit
try_send_same c s now = ground arith

pub written_same : (c : Conn) (s : Stream) (p : List ℕ) → SameOut c (written c s p)
unfolding write_chunk reserve commit
written_same c s p = ground arith

pub close_send_same : (c : Conn) (s : Stream) → SameOut c (close_send c s).0
close_send_same c s = unfold close_send finish in ground (arith, finished_same c (fin_marked s))

set_priority_same :
    (c : Conn) (s : Stream) (u : ℤ) (inc : Bool) → SameOut c (set_priority c s u inc)
unfolding set_priority commit
set_priority_same c s (pos u) inc = refl
set_priority_same c s (negsuc u) inc = refl

try_open_same : (c : Conn) (dir : Dir) → SameEnd c (try_open c dir).0
unfolding try_open new_stream
try_open_same c dir = ground arith

accept_head_same : (c : Conn) (s : Stream) → SameOut c (accept_head c s).0
unfolding accept_head commit
accept_head_same c s = complete_locked_same c _

accept_from_same : (c : Conn) (dir : Dir) (ids : List ℕ) → SameOut c (accept_from c dir ids).0
unfolding accept_from
accept_from_same c dir [] = refl
accept_from_same c dir (id ∷ ids) = elim (Option-cases (find id c.heap)) [
  | inl e ↦ rw (e, accept_from) refl
  | inr (s, e) ↦ rw (e, accept_from) (accept_head_same _ s)
]

try_accept_same : (c : Conn) (dir : Dir) → SameOut c (try_accept c dir).0
unfolding try_accept
try_accept_same c dir = tried_same c.close_err
  where
    tried_same :
        (o : Option Failure)
        → SameOut c
            (elim o as (λ x. Conn × Attempt) [
              | some e ↦ (c, failed e)
              | none ↦ accept_from c dir (at dir c.incoming).queue
            ]).0
    tried_same (some e) = refl
    tried_same none = accept_from_same c dir _

pub request_ping_same : (now : ℕ) (c : Conn) → SameOut c (request_ping now c).0
unfolding request_ping
request_ping_same now c = ground arith

take_max_data_same : (p : Conn × List Frame) → SameOut p.0 (take_max_data p).0
unfolding take_max_data
take_max_data_same (c, fs) = ground arith

take_max_streams_same : (p : Conn × List Frame) (dir : Dir) → SameOut p.0 (take_max_streams dir p).0
unfolding take_max_streams
take_max_streams_same (c, fs) dir = ground arith

take_parts_same : (p : Conn × List Frame) (now : ℕ) → SameOut p.0 (take_ping now (take_pong p)).0
unfolding take_ping take_pong
take_parts_same (c, fs) now = ground arith

pub take_control_same : (now : ℕ) (c : Conn) → SameOut c (take_control now c).0
unfolding take_control
take_control_same now c = elim (Bool-cases (is_some c.close_err)) [
  | inl h ↦ simp h refl
  | inr h ↦ simp h (
      take_parts_same _ now
      ∙ take_max_streams_same _ one_way
      ∙ take_max_streams_same _ two_way
      ∙ take_max_data_same _)
]

abbrev pub is_end : Step → Bool
is_end (ends x) = true
is_end _ = false

-- The steps that neither end the connection nor touch the limits on streams to open.
abbrev pub is_quiet_step : Step → Bool
is_quiet_step (arrives now f) = is_quiet_parsed f
is_quiet_step (opens dir) = false
is_quiet_step (ends x) = false
is_quiet_step _ = true

pub step_quiet : ⦃g : Growth⦄ (c : Conn) (t : Step) → is_quiet_step t ≡ true → SameOut c (step c t)
unfolding step set_read_deadline set_write_deadline commit
step_quiet c (arrives now f) k = handle_frame_quiet now c f k
step_quiet c (reads id room) k = on_id_same c id _ (λ s. try_read_same c s room)
step_quiet c (peeks id room) k = on_id_same c id _ (λ s. try_peek_same c s room)
step_quiet c (cancels_read id code) k = on_id_same c id _ (λ s. cancel_read_same c s code)
step_quiet c (cancels_write id code) k = on_id_same c id _ (λ s. cancel_write_same c s code)
step_quiet c (tries_send now id) k = on_id_same c id _ (λ s. try_send_same c s now)
step_quiet c (writes id p) k = on_id_same c id _ (λ s. written_same c s p)
step_quiet c (closes id) k = on_id_same c id _ (λ s. close_send_same c s)
step_quiet c (sets_read_deadline id t) k = on_id_same c id _ (λ s. refl)
step_quiet c (sets_write_deadline id t) k = on_id_same c id _ (λ s. refl)
step_quiet c (sets_priority id u inc) k = on_id_same c id _ (λ s. set_priority_same c s u inc)
step_quiet c (opens dir) k = absurd (ground (arith, k))
step_quiet c (accepts dir) k = try_accept_same c dir
step_quiet c (takes_control now) k = take_control_same now c
step_quiet c (requests_ping now) k = request_ping_same now c
step_quiet c (ends x) k = absurd (ground (arith, k))

pub step_same : ⦃g : Growth⦄ (c : Conn) (t : Step) → is_end t ≡ false → SameEnd c (step c t)
step_same c (arrives now f) k = unfold step in handle_frame_same now c f
step_same c (opens dir) k = unfold step in try_open_same c dir
step_same c (ends x) k = absurd (ground (arith, k))
step_same c t k = SameOut-SameEnd c (step c t) (step_quiet c t refl)
