-- ===== src/Conn/Handle/Open.antt =====
-- Handling frames does not end a connection: `handleFrameLocked` of qmux/conn.go only reports that
-- it is to end.
use qmux_go.Base.{
  Bool, Bool-cases, List, Option, ap, arith, false, inl, inr, is_some, length, none, refl, some,
  suc, true, zero, ℕ, ◌==◌, ◌||◌, ◌∙◌, ◌≡◌,
}
use qmux_go.Conn.Failure.{Failure}
use qmux_go.Conn.Handle.{
  handle_datagram, handle_first, handle_frame, handle_max_data, handle_max_stream_data,
  handle_max_streams, handle_parameters, handle_ping, handle_ping_request, handle_ping_response,
  handle_ready, handle_record, max_streams_dir, on_stream, record_loop,
}
use qmux_go.Conn.Handle.Accounting.{stream_locked-ok}
use qmux_go.Conn.Handle.Total.{Outcome-cases}
use qmux_go.Conn.Ids.{Dir, stream_dir, two_way}
use qmux_go.Conn.Receive.{
  Growth, Outcome, accept_data, accept_reset, consume_locked, data_taken, finished, received_locked,
  reset_taken, stream_data, stream_reset,
}
use qmux_go.Conn.Receive.Cases.{stream_data_cases, stream_reset_cases}
use qmux_go.Conn.Send.{reset_send_locked, send_reset}
use qmux_go.Conn.State.{Both, Conn, Outgoing, Stream, commit, queue_control}
use qmux_go.Conn.Streams.{
  allow_another, complete_locked, new_stream, open_incoming, open_next, send_done, stream_locked,
}
use qmux_go.Varint.{Varint}
use qmux_go.Wire.Error.{Result-cases, ok}
use qmux_go.Wire.Frame.{
  Datagram, Frame, Parsed, Ping, ResetStream, StreamFrame, blocked, connection_close, datagram,
  frame, max_data, max_stream_data, max_streams, ping, reset_stream, stop_sending, stream,
  transport_parameters,
}
use qmux_go.Wire.Params.{Parameters}
use qmux_go.Wire.Parse.{parse}

-- `closeErr` stays as it is.
abbrev pub SameEnd : Conn → Conn → Type 0
SameEnd c d = d.close_err ≡ c.close_err

-- And so do the limits that streams are opened within.
abbrev pub lasting : Conn → Option Failure × Both Outgoing
lasting c = (c.close_err, c.outgoing)

abbrev pub SameOut : Conn → Conn → Type 0
SameOut c d = lasting d ≡ lasting c

pub SameOut-SameEnd : (c d : Conn) → SameOut c d → SameEnd c d
SameOut-SameEnd c d e = ap (λ z. z.0) e

consume_locked_same : (c : Conn) (n : ℕ) → SameOut c (consume_locked c n)
unfolding consume_locked
consume_locked_same c n = ground arith

received_locked_same : (c c' : Conn) (n : ℕ) → received_locked c n ≡ ok c' → SameOut c c'
unfolding received_locked
received_locked_same c c' n e = ground arith

pub complete_locked_same : (c : Conn) (s : Stream) → SameOut c (complete_locked c s).0
unfolding complete_locked allow_another
complete_locked_same c s = ground arith

pub finished_same : (c : Conn) (s : Stream) → SameOut c (finished (c, s))
unfolding finished commit
finished_same c s = complete_locked_same c s

pub reset_send_locked_same :
    (c : Conn) (s : Stream) (code : ℕ) (remote : Bool)
    → SameOut c (reset_send_locked c s code remote)
unfolding reset_send_locked send_reset queue_control
reset_send_locked_same c s code remote = elim (Bool-cases (send_done s)) [
  | inl h ↦ rw (h, reset_send_locked) refl
  | inr h ↦ rw (h, reset_send_locked) (finished_same _ _)
]

handle_max_stream_data_same :
    (c : Conn) (s : Stream) (m : ℕ) → SameOut c (handle_max_stream_data c s m)
unfolding handle_max_stream_data commit
handle_max_stream_data_same c s m = ground arith

handle_ping_same : (now : ℕ) (c : Conn) (f : Ping) → SameOut c (handle_ping now c f).0
unfolding handle_ping handle_ping_response handle_ping_request
handle_ping_same now c f = ground arith

handle_datagram_same : (c : Conn) (f : Datagram) → SameOut c (handle_datagram c f).0
unfolding handle_datagram
handle_datagram_same c f = ground arith

handle_limits_same :
    (c : Conn) (m : ℕ) (dir : Dir)
    → SameOut c (handle_max_data c m) × SameEnd c (handle_max_streams c dir m)
unfolding handle_max_data handle_max_streams
handle_limits_same c m dir = ground arith

handle_parameters_same : (c : Conn) (p : Parameters) → SameEnd c (handle_parameters c p)
unfolding handle_parameters
handle_parameters_same c p = refl

open_incoming_same : (k : ℕ) (c : Conn) (dir : Dir) → SameOut c (open_incoming k c dir)
unfolding open_incoming open_next new_stream
open_incoming_same zero c dir = refl
open_incoming_same (suc k) c dir = open_incoming_same k (open_next c dir) dir

stream_locked_same :
    (c c' : Conn) (id : ℕ) (recv : Bool) (o : Option Stream)
    → stream_locked c id recv ≡ ok (c', o)
    → SameOut c c'
stream_locked_same c c' id recv o e = elim (stream_locked-ok c c' id recv o e).0 [
  | inl h ↦ ap lasting h
  | inr h ↦ ap lasting h ∙ open_incoming_same _ c (stream_dir id)
]

on_stream_same :
    (c : Conn) (id : ℕ) (recv : Bool) (h : Conn → Stream → Conn × Outcome)
    → ((c' : Conn) (s : Stream) → SameOut c' (h c' s).0)
    → SameOut c (on_stream c (stream_locked c id recv) h).0
unfolding on_stream
on_stream_same c id recv h keep = elim (Result-cases (stream_locked c id recv)) [
  | inl ((c', none), e) ↦ rw (e, on_stream) (stream_locked_same c c' id recv none e)
  | inl ((c', some s), e) ↦
      rw (e, on_stream) (keep c' s ∙ stream_locked_same c c' id recv (some s) e)
  | inr (inl (x, e)) ↦ rw (e, on_stream) refl
  | inr (inr e) ↦ rw (e, on_stream) refl
]

accept_reset_same : (c : Conn) (s : Stream) (f : ResetStream) → SameOut c (accept_reset c s f)
unfolding accept_reset reset_taken
accept_reset_same c s f = finished_same _ _ ∙ consume_locked_same c _

stream_reset_same : (c : Conn) (s : Stream) (f : ResetStream) → SameOut c (stream_reset c s f).0
stream_reset_same c s f = elim (stream_reset_cases c s f) [
  | inl (e, x) ↦ ap lasting e
  | inr (c', t) ↦
      ap (λ d. lasting d.0) t.result
      ∙ accept_reset_same c' s f
      ∙ received_locked_same c c' _ t.counted
]

-- Frames that do not raise the limit on streams to open.
abbrev pub is_quiet : Frame → Bool
is_quiet (max_streams f) = false
is_quiet (transport_parameters p) = false
is_quiet _ = true

-- Only MAX_STREAMS and the transport parameters raise the limit.
abbrev pub is_quiet_parsed : Parsed → Bool
is_quiet_parsed (frame f) = is_quiet f
is_quiet_parsed blocked = true

module _ ⦃g : Growth⦄ where
  accept_data_same : (c : Conn) (s : Stream) (f : StreamFrame) → SameOut c (accept_data c s f)
  unfolding accept_data data_taken
  accept_data_same c s f = finished_same _ _ ∙ unfold consume_locked in ground arith

  stream_data_same : (c : Conn) (s : Stream) (f : StreamFrame) → SameOut c (stream_data c s f).0
  stream_data_same c s f = elim (stream_data_cases c s f) [
    | inl (e, x) ↦ ap lasting e
    | inr (c', t) ↦
        ap (λ d. lasting d.0) t.result
        ∙ accept_data_same c' s f
        ∙ received_locked_same c c' _ t.counted
  ]

  pub handle_ready_quiet :
      (now : ℕ) (c : Conn) (f : Frame) → is_quiet f ≡ true → SameOut c (handle_ready now c f).0
  unfolding handle_ready
  handle_ready_quiet now c (stream f) h =
      on_stream_same c f.stream_id true _ (λ c' s. stream_data_same c' s f)
  handle_ready_quiet now c (reset_stream f) h =
      on_stream_same c f.stream_id true _ (λ c' s. stream_reset_same c' s f)
  handle_ready_quiet now c (stop_sending f) h =
      on_stream_same c f.stream_id false _ (λ c' s. reset_send_locked_same c' s f.code true)
  handle_ready_quiet now c (max_stream_data f) h =
      on_stream_same c f.stream_id false _ (λ c' s. handle_max_stream_data_same c' s f.maximum)
  handle_ready_quiet now c (max_data f) h = (handle_limits_same c f.maximum two_way).0
  handle_ready_quiet now c (ping f) h = handle_ping_same now c f
  handle_ready_quiet now c (datagram f) h = handle_datagram_same c f
  handle_ready_quiet now c (connection_close f) h = refl
  handle_ready_quiet now c (max_streams f) h = absurd (ground (arith, h))
  handle_ready_quiet now c (transport_parameters p) h = absurd (ground (arith, h))

  handle_ready_same : (now : ℕ) (c : Conn) (f : Frame) → SameEnd c (handle_ready now c f).0
  handle_ready_same now c (max_streams f) =
      unfold handle_ready in (handle_limits_same c f.maximum (max_streams_dir f.uni)).1
  handle_ready_same now c (transport_parameters p) = unfold handle_ready in refl
  handle_ready_same now c f =
      SameOut-SameEnd c (handle_ready now c f).0 (handle_ready_quiet now c f refl)

  handle_first_same : (c : Conn) (f : Parsed) → SameEnd c (handle_first c f).0
  unfolding handle_first
  handle_first_same c (frame (transport_parameters p)) = handle_parameters_same c p
  handle_first_same c _ = refl

  handle_first_quiet :
      (c : Conn) (f : Parsed) → is_quiet_parsed f ≡ true → SameOut c (handle_first c f).0
  unfolding handle_first
  handle_first_quiet c (frame (transport_parameters p)) h = absurd (ground (arith, h))
  handle_first_quiet c _ h = refl

  pub handle_frame_quiet :
      (now : ℕ) (c : Conn) (f : Parsed)
      → is_quiet_parsed f ≡ true
      → SameOut c (handle_frame now c f).0
  unfolding handle_frame
  handle_frame_quiet now c (frame f) k = elim (Bool-cases c.ready) [
    | inl h ↦ simp h (handle_ready_quiet now c f k)
    | inr h ↦ simp h (handle_first_quiet c (frame f) k)
  ]
  handle_frame_quiet now c blocked k = elim (Bool-cases c.ready) [
    | inl h ↦ simp h refl
    | inr h ↦ simp h (handle_first_quiet c blocked k)
  ]

  pub handle_frame_same : (now : ℕ) (c : Conn) (f : Parsed) → SameEnd c (handle_frame now c f).0
  unfolding handle_frame
  handle_frame_same now c (frame f) = elim (Bool-cases c.ready) [
    | inl h ↦ simp h (handle_ready_same now c f)
    | inr h ↦ simp h (handle_first_same c (frame f))
  ]
  handle_frame_same now c blocked = elim (Bool-cases c.ready) [
    | inl h ↦ simp h refl
    | inr h ↦ simp h (handle_first_same c blocked)
  ]

module _ ⦃q : Varint⦄ ⦃g : Growth⦄ where
  record_loop_same :
      (n now : ℕ) (c c' : Conn) (rec : List ℕ) (o : Outcome)
      → record_loop n now c rec ≡ some (c', o)
      → SameEnd c c'
  record_loop_same zero now c c' rec o e = unfold record_loop in absurd (ground (arith, e))
  record_loop_same (suc n) now c c' rec o e =
      elim (Bool-cases (length rec == 0 || is_some c.close_err)) [
        | inl h ↦ unfold record_loop in ground arith
        | inr h ↦ elim (Result-cases (parse rec)) [
          | inr (inr p) ↦ unfold record_loop in ground arith
          | inr (inl (x, p)) ↦ unfold record_loop in ground arith
          | inl ((none, left), p) ↦ unfold record_loop in ground arith
          | inl ((some f, left), p) ↦
              let k = handle_frame_same now c f in
              elim (Outcome-cases (handle_frame now c f).1) [
                | inl y ↦
                    record_loop_same n now (handle_frame now c f).0 c' left o
                      (unfold record_loop in ground arith)
                    ∙ k
                | inr (inl (x, y)) ↦ unfold record_loop in ground arith
                | inr (inr (x, y)) ↦ unfold record_loop in ground arith
              ]
        ]
      ]

  pub handle_record_same :
      (now : ℕ) (c : Conn) (rec : List ℕ) (c' : Conn) (o : Outcome)
      → handle_record now c rec ≡ some (c', o)
      → SameEnd c c'
  handle_record_same now c rec c' o e =
      record_loop_same (suc (length rec)) now c c' rec o (unfold handle_record in e)
