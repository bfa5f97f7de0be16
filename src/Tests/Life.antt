-- ===== src/Tests/Life.antt =====
-- Witnesses for a connection on its transport.
use qmux_go.Base.{
  All, List, Option, [], arith, is_some, length, none, refl, some, true, ℕ, ◌%◌, ◌*◌, ◌++◌, ◌^◌,
  ◌∷◌, ◌≡◌, ◌⊎◌,
}
use qmux_go.Config.{Config, local_parameters, millisecond, normalized, pos, zero_config}
use qmux_go.Config.Bounds.{IsPassed, normalized-IsDeclarable}
use qmux_go.Conn.Close.{application_close}
use qmux_go.Conn.Handle.{handle_record}
use qmux_go.Endpoint.{
  Endpoint, farewell_record, frames_record, new_endpoint, parameters_record, said,
}
use qmux_go.Endpoint.Acts.{
  Act, act, acts, advances, closes_with, flushes, forces_close, hears, says_farewell,
}
use qmux_go.Endpoint.Agreement.{idle_timeouts_agree}
use qmux_go.Endpoint.Delivery.{handle_frames, handle_record-frames_record, handshake_completes}
use qmux_go.Endpoint.Guard.{closing_ends}
use qmux_go.Endpoint.Loops.{dial, record_in, serve, start_result, started}
use qmux_go.Endpoint.Order.Life.{farewell_last, parameters_first}
use qmux_go.Tests.{defaults, exact_growth, first_data, server, steady_link}
use qmux_go.Transport.{record_read}
use qmux_go.Varint.Rfc.{rfc9000}
use qmux_go.Wire.Error.{Reason}
use qmux_go.Wire.Frame.{ConnectionClose, Frame, stream, transport_parameters}
use qmux_go.Wire.RoundTrip.Valid.{IsEncodable, filled}
use qmux_go.WriteLock.Scan.{scanned}

abbrev no_text : Reason → List ℕ
no_text x = []

-- The client's first record: its transport parameters and data.
abbrev first_frames : List Frame
first_frames = transport_parameters (local_parameters defaults) ∷ stream first_data ∷ []

first_frames-IsEncodable : All IsEncodable first_frames
first_frames-IsEncodable =
    (normalized-IsDeclarable none tt, ((omega arith, omega arith, omega arith), tt))

handle_record-frames_record_example :
    handle_record 7 server (frames_record first_frames) ≡ some (handle_frames 7 server first_frames)
unfolding qmux_go.Conn.State.new_conn
handle_record-frames_record_example =
    handle_record-frames_record 7 server first_frames first_frames-IsEncodable refl

handshake_completes_example :
    let e = record_in no_text 9 (parameters_record defaults) (new_endpoint 4 defaults true) in
    (start_result e ≡ started)
    × (e.conn.ready ≡ true)
    × (e.conn.peer ≡ filled (local_parameters defaults))
    × (e.holder ≡ (new_endpoint 4 defaults true).holder)
handshake_completes_example = handshake_completes no_text 4 9 defaults true none tt

-- The parameters are written, and the peer's arrive.
abbrev beginning : List Act
beginning = advances 5 ∷ advances 5 ∷ hears 6 (record_read (parameters_record defaults) []) ∷ []

parameters_first_example :
    let e = acts no_text (new_endpoint 4 defaults true) beginning in
    ((e.broken ≡ true)
      ⊎ ((e.wire ≡ [])
          ⊎ ((others : List (List ℕ)) × (e.wire ≡ parameters_record defaults ∷ others))))
    × (e.records_sent ≡ length e.wire % 2 ^ 64)
parameters_first_example = parameters_first no_text 4 defaults true beginning

-- The application closes the connection with code 9, and the frame is written.
abbrev ending : List Act
ending =
    advances 5
    ∷ advances 5
    ∷ closes_with 8 9 (65 ∷ [])
    ∷ says_farewell
    ∷ advances 10
    ∷ advances 11
    ∷ []

abbrev ended : Endpoint
ended = acts no_text (new_endpoint 4 defaults true) ending

abbrev farewell_frame : ConnectionClose
farewell_frame = (application_close 9 (65 ∷ [])).1

ended_said : ended.goodbye ≡ said farewell_frame
unfolding acts act qmux_go.Endpoint.advance qmux_go.Endpoint.close_gracefully
    qmux_go.Conn.Close.terminate new_endpoint qmux_go.Endpoint.put_next qmux_go.Endpoint.release
    qmux_go.Endpoint.record_put qmux_go.Conn.State.new_conn qmux_go.Endpoint.Writers.start_farewell
    qmux_go.Endpoint.shut_down
ended_said = refl

farewell_last_example :
    ((before : List (List ℕ)) × (ended.wire ≡ before ++ farewell_record farewell_frame ∷ []))
    × ((acts no_text ended (flushes 12 ∷ advances 13 ∷ [])).wire ≡ ended.wire)
farewell_last_example =
    farewell_last no_text 4 defaults true ending (flushes 12 ∷ advances 13 ∷ []) farewell_frame
      ended_said

ended_closed : is_some ended.conn.close_err ≡ true
unfolding acts act qmux_go.Endpoint.advance qmux_go.Endpoint.close_gracefully
    qmux_go.Conn.Close.terminate new_endpoint qmux_go.Endpoint.put_next qmux_go.Endpoint.release
    qmux_go.Endpoint.record_put qmux_go.Conn.State.new_conn qmux_go.Endpoint.Writers.start_farewell
    qmux_go.Endpoint.shut_down
ended_closed = refl

closing_ends_example : (act no_text ended forces_close).link_closed ≡ true
closing_ends_example = closing_ends no_text 4 defaults true ending ended_closed

-- Ten seconds, when the default is thirty.
abbrev impatient : Option Config
impatient = some (record zero_config { max_idle_timeout = pos (10_000 * millisecond) })

impatient-IsPassed : IsPassed impatient
impatient-IsPassed = omega arith

impatient_timeout : (normalized impatient).max_idle_timeout ≡ pos (10_000 * millisecond)
unfolding normalized qmux_go.Config.idle_timeout_of
impatient_timeout = refl

default_timeout : (normalized none).max_idle_timeout ≡ pos (30_000 * millisecond)
unfolding normalized qmux_go.Config.idle_timeout_of
default_timeout = refl

idle_timeouts_agree_example :
    (record_in no_text 9 (parameters_record (normalized impatient)) (dial 4 none)).conn.idle_timeout
    ≡ (record_in no_text 9
        (parameters_record (normalized none))
        (serve 4 impatient)).conn.idle_timeout
idle_timeouts_agree_example =
    idle_timeouts_agree no_text 4 9 none impatient 30_000 10_000 tt impatient-IsPassed
      default_timeout impatient_timeout (omega arith) (omega arith)
