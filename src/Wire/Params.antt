-- ===== src/Wire/Params.antt =====
-- qmux/internal/wire/params.go: the transport parameters an endpoint declares, and their encoding.
use qmux_go.Base.{List, Option, [], if◌then◌else◌, none, some, ℕ, ◌++◌, ◌==◌, ◌^◌, ◌∷◌}
use qmux_go.Varint.{Varint}
use Prim.Native.String.{String}
pub mod Parse
pub mod Accepts

abbrev pub default_max_record_size : ℕ
default_max_record_size = 16382

-- The largest stream count a peer may declare (`maxStreams` of frame.go).
abbrev pub max_stream_count : ℕ
max_stream_count = 2 ^ 60

pub record Parameters : Type 0 where
  pub max_idle_timeout : ℕ
  pub initial_max_data : ℕ
  pub initial_max_stream_data_bidi_local : ℕ
  pub initial_max_stream_data_bidi_remote : ℕ
  pub initial_max_stream_data_uni : ℕ
  pub initial_max_streams_bidi : ℕ
  pub initial_max_streams_uni : ℕ
  pub max_datagram_frame_size : ℕ
  pub max_record_size : ℕ

-- `Parameters{}`.
abbrev pub no_parameters : Parameters
no_parameters = record {
  max_idle_timeout = 0;
  initial_max_data = 0;
  initial_max_stream_data_bidi_local = 0;
  initial_max_stream_data_bidi_remote = 0;
  initial_max_stream_data_uni = 0;
  initial_max_streams_bidi = 0;
  initial_max_streams_uni = 0;
  max_datagram_frame_size = 0;
  max_record_size = 0;
}

-- What the pointer that `field` returns can point to.
pub data Field : Type 0 where
  idle_timeout connection_data bidi_local bidi_remote uni_remote streams_bidi streams_uni : Field
  datagram_size record_size : Field

-- The identifiers of the parameters, in the order of the fields.
abbrev pub param_id : Field → ℕ
param_id idle_timeout = 0x01
param_id connection_data = 0x04
param_id bidi_local = 0x05
param_id bidi_remote = 0x06
param_id uni_remote = 0x07
param_id streams_bidi = 0x08
param_id streams_uni = 0x09
param_id datagram_size = 0x20
param_id record_size = 0x0571c59429cd0845

-- `none` is the nil pointer of an unknown parameter.
unfoldable pub field : ℕ → Option Field
field id =
    if id == param_id idle_timeout
    then some idle_timeout
    else if id == param_id connection_data
    then some connection_data
    else if id == param_id bidi_local
    then some bidi_local
    else if id == param_id bidi_remote
    then some bidi_remote
    else if id == param_id uni_remote
    then some uni_remote
    else if id == param_id streams_bidi
    then some streams_bidi
    else if id == param_id streams_uni
    then some streams_uni
    else if id == param_id datagram_size
    then some datagram_size
    else if id == param_id record_size
    then some record_size
    else none

-- Reading and writing through that pointer.
abbrev pub load : Field → Parameters → ℕ
load idle_timeout p = p.max_idle_timeout
load connection_data p = p.initial_max_data
load bidi_local p = p.initial_max_stream_data_bidi_local
load bidi_remote p = p.initial_max_stream_data_bidi_remote
load uni_remote p = p.initial_max_stream_data_uni
load streams_bidi p = p.initial_max_streams_bidi
load streams_uni p = p.initial_max_streams_uni
load datagram_size p = p.max_datagram_frame_size
load record_size p = p.max_record_size

abbrev pub store : Field → ℕ → Parameters → Parameters
store idle_timeout v p = record p { max_idle_timeout = v }
store connection_data v p = record p { initial_max_data = v }
store bidi_local v p = record p { initial_max_stream_data_bidi_local = v }
store bidi_remote v p = record p { initial_max_stream_data_bidi_remote = v }
store uni_remote v p = record p { initial_max_stream_data_uni = v }
store streams_bidi v p = record p { initial_max_streams_bidi = v }
store streams_uni v p = record p { initial_max_streams_uni = v }
store datagram_size v p = record p { max_datagram_frame_size = v }
store record_size v p = record p { max_record_size = v }

-- The name of a parameter of QUIC version 1 that QMux forbids; `none` stands for "".
unfoldable pub prohibited_param : ℕ → Option String
prohibited_param id =
    if id == 0x00
    then some "original_destination_connection_id"
    else if id == 0x02
    then some "stateless_reset_token"
    else if id == 0x03
    then some "max_udp_payload_size"
    else if id == 0x0a
    then some "ack_delay_exponent"
    else if id == 0x0b
    then some "max_ack_delay"
    else if id == 0x0c
    then some "disable_active_migration"
    else if id == 0x0d
    then some "preferred_address"
    else if id == 0x0e
    then some "active_connection_id_limit"
    else if id == 0x0f
    then some "initial_source_connection_id"
    else if id == 0x10
    then some "retry_source_connection_id"
    else none

-- The order in which `append` writes.
abbrev pub append_order : List Field
append_order =
    idle_timeout ∷ connection_data ∷ bidi_local ∷ bidi_remote ∷ uni_remote ∷ streams_bidi
    ∷ streams_uni ∷ datagram_size ∷ record_size ∷ []

module _ ⦃q : Varint⦄ where
  -- One round of the loop of `append`: a zero is the default, and is not sent.
  unfoldable pub append_field : Parameters → Field → List ℕ
  append_field p f =
      let value = load f p in
      if value == 0 then [] else q.encode (param_id f) ++ (q.encode (q.len value) ++ q.encode value)

  unfoldable pub append_fields : Parameters → List Field → List ℕ
  append_fields p [] = []
  append_fields p (f ∷ fs) = append_field p f ++ append_fields p fs

  -- What `append(b)` adds behind `b`.
  unfoldable pub encode_parameters : Parameters → List ℕ
  encode_parameters p = append_fields p append_order
