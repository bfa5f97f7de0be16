-- ===== src/Conn/Ids.antt =====
-- Stream identifiers: `streamID`, `initiatedLocally` and `streamDir` of qmux/conn.go.
use qmux_go.Base.{
  Bool, arith, false, if◌then◌else◌, not, true, ℕ, ◌%◌, ◌*◌, ◌+◌, ◌/◌, ◌<◌, ◌==◌, ◌^◌, ◌≡◌,
}

pub data Dir : Type 0 where
  two_way one_way : Dir

-- `==` on Booleans.
abbrev pub same : Bool → Bool → Bool
same true b = b
same false b = not b

-- `id |= 0x2` for a unidirectional stream.
abbrev pub add_dir : Dir → ℕ → ℕ
add_dir two_way id = id
add_dir one_way id = id + 2

-- `index << 2 | 2 * uni | server`. The two low bits of `index << 2` are 0, so `|=` adds.
unfoldable pub stream_id : Bool → ℕ → Dir → Bool → ℕ
stream_id is_server index dir local =
    let id = index * 4 % 2 ^ 64 in
    let id₁ = add_dir dir id in if same local is_server then id₁ + 1 else id₁

-- `id & 1 == 1` tells whether the server opened the stream.
unfoldable pub initiated_locally : Bool → ℕ → Bool
initiated_locally is_server id = same (id % 2 == 1) is_server

-- `id & 2 != 0`.
unfoldable pub stream_dir : ℕ → Dir
stream_dir id = if id / 2 % 2 == 0 then two_way else one_way

-- `rawID >> 2`.
abbrev pub stream_index : ℕ → ℕ
stream_index id = id / 4

-- For an index below 2^62, the index, the direction and the initiator that are read from a stream
-- identifier are those that it was made from.
pub stream_id_lem :
    (is_server : Bool) (index : ℕ) (dir : Dir) (local : Bool)
    → index < 2 ^ 62
    → (stream_index (stream_id is_server index dir local) ≡ index)
      × (stream_dir (stream_id is_server index dir local) ≡ dir)
      × (initiated_locally is_server (stream_id is_server index dir local) ≡ local)
unfolding stream_id stream_dir initiated_locally
stream_id_lem is_server index two_way local h = ground arith
stream_id_lem is_server index one_way local h = ground arith

-- Every identifier below 2^62 is made from the index, the direction and the initiator that are
-- read from it.
pub stream_id-surjective :
    (is_server : Bool) (id : ℕ)
    → id < 2 ^ 62
    → stream_id is_server (stream_index id) (stream_dir id) (initiated_locally is_server id) ≡ id
unfolding stream_id stream_dir initiated_locally
stream_id-surjective is_server id h = ground arith
