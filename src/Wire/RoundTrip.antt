-- ===== src/Wire/RoundTrip.antt =====
-- `Parse` on what `Append` encodes, for the frames of qmux/internal/wire.
pub mod Valid
pub mod Params
pub mod Fields
pub mod Frames
