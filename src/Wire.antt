-- ===== src/Wire.antt =====
-- qmux/internal/wire: the frames and transport parameters of QMux.
pub mod Error
pub mod Frame
pub mod Reader
pub mod Params
pub mod Parse
pub mod RoundTrip
