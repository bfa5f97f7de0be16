-- ===== src/Conn/Receive/Invariant.antt =====
-- The receiving state of a whole connection, and the receiving operations of qmux/conn.go and
-- qmux/stream.go on it.
pub mod Heap
pub mod Steps
pub mod Operations
