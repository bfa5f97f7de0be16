-- ===== src/Conn.antt =====
-- qmux/conn.go and qmux/stream.go: the connection and its streams. Every operation that the source
-- makes under the connection's mutex is one function of the state.
pub mod Signal
pub mod Failure
pub mod State
pub mod Ids
pub mod Streams
pub mod Heap
pub mod Receive
pub mod Send
pub mod Datagrams
pub mod Handle
pub mod Control
pub mod Close
pub mod Run
pub mod Calls
