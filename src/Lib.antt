-- ===== src/Lib.antt =====
-- A verification library for qmux-go, an implementation of the QMux protocol in Go: streams and
-- datagrams of QUIC over any reliable transport.
--
-- The program. qmux/internal/wire encodes and parses the frames and the transport parameters. On it
-- stands qmux/conn.go, the connection: a read loop hands the records that the transport delivers
-- to `handleRecord`, which parses each frame and changes the state of the connection and its
-- streams (qmux/stream.go) under one mutex; the application's calls change the same state; a
-- write loop sends the control frames that both have queued. Writers share the transport by the
-- lock of qmux/write_lock.go, and qmux/transport.go puts records on a byte stream or in messages.
--
-- The model. Every operation that the source makes under the connection's mutex is one function
-- from the connection's state to the state after it, with its result: a state `Conn` of
-- Conn/State holds the streams by their identifiers, and an operation on a stream takes the stream
-- apart and stores it back by `commit`. Goroutines, calls and the peer's frames in any order are
-- lists of the steps of Conn/Run. Integers of 64 bits are natural numbers with their wrap-around
-- written out, an int64 is a ℤ, a nil pointer or error is `none`, and times are numbers that are
-- passed to the operations that read the clock.
--
--   Base: shared names, tests, and lemmas on lists.
--   Varint: the package quicvarint of quic-go as an interface, with the laws that the code relies
--     on; Varint/Rfc is the encoding of RFC 9000, which meets them.
--   Wire: qmux/internal/wire. Error, Frame, Reader and Parse are frame.go, Params is params.go.
--     RoundTrip is `Parse` after `Append`, Parse/Progress `Parse` on any input, Params/Accepts what
--     `parseParameters` demands.
--   Config: `normalized` and `streamLimit` of qmux/qmux.go, `localParameters` of qmux/conn.go.
--   Conn/Signal: `signal`. Conn/Ids: `streamID` and its inverses.
--   Conn/State: the types `Conn`, `stream`, `incoming`, `outgoing`, and `newConn`.
--   Conn/Streams: `streamLocked`, `newStreamLocked`, `completeLocked`, `tryOpen`, `tryAccept`.
--   Conn/Receive: `handleStreamLocked`, `handleResetStreamLocked`, `receivedLocked`,
--     `consumeLocked`, `bufferLocked`, `tryRead`, `tryPeek`, `readLocked`, `cancelRead`.
--   Conn/Send: `trySend`, `reserve`, `writeChunk`, `finish`, `closeSend`, `resetSendLocked`; in
--     Conn/Send/Whole the loop of `write`, with the states that its rounds find as an argument.
--   Conn/Calls: the calls that wait, `wait`, `read`, `peek`, `waitSendCredit`, `open` and `accept`,
--     with the states that the rounds of their loops find as an argument.
--   Conn/Datagrams: `SendDatagram` and `ReceiveDatagram`.
--   Conn/Handle: `handleRecord` and `handleFrameLocked`. Conn/Run: the steps of a connection, in any
--     order, and what they keep.
--   Conn/Control: `takeControl`, `requestPing`, `flushControl`.
--   Conn/Close: `terminate`, `closeWithTransportError`, `CloseWithError`.
--   WriteLock: qmux/write_lock.go, over the package container/heap as an interface; WriteLock/Scan
--     is a heap that meets it. Transport: `readRecord` and `writeRecord` of qmux/transport.go;
--     Transport/Links is its two transports, with the underlying connection as an argument.
--   Endpoint: a connection on its transport, the interface `recordTransport`: the connection's
--     state with the holder of the write lock, how far the close is, the records on the transport
--     and the statistics. Endpoint itself is `newConn`, `writeFramesLocked`, `writeRecordLocked`,
--     `abort` and `closeGracefully`; Endpoint/Writers is what each writer does when it gets the
--     lock; Endpoint/Loops is `readLoop`, `idleLoop`, `keepAliveLoop`, `Dial`, `Server` and `start`;
--     Endpoint/Acts is all of them in any order, between any two records of a writer.
--     Endpoint/Kept says what they keep, for a predicate that each way to take the lock, to write
--     and to close keeps.
--   Exchange: one stream between two connections, which Conn models, over links that keep the order
--     of what is sent: the writes, the reads, and the frames and limits that arrive, in any order.
--     Exchange/Flowing is the state of such a stream, Route, States, Reports, Hearing, Counting and
--     Taking are what each operation does to its part of it, Opening and Beginning are how it begins
--     after the handshake, and Draining is how it goes on when the sender has run out of credit.
--   Adapter: `NetConn` of qmux/adapter.go.
--   Tests: concrete values, and the theorems at them.
--
-- Fuel. `parse_loop` and `record_loop` recurse on fuel, and give `stuck` and `none` without it. A
-- round takes a byte of the input at least, so one more than its length is enough.
--
-- Parameters. quicvarint and container/heap are interfaces with their documented behaviour, the
-- capacity that Go's `append` gives a buffer is an interface that promises enough, and the text of
-- an error is a function of a data type of reasons.
--
-- Not modelled. Most methods of the exported stream types are one call of a method that is modelled.
-- The addresses and the contexts are handed out as they are, and the deadlines, the end and the TLS
-- state of a transport are those of the connection under it. In Exchange the far end sends nothing
-- but limits, and the stream does not end.
pub mod Base
pub mod Varint
pub mod Wire
pub mod Config
pub mod Conn
pub mod Exchange
pub mod WriteLock
pub mod Transport
pub mod Endpoint
pub mod Adapter
pub mod Tests
