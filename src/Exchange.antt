-- ===== src/Exchange.antt =====
-- One stream between two connections of qmux/conn.go: data goes forth in STREAM frames and limits
-- come back, over a link that keeps the order. Each move is what one of the ends does under its
-- mutex.
use qmux_go.Base.{List, Option, [], none, some, ℕ, ◌++◌, ◌∷◌}
use qmux_go.Conn.Control.{take_control}
use qmux_go.Conn.Receive.{Growth, Reading, data_read, read_error, try_read, wait_for}
use qmux_go.Conn.Run.{arrives, reads, step, takes_control, writes}
use qmux_go.Conn.Send.{Chunk, chunk, chunk_error, no_chunk, write_chunk}
use qmux_go.Conn.Send.Whole.{payloads}
use qmux_go.Conn.State.{Conn, Stream, find}
use qmux_go.Wire.Frame.{Frame, StreamFrame, frame, stream}
pub mod Route
pub mod States
pub mod Reports
pub mod Hearing
pub mod Counting
pub mod Taking
pub mod Flowing
pub mod Arriving
pub mod Answering
pub mod Moves
pub mod Promises
pub mod Draining
pub mod Opening
pub mod Beginning
pub mod Delivery

-- The two ends of the stream, and the frames that are on their way.
pub record Ends : Type 0 where
  pub near : Conn
  pub far : Conn
  pub forth : List StreamFrame
  pub back : List Frame

pub data Move : Type 0 where
  -- `writeChunk` at the near end, and `tryRead` of so many bytes at the far one.
  near_writes : List ℕ → Move
  far_reads : ℕ → Move
  -- The oldest frame on its way arrives.
  far_handles near_handles : Move
  -- `takeControl` at the far end.
  far_reports : Move

unfoldable pub chunk_frames : Chunk → List StreamFrame
chunk_frames (chunk f) = f ∷ []
chunk_frames no_chunk = []
chunk_frames (chunk_error e) = []

unfoldable pub written_forth : Option Stream → Conn → List ℕ → List StreamFrame
written_forth none c p = []
written_forth (some s) c p = chunk_frames (write_chunk c s p).2

-- The data that a read copies.
unfoldable pub data_of : Reading → List ℕ
data_of (data_read p) = p
data_of (wait_for k t) = []
data_of (read_error p e) = p

unfoldable pub read_from : Option Stream → Conn → ℕ → List ℕ
read_from none c room = []
read_from (some t) c room = data_of (try_read c t room).1

module _ ⦃g : Growth⦄ (now id : ℕ) where
  unfoldable pub handled_forth : Ends → List StreamFrame → Ends
  handled_forth e [] = e
  handled_forth e (f ∷ fs) = record e {
    far = step e.far (arrives now (frame (stream f)));
    forth = fs;
  }

  unfoldable pub handled_back : Ends → List Frame → Ends
  handled_back e [] = e
  handled_back e (f ∷ fs) = record e { near = step e.near (arrives now (frame f)); back = fs }

  -- A move, with the data that it sends and the data that it reads.
  unfoldable pub move : Ends → Move → Ends × List ℕ × List ℕ
  move e (near_writes p) =
      let fs = written_forth (find id e.near.heap) e.near p in
      (record e { near = step e.near (writes id p); forth = e.forth ++ fs }, payloads fs, [])
  move e (far_reads room) =
      (record e { far = step e.far (reads id room) }, [], read_from (find id e.far.heap) e.far room)
  move e far_handles = (handled_forth e e.forth, [], [])
  move e near_handles = (handled_back e e.back, [], [])
  move e far_reports = (
    record e { far = step e.far (takes_control now); back = e.back ++ (take_control now e.far).1 },
    [],
    [],
  )

  unfoldable pub moves : Ends → List Move → Ends × List ℕ × List ℕ
  moves e [] = (e, [], [])
  moves e (x ∷ xs) =
      let (e', w, r) = move e x in let (e'', ws, rs) = moves e' xs in (e'', w ++ ws, r ++ rs)
