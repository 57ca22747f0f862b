-- ===== src/DiskIo/Run.antt =====
-- `DiskIO.Run` and the goroutines that it starts. A goroutine takes one of its turns at a time, in any order with the
-- others; the bytes of one piece are written in one turn. The channels to the controller and to the statistics have no
-- buffer: a goroutine that sends waits until the receiver takes the message, which is an event of its own and may
-- never come. The lists have what was taken, in order.
pub mod Messages
pub mod Stored
use tulva.Prelude.{
  ℕ, ◌+◌, List, [], ◌∷◌, ◌++◌, Bool, true, false, Option, none, some, if◌then◌else◌, length,
  get_elem?, set, Outcome, done, stopped, ◌>>=◌, ◌≡◌,
}
use tulva.Pieces.{Piece, BlockInfo, BlockResponse, ReceivedPiece}
use tulva.Torrent.{Info}
use tulva.DiskIo.Write.{write_piece}
use tulva.DiskIo.Read.{request_block}

-- What is next in the goroutine that a piece has started: the call of `writePiece`, the message to the controller, on
-- which it waits, the message to the statistics, on which it waits, nothing.
pub data Stage : Type 0 where
  to_write : Stage
  to_report : Stage
  to_count : Stage
  returned : Stage

pub record Writer : Type 0 where
  pub piece : Piece
  pub stage : Stage

-- The goroutine that a request for a block has started, with the answer from the time it was read. The message with
-- the answer, on a channel of the peer's own, is left out.
pub record Reader : Type 0 where
  pub request : BlockInfo
  pub response : Option BlockResponse

pub record DiskIo : Type 0 where
  pub running : Bool
  pub files : List (List ℕ)
  pub writers : List Writer
  pub readers : List Reader
  pub received_piece : List ReceivedPiece
  pub stats : List ℕ

-- A `DiskIO` with the files that `Init` has opened.
abbrev pub new_disk_io : List (List ℕ) → DiskIo
new_disk_io files = record {
  running = true;
  files = files;
  writers = [];
  readers = [];
  received_piece = [];
  stats = [];
}

-- What happens next: `Run` takes a message, a goroutine has its turn, or the controller or the statistics take the
-- message of the goroutine at an index.
pub data Event : Type 0 where
  write_piece_sent : Piece → Event
  block_request_sent : BlockInfo → Event
  quit_closed : Event
  writer_turn : ℕ → Event
  report_taken : ℕ → Event
  count_taken : ℕ → Event
  reader_turn : ℕ → Event

-- The goroutine at the index runs up to its first send.
unfoldable pub write_turn : Info → DiskIo → ℕ → Piece → Stage → Outcome DiskIo
write_turn info d i piece to_write = do
  files ← write_piece info d.files piece
  done (record d {
    files = files;
    writers = set d.writers i (record { piece = piece; stage = to_report });
  })
write_turn info d i piece to_report = stopped
write_turn info d i piece to_count = stopped
write_turn info d i piece returned = stopped

-- The controller takes the message of the goroutine at the index, if it waits with it.
unfoldable pub report_turn : DiskIo → ℕ → Piece → Stage → Outcome DiskIo
report_turn d i piece to_write = stopped
report_turn d i piece to_report = done (record d {
  writers = set d.writers i (record { piece = piece; stage = to_count });
  received_piece =
      d.received_piece ++ (record { piece_num = piece.index; peer_name = piece.peer_name } ∷ []);
})
report_turn d i piece to_count = stopped
report_turn d i piece returned = stopped

-- The statistics take the message of the goroutine at the index, if it waits with it.
unfoldable pub count_turn : DiskIo → ℕ → Piece → Stage → Outcome DiskIo
count_turn d i piece to_write = stopped
count_turn d i piece to_report = stopped
count_turn d i piece to_count = done (record d {
  writers = set d.writers i (record { piece = piece; stage = returned });
  stats = d.stats ++ (length piece.bytes ∷ []);
})
count_turn d i piece returned = stopped

unfoldable pub read_turn : Info → DiskIo → ℕ → BlockInfo → Option BlockResponse → Outcome DiskIo
read_turn info d i block none = do
  response ← request_block info d.files block
  done (record d {
    readers = set d.readers i (record { request = block; response = some response });
  })
read_turn info d i block (some response) = stopped

-- `stopped` is an event that cannot happen: `Run` has returned, there is no such goroutine, or it is not its turn.
unfoldable pub step : Info → DiskIo → Event → Outcome DiskIo
unfolding write_turn report_turn count_turn read_turn
step info d (write_piece_sent piece) =
    if d.running
    then done
        (record d { writers = d.writers ++ (record { piece = piece; stage = to_write } ∷ []) })
    else stopped
step info d (block_request_sent block) =
    if d.running
    then done
        (record d { readers = d.readers ++ (record { request = block; response = none } ∷ []) })
    else stopped
step info d quit_closed = done (record d { running = false })
step info d (writer_turn i) = elim (get_elem? d.writers i) [
  | none ↦ stopped
  | some w ↦ write_turn info d i w.piece w.stage
]
step info d (report_taken i) = elim (get_elem? d.writers i) [
  | none ↦ stopped
  | some w ↦ report_turn d i w.piece w.stage
]
step info d (count_taken i) = elim (get_elem? d.writers i) [
  | none ↦ stopped
  | some w ↦ count_turn d i w.piece w.stage
]
step info d (reader_turn i) = elim (get_elem? d.readers i) [
  | none ↦ stopped
  | some r ↦ read_turn info d i r.request r.response
]

-- The piece that an event brings.
abbrev pub sent_piece : Event → List Piece
sent_piece (write_piece_sent piece) = piece ∷ []
sent_piece (block_request_sent block) = []
sent_piece quit_closed = []
sent_piece (writer_turn i) = []
sent_piece (report_taken i) = []
sent_piece (count_taken i) = []
sent_piece (reader_turn i) = []

-- The states that some order of events leads to, with the pieces that were sent in it, the first one first.
pub data Reached (info : Info) (files : List (List ℕ)) : List Piece → DiskIo → Type 0 where
  start : Reached info files [] (new_disk_io files)
  after :
      (sent : List Piece) (d d' : DiskIo) (event : Event)
      → Reached info files sent d
      → step info d event ≡ done d'
      → Reached info files (sent ++ sent_piece event) d'
