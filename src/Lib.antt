-- ===== src/Lib.antt =====
-- Tulva, a BitTorrent client.
--
-- The program is a set of goroutines that talk over channels. The controller (controller.go) decides which
-- piece is asked of which peer; a peer (peer.go) is one connection and asks for the blocks of its pieces; the
-- disk (diskio.go) writes finished pieces and tells the controller; the peer manager, the server and the
-- trackers find peers; the torrent starts them, and the statistics add up what they report.
--
-- Files:
--   Prelude          shared: tests, lists, sums over lists, outcomes, signed integers, maps, sorting
--   Pieces           piece.go: the messages about pieces
--   Controller       controller.go. State: `Controller` and `PeerInfo`, with NewController; Rarity:
--                    RarityMap, shuffle, getPiecesByRarity; Availability: createPeerPieceTotals,
--                    createRaritySlice, updateQuantityNeededForPeer; Priority:
--                    createDownloadPriorityForPeer; Requests: sendRequestsToPeer and
--                    removeUnfinishedWorkForPeer; Cancel: removePieceFromActiveRequests; Run: the
--                    cases of Run; Accounts and Invariant: what holds between two messages
--   Peer             peer.go. State: PieceDownload; Geometry: expectedLengthForPiece,
--                    expectedLengthForBlock, expectedNumBlocksForPiece; Downloads: the list of
--                    downloads; Requests: sendOneOrMoreRequests; Wire: constructMessage, the send
--                    functions and the framing in reader; Bitfield: the conversions of a bitfield;
--                    Messages: decodeMessage, initializePieceDownload and the controller's messages;
--                    Healthy: an invariant of the downloads, with what a new piece (Taken) and a cancelled
--                    piece (Cancel) change; Connection: all messages of a connection,
--                    one after the other; Handshake: the handshake, and reader from the first byte on
--   Manager          peer.go: PeerManager, NewPeer, and where each peer's Run is. Counts: the number of
--                    peers; Stuck: a Run that waits for itself
--   DiskIo           diskio.go. Files: os.File; Write: writePiece, against the files as one volume
--                    (Volume) and in any order (Order); Read: requestBlock; Verify: checkHash and
--                    Verify; Run: the goroutines of Run, turn by turn, and when their messages are taken
--   Torrent          torrent.go: the info dictionary, Init, calcBytesLeft and the piece hashes
--   Startup          torrent.go: what Run makes of the torrent and of the pieces on the disk
--   Statistics       stats.go, and PeerStats of peer.go
--   Tracker          tracker.go; Http: the peers of httptracker.go; Udp: the packets, connect, Announce
--                    and the timeouts of udptracker.go; Bytes: numbers in big endian order
--
-- Conventions: a function that may end the program returns an `Outcome`: `log.Fatalf` is `fatal`, an index out of
-- range or a nil pointer is `panicked`, a goroutine that returns from its loop is `stopped`. A message that is sent
-- on a channel is added to a list in the state, in the order in which the code starts to send it, whether a goroutine
-- sends it or the handler itself: that a handler waits until its message is taken, as the controller does with a CANCEL
-- (controller.go, line 217), is not modelled there. In DiskIo.Run and Manager it is: the goroutines take their turns in
-- any order, the taking of a message is an event of its own, which may never come, and `stopped` also stands for an
-- event that cannot come. A Go map is an association list without a repeated key, and the
-- order of a range over it is part of the environment. The random numbers of the shuffle are a parameter, with
-- the documented bound of rand.Intn. Go's int is unbounded here, except where bytes are written: the
-- 32-bit fields wrap around. Each handler runs as one step, although reader starts
-- decodeMessage as a goroutine of its own.
--
-- Fuel: sendOneOrMoreRequests calls itself after each request; one round more than there are requests
-- left to send is given. The loop of reader takes at least four bytes in each round, so the length of the
-- input is rounds enough. A round of Verify that fills its buffer takes at least a byte, so the length of a file
-- and that of the hashes together are rounds enough. A round of the loop over the hashes takes 20 bytes. All other
-- loops are structural. Where goroutines take turns (DiskIo.Run, Manager), a state is reached by any finite run of
-- events.
--
-- Not modelled: the server and main, which only accept connections and start the goroutines; the decoder of
-- bencode, the file system's errors other than the end of a file, the creation of directories and files, and the HTTP
-- and UDP connections, of which only what is sent and what came in is modelled; in peer.go the keepalive and the times
-- of the ticker. A file is the list of its bytes; the bytes of one piece are written in one turn of its goroutine.
-- SHA-1 is a parameter of the functions that use it.
pub mod Prelude
pub mod Pieces
pub mod Controller
pub mod Peer
pub mod DiskIo
pub mod Manager
pub mod Startup
pub mod Statistics
pub mod Torrent
pub mod Tracker
