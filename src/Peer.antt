-- ===== src/Peer.antt =====
-- peer.go: one peer's connection. `State` has its data, `Geometry` the sizes of pieces and blocks,
-- `Downloads` the pieces that are being downloaded, `Requests` the requests for their blocks, `Wire` and
-- `Bitfield` the bytes, `Messages` the handlers, and `Healthy` an invariant of the downloads.
pub mod State
pub mod Geometry
pub mod Downloads
pub mod Requests
pub mod Wire
pub mod Handshake
pub mod Bitfield
pub mod Messages
pub mod Healthy
pub mod Connection
mod Tests
