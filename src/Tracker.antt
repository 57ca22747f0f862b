-- ===== src/Tracker.antt =====
-- tracker.go, httptracker.go and udptracker.go: what a tracker is asked and what its answer is read as. The connection,
-- the timers and the decoder of bencode are left out: an answer is the bytes or the fields that came in.
pub mod Bytes
pub mod Http
pub mod Udp
mod Tests
use tulva.Prelude.{ℕ, List, [], ◌∷◌}
use tulva.Prelude.Int.{ℤ}

-- The reasons for an announce.
pub data Event : Type 0 where
  interval : Event
  started : Event
  stopped : Event
  completed : Event

-- An IPv4 address, as its four bytes, and a port.
pub record PeerTuple : Type 0 where
  pub ip : List ℕ
  pub port : ℕ

-- What an announce comes to: when to announce next, in seconds, and the peers for the peer manager.
pub record Announced : Type 0 where
  pub next_announce : List ℤ
  pub peers : List PeerTuple
