-- ===== src/Statistics.antt =====
-- stats.go and the counters of a peer in peer.go: what was read and written, and what is left.
pub mod Totals
mod Tests
use tulva.Prelude.{ℕ, ◌+◌, List, [], ◌∷◌}
use tulva.Prelude.Int.{ℤ, pos, ◌-ℤ◌}

-- The counters of one peer since it connected.
pub record PeerStats : Type 0 where
  pub read : ℕ
  pub write : ℕ
  pub errors : ℕ

unfoldable pub add_read : PeerStats → ℕ → PeerStats
add_read ps value = record ps { read = ps.read + value }

unfoldable pub add_write : PeerStats → ℕ → PeerStats
add_write ps value = record ps { write = ps.write + value }

unfoldable pub add_error : PeerStats → ℕ → PeerStats
add_error ps value = record ps { errors = ps.errors + value }

pub record Stats : Type 0 where
  pub left : ℤ
  pub uploaded : ℕ
  pub downloaded : ℕ
  pub errors : ℕ

abbrev pub new_stats : ℤ → Stats
new_stats bytes_left = record { left = bytes_left; uploaded = 0; downloaded = 0; errors = 0 }

-- What `Run` waits for: the counters of a peer, the bytes that the disk has written, and the tick that prints.
pub data Event : Type 0 where
  peer_stats : PeerStats → Event
  bytes_written : ℕ → Event
  tick : Event

unfoldable pub step : Stats → Event → Stats
step s (peer_stats stat) = record s {
  downloaded = s.downloaded + stat.read;
  uploaded = s.uploaded + stat.write;
  errors = s.errors + stat.errors;
}
step s (bytes_written n) = record s { left = s.left -ℤ pos n }
step s tick = s

unfoldable pub run : Stats → List Event → Stats
unfolding step
run s [] = s
run s (event ∷ events) = run (step s event) events

-- What a peer does between two ticks: it reads and writes; at the tick it sends its counters.
pub data Traffic : Type 0 where
  reads : ℕ → Traffic
  writes : ℕ → Traffic
  sends : Traffic

-- The messages of a peer to the statistics: the counters are sent as they are, and are not set back.
unfoldable pub peer_events : PeerStats → List Traffic → List Event
unfolding add_read add_write
peer_events ps [] = []
peer_events ps (reads n ∷ traffic) = peer_events (add_read ps n) traffic
peer_events ps (writes n ∷ traffic) = peer_events (add_write ps n) traffic
peer_events ps (sends ∷ traffic) = peer_stats ps ∷ peer_events ps traffic
