-- ===== src/Statistics/Tests.antt =====
-- Examples for the statistics.
use tulva.Prelude.{◌≡◌, List, [], ◌∷◌}
use tulva.Prelude.Int.{pos}
use tulva.Statistics.{new_stats, run, Traffic, reads, writes, sends, peer_events}
use tulva.Statistics.Totals.{downloaded_again}

-- 100 bytes, a tick, 50 bytes, and two more ticks.
abbrev traffic : List Traffic
traffic = reads 100 ∷ sends ∷ writes 7 ∷ reads 50 ∷ sends ∷ sends ∷ []

downloaded_again_example :
    (run
      (new_stats (pos 1000))
      (peer_events (record { read = 0; write = 0; errors = 0 }) traffic)).downloaded
    ≡ 400
downloaded_again_example = downloaded_again (new_stats (pos 1000)) traffic
