-- ===== src/Statistics/Totals.antt =====
-- The totals that `Run` keeps, against sums over what it was sent.
use tulva.Prelude.{ℕ, suc, ◌+◌, ◌*◌, ◌≡◌, ap, ◌∙◌, List, [], ◌∷◌, arith}
use tulva.Prelude.Int.{pos, ◌-ℤ◌, int_laws}
use tulva.Statistics.{
  PeerStats, Stats, Event, peer_stats, bytes_written, tick, step, run, Traffic, reads, writes,
  sends, add_read, add_write, peer_events,
}

-- The sum over the events of what each of them brings.
abbrev pub sum_events : (Event → ℕ) → List Event → ℕ
sum_events f [] = 0
sum_events f (event ∷ events) = f event + sum_events f events

abbrev pub read_of : Event → ℕ
read_of (peer_stats ps) = ps.read
read_of (bytes_written n) = 0
read_of tick = 0

abbrev pub write_of : Event → ℕ
write_of (peer_stats ps) = ps.write
write_of (bytes_written n) = 0
write_of tick = 0

abbrev pub errors_of : Event → ℕ
errors_of (peer_stats ps) = ps.errors
errors_of (bytes_written n) = 0
errors_of tick = 0

abbrev pub disk_of : Event → ℕ
disk_of (peer_stats ps) = 0
disk_of (bytes_written n) = n
disk_of tick = 0

-- The totals after the events.
abbrev pub totals : Stats → List Event → Stats
totals s events = record {
  left = s.left -ℤ pos (sum_events disk_of events);
  uploaded = s.uploaded + sum_events write_of events;
  downloaded = s.downloaded + sum_events read_of events;
  errors = s.errors + sum_events errors_of events;
}

Stats-eq :
    (s t : Stats)
    → s.left ≡ t.left
    → s.uploaded ≡ t.uploaded
    → s.downloaded ≡ t.downloaded
    → s.errors ≡ t.errors
    → s ≡ t
Stats-eq s t a b c d = λ i. record { left = a i; uploaded = b i; downloaded = c i; errors = d i }

-- One event more.
totals-step :
    (s : Stats) (event : Event) (events : List Event)
    → totals (step s event) events ≡ totals s (event ∷ events)
unfolding step
totals-step s (peer_stats ps) events =
    Stats-eq (totals (step s (peer_stats ps)) events) (totals s (peer_stats ps ∷ events))
      (ap (λ k. s.left -ℤ pos k) (omega arith)) (omega arith) (omega arith) (omega arith)
totals-step s (bytes_written n) events =
    Stats-eq (totals (step s (bytes_written n)) events) (totals s (bytes_written n ∷ events))
      (omega int_laws) (omega arith) (omega arith) (omega arith)
totals-step s tick events =
    Stats-eq (totals (step s tick) events) (totals s (tick ∷ events))
      (ap (λ k. s.left -ℤ pos k) (omega arith)) (omega arith) (omega arith) (omega arith)

-- After any events, each total is the one at the start with the sum of what the events brought added, and the bytes
-- left are those at the start less the sum of what the disk wrote.
pub run_lem : (s : Stats) (events : List Event) → run s events ≡ totals s events
unfolding run
run_lem s [] = Stats-eq s (totals s []) (omega int_laws) (omega arith) (omega arith) (omega arith)
run_lem s (event ∷ events) = run_lem (step s event) events ∙ totals-step s event events

-- How often the counters are sent.
abbrev pub count_sends : List Traffic → ℕ
count_sends [] = 0
count_sends (reads n ∷ traffic) = count_sends traffic
count_sends (writes n ∷ traffic) = count_sends traffic
count_sends (sends ∷ traffic) = suc (count_sends traffic)

-- Each byte that is read, as often as the counters are sent from then on.
abbrev pub counted_again : List Traffic → ℕ
counted_again [] = 0
counted_again (reads n ∷ traffic) = n * count_sends traffic + counted_again traffic
counted_again (writes n ∷ traffic) = counted_again traffic
counted_again (sends ∷ traffic) = counted_again traffic

sent_lem :
    (ps : PeerStats) (traffic : List Traffic)
    → sum_events read_of (peer_events ps traffic)
      ≡ ps.read * count_sends traffic + counted_again traffic
unfolding peer_events add_read add_write
sent_lem ps [] = omega arith
sent_lem ps (reads n ∷ traffic) = grind (arith, sent_lem (add_read ps n) traffic)
sent_lem ps (writes n ∷ traffic) = sent_lem (add_write ps n) traffic
sent_lem ps (sends ∷ traffic) = grind (arith, sent_lem ps traffic)

-- With the counters of one peer that begins with none, `Downloaded` grows by each byte as often as the counters are
-- sent after it was read: the bytes of every tick are added again at each later one.
pub downloaded_again :
    (s : Stats) (traffic : List Traffic)
    → (run s (peer_events (record { read = 0; write = 0; errors = 0 }) traffic)).downloaded
      ≡ s.downloaded + counted_again traffic
downloaded_again s traffic =
    let start : PeerStats = record { read = 0; write = 0; errors = 0 } in
    ap Stats.downloaded (run_lem s (peer_events start traffic))
    ∙ omega (arith, sent_lem start traffic)
