-- ===== src/Tracker/Http.antt =====
-- httptracker.go: the answer of a tracker over HTTP.
pub mod Peers
use tulva.Prelude.{
  ℕ, zero, suc, ◌+◌, ◌*◌, ◌%◌, List, [], ◌∷◌, Bool, true, false, Option, none, some, if◌then◌else◌,
  not, ◌&&◌, ◌==◌, nat_eq, Outcome, done, panicked, ◌>>=◌,
}
use tulva.Prelude.Int.{ℤ, pos, ◌==ℤ◌}
use tulva.Tracker.{Event, interval, started, stopped, completed, PeerTuple, Announced}

-- The fields of the decoded answer that are used.
pub record TrackerResponse : Type 0 where
  pub interval : ℤ
  pub peers : List ℕ

-- `uint16(e) << 8`, with the other byte set in the low bits.
abbrev pub port_of : ℕ → ℕ → ℕ
port_of e f = e * 256 % 65536 + f

-- The loop over the text of the peers, six bytes a round; an index past the end of the text panics.
unfoldable pub parse_peers : List ℕ → Outcome (List PeerTuple)
parse_peers [] = done []
parse_peers (a ∷ b ∷ c ∷ d ∷ e ∷ f ∷ bytes) = do
  peers ← parse_peers bytes
  done (record { ip = a ∷ b ∷ c ∷ d ∷ []; port = port_of e f } ∷ peers)
parse_peers bytes = panicked

abbrev pub is_stopped : Event → Bool
is_stopped stopped = true
is_stopped interval = false
is_stopped started = false
is_stopped completed = false

-- What `Announce` does with the answer.
unfoldable pub announce_answer : Event → TrackerResponse → Outcome Announced
unfolding parse_peers
announce_answer event response =
    let next : List ℤ =
      if not (response.interval ==ℤ pos 0) && not (is_stopped event)
      then response.interval ∷ []
      else [] in
    let sent : Outcome Announced =
      (parse_peers response.peers >>= λ peers.
      done (record { next_announce = next; peers = peers })) in
    if is_stopped event then done (record { next_announce = next; peers = [] }) else sent
