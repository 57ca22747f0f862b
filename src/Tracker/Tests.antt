-- ===== src/Tracker/Tests.antt =====
-- Examples for the trackers.
use tulva.Prelude.{
  ◌⊎◌, ◌≡◌, inl, ℕ, ◌-◌, ◌*◌, ◌/◌, ◌%◌, ◌^◌, ◌≤◌, ◌<◌, refl, List, [], ◌∷◌, none, Bool, true, ◌&&◌,
  ltb, length, min, take, drop, All, done, panicked, Returns, arith,
}
use tulva.Tracker.{started}
use tulva.Tracker.Bytes.{value_from}
use tulva.Tracker.Http.{parse_peers}
use tulva.Tracker.Http.Peers.{compact, Valid, compact-parse_peers}
use tulva.Tracker.Udp.Packets.{ConnectResponse, AnnounceResponse}
use tulva.Tracker.Udp.Connect.{UdpTracker, connect_answer}
use tulva.Tracker.Udp.Connect.Answers.{
  answer_packet, connect_answer-accepts, connect_answer-refused,
}
use tulva.Tracker.Udp.Announce.{announced, announce_answer}
use tulva.Tracker.Udp.Announce.Peers.{announce_answer-parse_peers}
use tulva.Tracker.Udp.Timeouts.{timeout, expire_times, new_sender, timeout-expire_times}

-- The address 10.0.0.1 and the port 6881.
abbrev one_peer : List ℕ
one_peer = 10 ∷ 0 ∷ 0 ∷ 1 ∷ 26 ∷ 225 ∷ []

one_peer_parsed :
    parse_peers one_peer ≡ done (record { ip = 10 ∷ 0 ∷ 0 ∷ 1 ∷ []; port = 6881 } ∷ [])
unfolding parse_peers
one_peer_parsed = refl

abbrev cut_peer : List ℕ
cut_peer = 10 ∷ 0 ∷ 0 ∷ 1 ∷ []

cut_peer_panics : parse_peers cut_peer ≡ panicked
unfolding parse_peers
cut_peer_panics = refl

compact-parse_peers_example :
    ((length one_peer % 6 ≡ 0)
      × Returns (λ peers. (compact peers ≡ one_peer) × All Valid peers) (parse_peers one_peer))
    ⊎ ((0 < length one_peer % 6) × (parse_peers one_peer ≡ panicked))
compact-parse_peers_example =
    compact-parse_peers one_peer
      (omega arith, (omega arith, (omega arith, (omega arith, (omega arith, (omega arith, tt))))))

abbrev tracker : UdpTracker
tracker = record { connection_id = 0; transaction_id = 305419896; info_hash = [] }

abbrev accepting : ConnectResponse
accepting = record { action = 0; transaction_id = 305419896; connection_id = 81985529216486895 }

connect_answer-accepts_example :
    connect_answer tracker (answer_packet accepting (1 ∷ []))
    ≡ (none, record tracker { connection_id = 81985529216486895 })
connect_answer-accepts_example =
    connect_answer-accepts tracker accepting (1 ∷ [])
      (record { action = omega arith; transaction_id = omega arith; connection_id = omega arith })
      (ground arith) refl

abbrev refusing : ConnectResponse
refusing = record { action = 3; transaction_id = 305419896; connection_id = 7 }

connect_answer-refused_example :
    connect_answer tracker (answer_packet refusing []) ≡ (none, tracker)
connect_answer-refused_example =
    connect_answer-refused tracker refusing []
      (record { action = omega arith; transaction_id = omega arith; connection_id = omega arith })
      (inl refl)

-- Each number is a byte, by a test.
abbrev all_bytes : List ℕ → Bool
all_bytes [] = true
all_bytes (b ∷ bytes) = ltb b 256 && all_bytes bytes

all_bytes-All : (bytes : List ℕ) → all_bytes bytes ≡ true → All (λ b. b < 256) bytes
all_bytes-All [] e = tt
all_bytes-All (b ∷ bytes) e = (ground arith, all_bytes-All bytes (ground arith))

abbrev announce_packet : List ℕ
announce_packet =
    0 ∷ 0 ∷ 0 ∷ 1 ∷ 18 ∷ 52 ∷ 86 ∷ 120 ∷ 0 ∷ 0 ∷ 7 ∷ 8 ∷ 0 ∷ 0 ∷ 0 ∷ 2 ∷ 0 ∷ 0 ∷ 0 ∷ 5 ∷ one_peer

announce_answer-parse_peers_example :
    (response : AnnounceResponse) × (response.interval
      ≡ value_from 0 (take 4 (drop 8 announce_packet)))
    × (parse_peers (take ((length announce_packet - 20) / 6 * 6) (drop 20 announce_packet))
        ≡ done response.peers)
    × (announce_answer started announce_packet ≡ done (announced started response))
announce_answer-parse_peers_example =
    announce_answer-parse_peers started announce_packet (omega arith)
      (all_bytes-All announce_packet refl)

timeout-expire_times_example :
    (timeout (expire_times 3 new_sender) ≡ 15 * 2 ^ min 3 8)
    × ((expire_times 3 new_sender).total_attempts ≡ 3)
    × (timeout (expire_times 3 new_sender) ≤ 3840)
timeout-expire_times_example = timeout-expire_times 3
