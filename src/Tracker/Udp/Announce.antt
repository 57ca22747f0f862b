-- ===== src/Tracker/Udp/Announce.antt =====
-- `Announce`: what is asked of a tracker over UDP, and what is made of the answer.
pub mod Peers
use tulva.Prelude.{
  ℕ, zero, suc, ◌+◌, ◌-◌, List, [], ◌∷◌, ◌++◌, Bool, true, false, Option, none, some, if◌then◌else◌,
  not, ◌&&◌, ◌==◌, nat_eq, leb, length, take, replicate, Outcome, done, fatal,
}
use tulva.Prelude.Int.{pos}
use tulva.Tracker.{Event, interval, started, stopped, completed, PeerTuple, Announced}
use tulva.Tracker.Http.{is_stopped}
use tulva.Tracker.Udp.Packets.{
  action_announce, AnnounceRequest, AnnounceResponse, unmarshal_announce,
}
use tulva.Tracker.Udp.Connect.{UdpTracker}

-- The number of an event.
abbrev pub event_number : Event → ℕ
event_number interval = 0
event_number started = 1
event_number stopped = 2
event_number completed = 3

-- `copy(announce.InfoHash[:20], tr.infoHash)` into an array of zeros.
abbrev pub copy_hash : List ℕ → List ℕ
copy_hash hash = take 20 hash ++ replicate (20 - length hash) 0

-- The request. `key` is what the standard library has parsed; the statistics of the tracker are those of the session.
unfoldable pub announce_request : UdpTracker → ℕ → List ℕ → ℕ → ℕ → ℕ → Event → AnnounceRequest
announce_request tr key peer_id downloaded left uploaded event = record {
  connection_id = tr.connection_id;
  action = action_announce;
  transaction_id = tr.transaction_id;
  info_hash = copy_hash tr.info_hash;
  peer_id = peer_id;
  downloaded = downloaded;
  left = left;
  uploaded = uploaded;
  event = event_number event;
  ip_addr = 0;
  key = key;
  num_want = 4294967295;
  port = 6881;
}

-- The next announce, if there is one, and the peers, unless the session stops.
abbrev pub announced : Event → AnnounceResponse → Announced
announced event response =
    if is_stopped event then record { next_announce = []; peers = [] } else record {
      next_announce = (if response.interval == 0 then [] else pos response.interval ∷ []);
      peers = response.peers;
    }

-- What is done with a packet that came in; one of fewer than 20 bytes is passed over.
unfoldable pub announce_answer : Event → List ℕ → Outcome Announced
announce_answer event packet =
    if leb 20 (length packet)
    then elim (unmarshal_announce packet) [
      | none ↦ fatal
      | some response ↦ done (announced event response)
    ]
    else done (record { next_announce = []; peers = [] })
