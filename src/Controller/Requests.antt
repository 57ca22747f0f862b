-- ===== src/Controller/Requests.antt =====
-- controller.go: the requests that are sent to a peer, and the work that a peer gives up.
pub mod Sent
use tulva.Prelude.{
  ℕ, suc, ◌+◌, List, [], ◌∷◌, Bool, true, false, if◌then◌else◌, leb, length, String, Outcome, done,
  ◌>>=◌, read, modify, string_eq,
}
use tulva.Prelude.Dict.{insert}
use tulva.Prelude.Int.{ℤ, pos, ◌+ℤ◌, ◌-ℤ◌}
use tulva.Controller.State.{Controller, PeerInfo, send, request_piece, set_add}
use tulva.Controller.Priority.{create_download_priority_for_peer}

-- The peer's record and the controller, while requests are sent to that peer.
pub record Serving : Type 0 where
  pub peer_info : PeerInfo
  pub cont : Controller

-- One round of the loop: the request, and the two accounts of it.
unfoldable pub send_request : String → ℕ → Serving → Outcome Serving
send_request name piece_num s = do
  expected_hash ← read s.cont.piece_hashes piece_num
  totals ← modify s.cont.active_requests_totals piece_num (λ t. t +ℤ pos 1)
  done (record {
    peer_info = record (s.peer_info) {
      active_requests = set_add piece_num s.peer_info.active_requests;
    };
    cont =
        send (request_piece name (record { piece_num = piece_num; expected_hash = expected_hash }))
          (record (s.cont) { active_requests_totals = totals });
  })

-- The loop over the pieces in order of priority, which ends when the peer has enough to do.
unfoldable pub send_loop : String → List ℕ → Serving → Outcome Serving
unfolding send_request
send_loop name [] s = done s
send_loop name (piece_num ∷ pieces) s =
    let next : Outcome Serving = (send_request name piece_num s >>= λ t. send_loop name pieces t) in
    if leb s.cont.max_simultaneous_downloads_per_peer (length s.peer_info.active_requests)
    then done s
    else next

-- `peer_info` is a pointer into the map of peers, at the key `name`: what is written through it is
-- written there.
unfoldable pub send_requests_to_peer : Controller → String → PeerInfo → List ℕ → Outcome Controller
unfolding create_download_priority_for_peer send_loop
send_requests_to_peer c name peer_info rarity_slice = if c.download_complete then done c else (do
  download_priority ← create_download_priority_for_peer c peer_info rarity_slice
  s ← send_loop name download_priority (record { peer_info = peer_info; cont = c })
  done (record (s.cont) { peers = insert name s.peer_info s.cont.peers }))

-- `activeRequestsTotals[pieceNum]--` for each piece of the set.
unfoldable pub release_all : List ℕ → List ℤ → Outcome (List ℤ)
release_all [] totals = done totals
release_all (piece_num ∷ pieces) totals = do
  totals' ← modify totals piece_num (λ t. t -ℤ pos 1)
  release_all pieces totals'

unfoldable pub remove_unfinished_work_for_peer : Controller → String → PeerInfo → Outcome Controller
unfolding release_all
remove_unfinished_work_for_peer c name peer_info = do
  totals ← release_all peer_info.active_requests c.active_requests_totals
  done (record c {
    active_requests_totals = totals;
    peers = insert name (record peer_info { active_requests = [] }) c.peers;
  })
