-- ===== src/Controller/Cancel.antt =====
-- controller.go: a piece has come in, and the other peers that work on it are told to stop.
pub mod Stuck
use tulva.Prelude.{
  ℕ, List, [], ◌∷◌, ◌++◌, Bool, true, false, none, some, if◌then◌else◌, contains, String, Outcome,
  done, fatal, panicked, ◌>>=◌, read, modify, nat_eq, string_eq,
}
use tulva.Prelude.Dict.{lookup, insert}
use tulva.Prelude.Int.{ℤ, pos, ◌-ℤ◌, ◌==ℤ◌}
use tulva.Pieces.{ReceivedPiece}
use tulva.Controller.State.{Controller, PeerInfo, Message, cancel_piece, set_remove}

-- `cont.peers[name]`, a pointer that is used at once: nil panics.
abbrev pub deref : String → List (String × PeerInfo) → Outcome PeerInfo
deref name peers = elim (lookup name peers) [ none ↦ panicked | some peer_info ↦ done peer_info ]

-- What the loop over the peers changes.
pub record Cancelling : Type 0 where
  pub peers : List (String × PeerInfo)
  pub totals : List ℤ
  pub sent : List Message

-- One peer of the loop. The CANCEL is sent by the loop itself on a channel without a buffer, which here is an addition to
-- the list: that the controller waits for ever when the `Run` of that peer no longer takes messages is not modelled.
unfoldable pub cancel_at_peer : ℕ → String × PeerInfo → List ℤ → List Message → Outcome Cancelling
cancel_at_peer piece_num (name, peer_info) totals sent =
    if contains peer_info.active_requests piece_num
    then (do
      totals' ← modify totals piece_num (λ t. t -ℤ pos 1)
      done (record {
        peers =
            (
              name,
              record peer_info { active_requests = set_remove piece_num peer_info.active_requests },
            )
            ∷ [];
        totals = totals';
        sent = sent ++ (cancel_piece name (record { piece_num = piece_num }) ∷ []);
      }))
    else done (record { peers = (name, peer_info) ∷ []; totals = totals; sent = sent })

unfoldable pub cancel_others :
    ℕ → List (String × PeerInfo) → List ℤ → List Message → Outcome Cancelling
unfolding cancel_at_peer
cancel_others piece_num [] totals sent = done (record { peers = []; totals = totals; sent = sent })
cancel_others piece_num (entry ∷ peers) totals sent = do
  one ← cancel_at_peer piece_num entry totals sent
  rest ← cancel_others piece_num peers one.totals one.sent
  done (record { peers = one.peers ++ rest.peers; totals = rest.totals; sent = rest.sent })

-- The fatal error: after the loop no peer should be at work on the piece.
unfoldable pub check_stuck : ℕ → Cancelling → Controller → Outcome Controller
check_stuck piece_num after c = do
  stuck_requests ← read after.totals piece_num
  (if stuck_requests ==ℤ pos 0
      then done (record c {
        peers = after.peers;
        active_requests_totals = after.totals;
        sent = after.sent;
      })
      else fatal)

unfoldable pub remove_piece_from_active_requests : Controller → ReceivedPiece → Outcome Controller
unfolding cancel_others check_stuck
remove_piece_from_active_requests c piece = do
  finishing_peer ← deref piece.peer_name c.peers
  (if contains finishing_peer.active_requests piece.piece_num
      then (do
        totals ← modify c.active_requests_totals piece.piece_num (λ t. t -ℤ pos 1)
        let left = record finishing_peer {
          active_requests = set_remove piece.piece_num finishing_peer.active_requests;
        }
        after ← cancel_others piece.piece_num (insert piece.peer_name left c.peers) totals c.sent
        check_stuck piece.piece_num after c)
      else done c)
