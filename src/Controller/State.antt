-- ===== src/Controller/State.antt =====
-- controller.go and peer.go: the state of the controller, and what it knows of each peer.
use tulva.Prelude.{
  ℕ, List, [], ◌∷◌, ◌++◌, Bool, true, false, not, String, replicate, length, Outcome, done, fatal,
  if◌then◌else◌, ◌==◌, nat_eq, filterb, contains,
}
use tulva.Prelude.Int.{ℤ, pos}
use tulva.Pieces.{RequestPiece, CancelPiece, HavePiece}

-- `activeRequests`, a set, is a list in which no piece stands twice. The channels of the peer are
-- left out: a message to a peer carries its name.
pub record PeerInfo : Type 0 where
  pub peer_name : String
  pub is_choked : Bool
  pub available_pieces : List Bool
  pub active_requests : List ℕ
  pub qty_pieces_needed : ℕ

unfoldable pub new_peer_info : ℕ → String → PeerInfo
new_peer_info quantity_of_pieces peer_name = record {
  peer_name = peer_name;
  is_choked = true;
  available_pieces = replicate quantity_of_pieces false;
  active_requests = [];
  qty_pieces_needed = 0;
}

-- What the controller sends on its channels: to the peer manager, or to the peer of that name.
pub data Message : Type 0 where
  seeding : Bool → Message
  request_piece : String → RequestPiece → Message
  cancel_piece : String → CancelPiece → Message
  have_pieces : String → List HavePiece → Message

-- `sent` is no field of the source: it is what has been sent so far, the oldest message first.
pub record Controller : Type 0 where
  pub finished_pieces : List Bool
  pub piece_hashes : List (List ℕ)
  pub active_requests_totals : List ℤ
  pub peers : List (String × PeerInfo)
  pub max_simultaneous_downloads_per_peer : ℕ
  pub download_complete : Bool
  pub sent : List Message

abbrev pub send : Message → Controller → Controller
send msg c = record c { sent = c.sent ++ (msg ∷ []) }

abbrev pub all_finished : List Bool → Bool
all_finished [] = true
all_finished (f ∷ fs) = if f then all_finished fs else false

-- The argument `initializing` only chooses a line of the log.
unfoldable pub update_completed_flag_if_finished : Controller → Controller
update_completed_flag_if_finished c =
    if all_finished c.finished_pieces
    then send (seeding true) (record c { download_complete = true })
    else c

unfoldable pub new_controller : List Bool → List (List ℕ) → Outcome Controller
unfolding update_completed_flag_if_finished
new_controller finished_pieces piece_hashes =
    if length finished_pieces == 0
    then fatal
    else if length piece_hashes == length finished_pieces
    then done (
        update_completed_flag_if_finished (record {
          finished_pieces = finished_pieces;
          piece_hashes = piece_hashes;
          active_requests_totals = replicate (length finished_pieces) (pos 0);
          peers = [];
          max_simultaneous_downloads_per_peer = 5;
          download_complete = false;
          sent = [];
        }))
    else fatal

-- The set `activeRequests`: `s[k] = struct{}{}` and `delete(s, k)`.
abbrev pub set_add : ℕ → List ℕ → List ℕ
set_add k s = if contains s k then s else k ∷ s

abbrev pub set_remove : ℕ → List ℕ → List ℕ
set_remove k = filterb (λ j. not (j == k))
