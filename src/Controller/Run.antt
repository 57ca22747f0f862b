-- ===== src/Controller/Run.antt =====
-- controller.go, `Run`: one handler for each message, and the loop over the messages that come in.
-- A panic or a fatal error ends the process, a `return` the goroutine.
pub mod Have
pub mod Loop
pub mod Handlers
pub mod HaveHandler
pub mod Steps
use tulva.Prelude.{
  ℕ, ◌+◌, List, [], ◌∷◌, ◌++◌, map, Bool, true, false, not, ◌&&◌, none, some, Option, if◌then◌else◌,
  leb, ltb, length, String, Outcome, done, stopped, fatal, panicked, ◌>>=◌, read, write, SameItems,
  string_eq,
}
use tulva.Prelude.Dict.{lookup, insert, delete}
use tulva.Prelude.Sort.{sort}
use tulva.Pieces.{HavePiece, ReceivedPiece}
use tulva.Controller.State.{
  Controller, PeerInfo, new_peer_info, Message, have_pieces, send,
  update_completed_flag_if_finished,
}
use tulva.Controller.Rarity.{Rand}
use tulva.Controller.Availability.{create_rarity_slice, update_quantity_needed_for_peer}
use tulva.Controller.Requests.{send_requests_to_peer, remove_unfinished_work_for_peer}
use tulva.Controller.Cancel.{deref, remove_piece_from_active_requests}

-- peer.go, the message about a peer that chokes or unchokes us.
pub record PeerChokeStatus : Type 0 where
  pub peer_name : String
  pub is_choked : Bool

-- What the run-time chooses while one message is handled: the random numbers, and the order in which
-- a `range` over the map of peers meets them when they are sorted.
pub record Env : Type 0 where
  pub rand : Rand
  pub visit : List (String × PeerInfo) → List (String × PeerInfo)
  pub visit-SameItems : (peers : List (String × PeerInfo)) → SameItems (visit peers) peers

-- One HAVE to each peer that lacks the piece. The message names no peer.
unfoldable pub send_have_to_peers_who_need_piece :
    ℕ → List (String × PeerInfo) → Controller → Outcome Controller
send_have_to_peers_who_need_piece piece_num [] c = done c
send_have_to_peers_who_need_piece piece_num ((name, peer_info) ∷ peers) c = do
  has_piece ← read peer_info.available_pieces piece_num
  send_have_to_peers_who_need_piece piece_num peers (
      if has_piece
      then c
      else send (have_pieces name (record { piece_num = piece_num; peer_name = "" } ∷ [])) c)

unfoldable pub update_quantities :
    List Bool → List (String × PeerInfo) → Outcome (List (String × PeerInfo))
unfolding update_quantity_needed_for_peer
update_quantities finished [] = done []
update_quantities finished ((name, peer_info) ∷ peers) = do
  updated ← update_quantity_needed_for_peer finished peer_info
  rest ← update_quantities finished peers
  done ((name, updated) ∷ rest)

-- peer.go, `SortedPeers.Less`.
unfoldable pub needs_fewer : String × PeerInfo → String × PeerInfo → Bool
needs_fewer a b = leb a.1.qty_pieces_needed b.1.qty_pieces_needed

-- peer.go. The result is a slice of pointers; here it is the names at which they stand in the map.
unfoldable pub sorted_peers_by_qty_pieces_needed : Env → List (String × PeerInfo) → List String
unfolding needs_fewer sort
sorted_peers_by_qty_pieces_needed env peers =
    map (λ entry. entry.0) (sort needs_fewer (env.visit peers))

abbrev pub can_take_requests : Controller → PeerInfo → Bool
can_take_requests c peer_info =
    not peer_info.is_choked
    && ltb (length peer_info.active_requests) c.max_simultaneous_downloads_per_peer

unfoldable pub serve_peer : List ℕ → String → Controller → Outcome Controller
unfolding send_requests_to_peer
serve_peer rarity_slice name c = do
  peer_info ← deref name c.peers
  (if can_take_requests c peer_info
      then send_requests_to_peer c name peer_info rarity_slice
      else done c)

unfoldable pub serve_peers : List ℕ → List String → Controller → Outcome Controller
unfolding serve_peer
serve_peers rarity_slice [] c = done c
serve_peers rarity_slice (name ∷ names) c = do
  c' ← serve_peer rarity_slice name c
  serve_peers rarity_slice names c'

unfoldable pub on_received_piece : Env → Controller → ReceivedPiece → Outcome Controller
unfolding update_completed_flag_if_finished send_have_to_peers_who_need_piece
    remove_piece_from_active_requests create_rarity_slice update_quantities
    sorted_peers_by_qty_pieces_needed serve_peers
on_received_piece env c piece = do
  finished ← write c.finished_pieces piece.piece_num true
  let c₁ = update_completed_flag_if_finished (record c { finished_pieces = finished })
  c₂ ← send_have_to_peers_who_need_piece piece.piece_num c₁.peers c₁
  c₃ ← remove_piece_from_active_requests c₂ piece
  rarity_slice ← create_rarity_slice env.rand c₃
  peers ← update_quantities c₃.finished_pieces c₃.peers
  serve_peers rarity_slice (sorted_peers_by_qty_pieces_needed env peers)
      (record c₃ { peers = peers })

-- `sendBitfieldOverChannel`: the pieces that we have, over an inner channel.
-- The bitfield is the one at the time of the call. The source makes a copy of it, but its goroutine ranges over the
-- slice itself, so it may also send a piece that is finished while it runs; of that piece the peer gets a HAVE too.
unfoldable pub bitfield_haves : String → ℕ → List Bool → List HavePiece
bitfield_haves name piece_num [] = []
bitfield_haves name piece_num (have_piece ∷ bitfield) =
    let rest = bitfield_haves name (piece_num + 1) bitfield in
    if have_piece then record { piece_num = piece_num; peer_name = name } ∷ rest else rest

unfoldable pub on_new_peer : Controller → String → Outcome Controller
unfolding new_peer_info bitfield_haves
on_new_peer c name = elim (lookup name c.peers) [
  | some _ ↦ fatal
  | none ↦ done (
      send (have_pieces name (bitfield_haves name 0 c.finished_pieces))
        (record c { peers = insert name (new_peer_info (length c.finished_pieces) name) c.peers }))
]

unfoldable pub on_dead_peer : Controller → String → Outcome Controller
unfolding remove_unfinished_work_for_peer
on_dead_peer c name = elim (lookup name c.peers) [
  | none ↦ fatal
  | some peer_info ↦ remove_unfinished_work_for_peer c name peer_info >>= λ c'.
      done (record c' { peers = delete name c'.peers })
]

unfoldable pub on_choke_status : Rand → Controller → PeerChokeStatus → Outcome Controller
unfolding remove_unfinished_work_for_peer create_rarity_slice send_requests_to_peer
on_choke_status rand c status = elim (lookup status.peer_name c.peers) [
  | none ↦ stopped
  | some old ↦
      let peer_info = record old { is_choked = status.is_choked } in
      let c' = record c { peers = insert status.peer_name peer_info c.peers } in
      if status.is_choked
      then remove_unfinished_work_for_peer c' status.peer_name peer_info
      else (do
        rarity_slice ← create_rarity_slice rand c'
        send_requests_to_peer c' status.peer_name peer_info rarity_slice)
]

-- The loop over the inner channel. `last` is the peer of the last message: none before the first one.
unfoldable pub mark_available :
    List HavePiece → Option String → Controller → Outcome (Option String × Controller)
mark_available [] last c = done (last, c)
mark_available (have ∷ haves) last c = elim (lookup have.peer_name c.peers) [
  | none ↦ stopped
  | some peer_info ↦ write peer_info.available_pieces have.piece_num true >>= λ available.
      mark_available haves (some have.peer_name) (record c {
        peers = insert have.peer_name (record peer_info { available_pieces = available }) c.peers;
      })
]

-- After the loop the variable `peerInfo` is still nil if no message came.
unfoldable pub after_haves : Rand → Option String → Controller → Outcome Controller
unfolding create_rarity_slice send_requests_to_peer
after_haves rand none c = panicked
after_haves rand (some name) c = do
  peer_info ← deref name c.peers
  (if can_take_requests c peer_info
      then (create_rarity_slice rand c >>= λ rarity_slice.
          send_requests_to_peer c name peer_info rarity_slice)
      else done c)

unfoldable pub on_have_pieces : Rand → Controller → List HavePiece → Outcome Controller
unfolding mark_available after_haves
on_have_pieces rand c haves = do (last, c') ← mark_available haves none c; after_haves rand last c'

pub data Event : Type 0 where
  received_piece : ReceivedPiece → Event
  new_peer : String → Event
  dead_peer : String → Event
  choke_status : PeerChokeStatus → Event
  have_piece : List HavePiece → Event
  quit : Event

-- The `select`: which message comes next, and what the run-time chooses, is up to the list of `run`.
unfoldable pub step : Env → Controller → Event → Outcome Controller
unfolding on_received_piece on_new_peer on_dead_peer on_choke_status on_have_pieces
step env c (received_piece piece) = on_received_piece env c piece
step env c (new_peer name) = on_new_peer c name
step env c (dead_peer name) = on_dead_peer c name
step env c (choke_status status) = on_choke_status env.rand c status
step env c (have_piece haves) = on_have_pieces env.rand c haves
step env c quit = stopped

unfoldable pub run : Controller → List (Env × Event) → Outcome Controller
unfolding step
run c [] = done c
run c ((env, event) ∷ events) = do c' ← step env c event; run c' events
