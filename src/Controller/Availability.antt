-- ===== src/Controller/Availability.antt =====
-- controller.go: how many peers have each piece, the pieces in order of rarity, and how many of its
-- pieces a peer is needed for.
pub mod Rarest
use tulva.Prelude.{
  ℕ, zero, suc, ◌+◌, List, [], ◌∷◌, Bool, true, false, not, ◌&&◌, if◌then◌else◌, replicate, length,
  String, Outcome, done, panicked, ◌>>=◌,
}
use tulva.Controller.State.{Controller, PeerInfo}
use tulva.Controller.Rarity.{RarityMap, new_rarity_map, put, Rand, get_pieces_by_rarity}

-- The inner loop: one more peer for each piece that it has. The totals of the pieces so far done are
-- passed over; a piece beyond the last total is an index out of range.
unfoldable pub add_available : List ℕ → List Bool → Outcome (List ℕ)
add_available totals [] = done totals
add_available [] (true ∷ has) = panicked
add_available [] (false ∷ has) = add_available [] has
add_available (n ∷ totals) (has_piece ∷ has) = do
  rest ← add_available totals has
  done ((if has_piece then n + 1 else n) ∷ rest)

unfoldable pub add_peers : List (String × PeerInfo) → List ℕ → Outcome (List ℕ)
unfolding add_available
add_peers [] totals = done totals
add_peers ((_, peer_info) ∷ peers) totals = do
  totals' ←
      if peer_info.is_choked then done totals else add_available totals peer_info.available_pieces
  add_peers peers totals'

unfoldable pub create_peer_piece_totals : Controller → Outcome (List ℕ)
unfolding add_peers
create_peer_piece_totals c = add_peers c.peers (replicate (length c.finished_pieces) 0)

-- The loop of `createRaritySlice` from piece `piece_num` on.
unfoldable pub fill_rarity_map : ℕ → List ℕ → List Bool → RarityMap → Outcome RarityMap
fill_rarity_map piece_num [] finished r = done r
fill_rarity_map piece_num (total ∷ totals) [] r = panicked
fill_rarity_map piece_num (total ∷ totals) (is_finished ∷ finished) r =
    fill_rarity_map (piece_num + 1) totals finished
      (if is_finished then r else put r total piece_num)

unfoldable pub create_rarity_slice : Rand → Controller → Outcome (List ℕ)
unfolding create_peer_piece_totals fill_rarity_map get_pieces_by_rarity
create_rarity_slice rand c = do
  totals ← create_peer_piece_totals c
  rarity_map ← fill_rarity_map 0 totals c.finished_pieces new_rarity_map
  get_pieces_by_rarity rand rarity_map

-- `!pieceFinished && peerInfo.availablePieces[pieceNum]`, piece by piece: the second list is read only
-- where the first says that the piece is wanted.
unfoldable pub count_needed : List Bool → List Bool → ℕ → Outcome ℕ
count_needed [] available n = done n
count_needed (true ∷ finished) [] n = count_needed finished [] n
count_needed (false ∷ finished) [] n = panicked
count_needed (true ∷ finished) (_ ∷ available) n = count_needed finished available n
count_needed (false ∷ finished) (has ∷ available) n =
    count_needed finished available (if has then n + 1 else n)

unfoldable pub update_quantity_needed_for_peer : List Bool → PeerInfo → Outcome PeerInfo
unfolding count_needed
update_quantity_needed_for_peer finished_pieces peer_info = do
  qty ← count_needed finished_pieces peer_info.available_pieces 0
  done (record peer_info { qty_pieces_needed = qty })
