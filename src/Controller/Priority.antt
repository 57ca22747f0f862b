-- ===== src/Controller/Priority.antt =====
-- controller.go: which pieces a peer should work on next, and in which order.
pub mod Order
use tulva.Prelude.{
  ℕ, suc, ◌+◌, List, [], ◌∷◌, map, Bool, true, false, not, ◌&&◌, if◌then◌else◌, leb, contains,
  nat_eq, Outcome, done, ◌>>=◌, read,
}
use tulva.Prelude.Int.{ℤ, ◌==ℤ◌, leb_ℤ}
use tulva.Prelude.Sort.{sort}
use tulva.Controller.State.{Controller, PeerInfo}

pub record PiecePriority : Type 0 where
  pub piece_num : ℕ
  pub active_requests_total : ℤ
  pub rarity_index : ℕ

-- `PiecePrioritySlice.Less` on two of the items.
unfoldable pub less : PiecePriority → PiecePriority → Bool
less a b =
    if not (a.active_requests_total ==ℤ b.active_requests_total)
    then leb_ℤ a.active_requests_total b.active_requests_total
    else leb a.rarity_index b.rarity_index

-- `sort.Sort` with `Less`, `Swap` and `Len`, and the pieces of the result.
unfoldable pub to_sorted_piece_slice : List PiecePriority → List ℕ
unfolding less sort
to_sorted_piece_slice pps = map (λ pp. pp.piece_num) (sort less pps)

-- The loop over the rarity slice from index `rarity_index` on.
unfoldable pub priorities_for_peer :
    Controller → PeerInfo → ℕ → List ℕ → Outcome (List PiecePriority)
priorities_for_peer c peer_info rarity_index [] = done []
priorities_for_peer c peer_info rarity_index (piece_num ∷ pieces) = do
  available ← read peer_info.available_pieces piece_num
  rest ← priorities_for_peer c peer_info (rarity_index + 1) pieces
  (if available && not (contains peer_info.active_requests piece_num)
      then (read c.active_requests_totals piece_num >>= λ total. done (
          record {
            piece_num = piece_num;
            active_requests_total = total;
            rarity_index = rarity_index;
          }
          ∷ rest))
      else done rest)

unfoldable pub create_download_priority_for_peer : Controller → PeerInfo → List ℕ → Outcome (List ℕ)
unfolding priorities_for_peer to_sorted_piece_slice
create_download_priority_for_peer c peer_info rarity_slice = do
  pps ← priorities_for_peer c peer_info 0 rarity_slice
  done (to_sorted_piece_slice pps)
