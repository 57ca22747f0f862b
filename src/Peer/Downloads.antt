-- ===== src/Peer/Downloads.antt =====
-- peer.go: the slice `downloads`. Its elements are pointers to distinct records, so a change of one is
-- a change of one element.
use tulva.Prelude.{
  ℕ, suc, List, [], ◌∷◌, ◌++◌, Bool, true, false, not, ◌&&◌, ◌||◌, some, none, Option,
  if◌then◌else◌, ◌==◌, nat_eq, filterb, get_elem?, set,
}
use mathlib.Core.Option
use tulva.Prelude.Int.{ℤ, pos, ◌+ℤ◌}
use tulva.Peer.State.{PieceDownload}

unfoldable pub have_current_downloads : List PieceDownload → Bool
have_current_downloads [] = false
have_current_downloads (d ∷ ds) = not d.is_finished || have_current_downloads ds

-- The index of the first download that passes the test.
abbrev pub find_index : (PieceDownload → Bool) → List PieceDownload → Option ℕ
find_index p [] = none
find_index p (d ∷ ds) = if p d then some 0 else Option.map (λ i. suc i) (find_index p ds)

-- The place of the unfinished download of that piece; nil is `none`.
unfoldable pub get_piece_download : ℕ → List PieceDownload → Option ℕ
get_piece_download piece_num = find_index (λ d. not d.is_finished && d.piece_num == piece_num)

unfoldable pub move_finished_piece_downloads_to_end : List PieceDownload → List PieceDownload
move_finished_piece_downloads_to_end ds =
    filterb (λ d. not d.is_finished) ds ++ filterb (λ d. d.is_finished) ds

unfoldable pub total_outstanding_blocks : List PieceDownload → ℤ
total_outstanding_blocks [] = pos 0
total_outstanding_blocks (d ∷ ds) =
    let rest = total_outstanding_blocks ds in
    if d.is_finished then rest else d.num_outstanding_blocks +ℤ rest

-- `piece.isFinished = true` on the download at the index.
abbrev pub finish_at : ℕ → List PieceDownload → List PieceDownload
finish_at i ds = elim (get_elem? ds i) [
  | none ↦ ds
  | some d ↦ set ds i (record d { is_finished = true })
]

-- The piece that the controller has cancelled is dropped, if the peer works on it.
unfoldable pub process_cancel_from_controller : ℕ → List PieceDownload → List PieceDownload
unfolding have_current_downloads get_piece_download move_finished_piece_downloads_to_end
process_cancel_from_controller piece_num ds =
    if have_current_downloads ds
    then elim (get_piece_download piece_num ds) [
      | none ↦ ds
      | some i ↦ move_finished_piece_downloads_to_end (finish_at i ds)
    ]
    else ds

-- The peer has choked us: `decodeMessage` clears all unfinished work.
unfoldable pub clear_downloads : List PieceDownload → List PieceDownload
clear_downloads [] = []
clear_downloads (d ∷ ds) =
    record d { is_finished = true; num_blocks_received = 0; num_outstanding_blocks = pos 0 }
    ∷ clear_downloads ds
