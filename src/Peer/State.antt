-- ===== src/Peer/State.antt =====
-- peer.go: the state of one connection, and the pieces that are being downloaded over it.
use tulva.Prelude.{ℕ, List, Bool}
use tulva.Prelude.Int.{ℤ, pos, ◌+ℤ◌, ◌-ℤ◌}

abbrev pub download_block_size : ℕ
download_block_size = 16384

abbrev pub max_simultaneous_block_downloads : ℕ
max_simultaneous_block_downloads = 20

-- The sizes that a peer is made with: `pieceLength`, `totalLength`, and `len(ourBitfield)`.
pub record Sizes : Type 0 where
  pub piece_length : ℕ
  pub total_length : ℕ
  pub num_pieces : ℕ

-- `buffer` stands for the slice `data`: it is the number of the memory block that the slice points to.
-- The outstanding blocks may fall below 0 when a peer sends blocks that were not asked for.
pub record PieceDownload : Type 0 where
  pub piece_num : ℕ
  pub expected_hash : List ℕ
  pub buffer : ℕ
  pub num_blocks_received : ℕ
  pub num_outstanding_blocks : ℤ
  pub num_blocks_in_piece : ℕ
  pub is_finished : Bool

-- How many blocks of the piece have been asked for or have come in.
abbrev pub requested : PieceDownload → ℤ
requested d = pos d.num_blocks_received +ℤ d.num_outstanding_blocks

unfoldable pub remaining_requests_to_send : PieceDownload → ℤ
remaining_requests_to_send d = pos d.num_blocks_in_piece -ℤ requested d
