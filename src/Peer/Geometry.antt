-- ===== src/Peer/Geometry.antt =====
-- peer.go: how long a piece is, how many blocks it has, and how long each block is. The last piece may
-- be shorter than the others.
pub mod Tiling
use tulva.Prelude.{
  ℕ, suc, ◌+◌, ◌-◌, ◌*◌, ◌/◌, ◌%◌, ◌<◌, Bool, if◌then◌else◌, ltb, ◌==◌, nat_eq, Outcome, done,
  panicked, ◌>>=◌,
}
use tulva.Peer.State.{Sizes, download_block_size}

-- `a % b`: division by zero panics.
unfoldable pub rem : ℕ → ℕ → Outcome ℕ
rem a b = if b == 0 then panicked else done (a % b)

-- `pieceNum == (len(p.ourBitfield) - 1)`: with no piece at all the right side is -1.
abbrev pub is_last_piece : Sizes → ℕ → Bool
is_last_piece s piece_num = suc piece_num == s.num_pieces

unfoldable pub expected_length_for_piece : Sizes → ℕ → Outcome ℕ
unfolding rem
expected_length_for_piece s piece_num =
    if is_last_piece s piece_num
    then (do
      piece_length ← rem s.total_length s.piece_length
      done (if piece_length == 0 then s.piece_length else piece_length))
    else done s.piece_length

unfoldable pub expected_length_for_block : Sizes → ℕ → ℕ → Outcome ℕ
unfolding expected_length_for_piece rem
expected_length_for_block s piece_num block_num =
    if is_last_piece s piece_num
    then (do
      last_piece_length ← expected_length_for_piece s piece_num
      last ← rem s.total_length s.piece_length
      done (
          if ltb last_piece_length (block_num * download_block_size + download_block_size)
          then last % download_block_size
          else download_block_size))
    else done download_block_size

unfoldable pub expected_num_blocks_for_piece : Sizes → ℕ → Outcome ℕ
unfolding expected_length_for_piece
expected_num_blocks_for_piece s piece_num =
    if is_last_piece s piece_num
    then (do
      length_of_last_piece ← expected_length_for_piece s piece_num
      done (
          if length_of_last_piece == s.piece_length
          then s.piece_length / download_block_size
          else length_of_last_piece / download_block_size + 1))
    else done (s.piece_length / download_block_size)
