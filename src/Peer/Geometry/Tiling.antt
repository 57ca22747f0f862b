-- ===== src/Peer/Geometry/Tiling.antt =====
-- The blocks of a piece make up the piece.
use tulva.Prelude.{
  ℕ, zero, suc, ◌+◌, ◌*◌, ◌/◌, ◌%◌, ◌≤◌, ◌<◌, ◌≡◌, ◌≢◌, refl, ap, ◌∙◌, true, false, if◌then◌else◌,
  if_false, ltb, ◌==◌, nat_eq, Outcome, done, Returns, ◌>>=◌, arith, Bool-cases, inl, inr, ◌⊎◌,
}
use native.Mathlib.Nat.{mod-lt}
use tulva.Peer.State.{Sizes, download_block_size}
use tulva.Peer.Geometry.{
  rem, is_last_piece, expected_length_for_piece, expected_length_for_block,
  expected_num_blocks_for_piece,
}

-- What the last piece has beyond full pieces, or a full piece if that is nothing.
abbrev pub piece_size : Sizes → ℕ → ℕ
piece_size s n =
    if is_last_piece s n
    then (if s.total_length % s.piece_length == 0
        then s.piece_length
        else s.total_length % s.piece_length)
    else s.piece_length

rem_pos : (a b : ℕ) → 0 < b → rem a b ≡ done (a % b)
unfolding rem
rem_pos a b h = if_false {b = b == 0} _ _ (ground arith)

pub expected_length_for_piece_lem :
    (s : Sizes) (n : ℕ) → 0 < s.piece_length → expected_length_for_piece s n ≡ done (piece_size s n)
unfolding expected_length_for_piece
expected_length_for_piece_lem s n h = elim (Bool-cases (is_last_piece s n)) [
  | inl last ↦ rw (last, rem_pos s.total_length s.piece_length h)
  | inr inner ↦ rw inner
]

-- The length of a block, as the code computes it.
abbrev pub block_size : Sizes → ℕ → ℕ → ℕ
block_size s n b =
    if is_last_piece s n
    then (if ltb (piece_size s n) (b * download_block_size + download_block_size)
        then s.total_length % s.piece_length % download_block_size
        else download_block_size)
    else download_block_size

pub expected_length_for_block_lem :
    (s : Sizes) (n b : ℕ)
    → 0 < s.piece_length
    → expected_length_for_block s n b ≡ done (block_size s n b)
unfolding expected_length_for_block
expected_length_for_block_lem s n b h = elim (Bool-cases (is_last_piece s n)) [
  | inl last ↦
      rw (expected_length_for_piece_lem s n h, rem_pos s.total_length s.piece_length h) (rw last)
  | inr inner ↦ rw inner
]

abbrev pub num_blocks : Sizes → ℕ → ℕ
num_blocks s n =
    if is_last_piece s n
    then (if piece_size s n == s.piece_length
        then s.piece_length / download_block_size
        else piece_size s n / download_block_size + 1)
    else s.piece_length / download_block_size

pub expected_num_blocks_for_piece_lem :
    (s : Sizes) (n : ℕ)
    → 0 < s.piece_length
    → expected_num_blocks_for_piece s n ≡ done (num_blocks s n)
unfolding expected_num_blocks_for_piece
expected_num_blocks_for_piece_lem s n h = elim (Bool-cases (is_last_piece s n)) [
  | inl last ↦ rw (expected_length_for_piece_lem s n h) (rw last)
  | inr inner ↦ rw inner
]

-- The lengths of the blocks 0 to `k - 1`, added up.
abbrev pub length_of_blocks : Sizes → ℕ → ℕ → Outcome ℕ
length_of_blocks s n zero = done 0
length_of_blocks s n (suc k) = do
  before ← length_of_blocks s n k
  block ← expected_length_for_block s n k
  done (before + block)

-- The blocks that end within the piece are full.
full_blocks :
    (s : Sizes) (n k : ℕ)
    → 0 < s.piece_length
    → k * download_block_size ≤ piece_size s n
    → length_of_blocks s n k ≡ done (k * download_block_size)
full_blocks s n zero h le = refl
full_blocks s n (suc k) h le =
    rw (full_blocks s n k h (omega arith), expected_length_for_block_lem s n k h)
      (ap done (ground arith))

rest_block :
    (s : Sizes) (n : ℕ)
    → is_last_piece s n ≡ true
    → 0 < s.total_length % s.piece_length
    → block_size s n (piece_size s n / download_block_size) ≡ piece_size s n % download_block_size
rest_block s n last h = ground arith

-- A piece is full, or it is the last one and shorter.
shape :
    (s : Sizes) (n : ℕ)
    → ((num_blocks s n ≡ s.piece_length / download_block_size) × (piece_size s n ≡ s.piece_length))
      ⊎ ((num_blocks s n ≡ suc (piece_size s n / download_block_size))
          × (is_last_piece s n ≡ true)
          × (0 < s.total_length % s.piece_length))
shape s n = ground arith

-- If the piece length is a positive multiple of the block size, 16384, then the blocks of every piece, the last
-- one included, add up to the length of the piece.
pub blocks_tile :
    (s : Sizes) (n m : ℕ)
    → 0 < s.piece_length
    → s.piece_length ≡ m * download_block_size
    → (expected_num_blocks_for_piece s n >>= λ k. length_of_blocks s n k)
      ≡ expected_length_for_piece s n
blocks_tile s n m h e =
    rw (expected_num_blocks_for_piece_lem s n h, expected_length_for_piece_lem s n h)
      (elim (shape s n) [
        | inl (count, full) ↦
            ap (length_of_blocks s n) count
            ∙ full_blocks s n (s.piece_length / download_block_size) h (omega arith)
            ∙ ap done (omega arith)
        | inr (count, last, short) ↦
            ap (length_of_blocks s n) count
            ∙ rw
                (
                  full_blocks s n (piece_size s n / download_block_size) h (omega arith),
                  expected_length_for_block_lem s n (piece_size s n / download_block_size) h,
                  rest_block s n last short,
                )
                (ap done (omega arith))
      ])

-- If the piece length is not 0, the piece is the last one, and the rest beyond the full pieces is a positive
-- multiple of the block size, then the last piece is
-- given one block more than it has, and the expected length of that block is 0.
pub last_block_empty :
    (s : Sizes) (n : ℕ)
    → 0 < s.piece_length
    → is_last_piece s n ≡ true
    → 0 < s.total_length % s.piece_length
    → s.total_length % s.piece_length % download_block_size ≡ 0
    → (expected_num_blocks_for_piece s n
        ≡ done (s.total_length % s.piece_length / download_block_size + 1))
      × (expected_length_for_block s n (s.total_length % s.piece_length / download_block_size)
          ≡ done 0)
last_block_empty s n h last rest even = (
  expected_num_blocks_for_piece_lem s n h ∙ ap done (ground (arith, mod-lt s.total_length h)),
  expected_length_for_block_lem s n (s.total_length % s.piece_length / download_block_size) h
      ∙ ap done (ground arith),
)

-- If the piece length is not 0 and no multiple of the block size, a piece that is not the last gets too few
-- blocks: they end before the piece does.
pub blocks_fall_short :
    (s : Sizes) (n : ℕ)
    → 0 < s.piece_length
    → is_last_piece s n ≡ false
    → s.piece_length % download_block_size ≢ 0
    → Returns (λ k. k * download_block_size < s.piece_length) (expected_num_blocks_for_piece s n)
blocks_fall_short s n h inner odd =
    (num_blocks s n, expected_num_blocks_for_piece_lem s n h, ground arith)
