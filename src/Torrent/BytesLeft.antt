-- ===== src/Torrent/BytesLeft.antt =====
-- `calcBytesLeft` against the count of the finished pieces.
use tulva.Prelude.{
  ℕ, zero, suc, ◌+◌, ◌*◌, ◌≡◌, refl, ap, sym, ◌∙◌, List, [], ◌∷◌, Bool, true, false, if◌then◌else◌,
  replicate, arith,
}
use tulva.Prelude.Int.{ℤ, pos, ◌-ℤ◌, int_laws}
use tulva.Torrent.{calc_bytes_left}

-- How many pieces are finished.
abbrev pub count_finished : List Bool → ℕ
count_finished [] = 0
count_finished (piece ∷ pieces) =
    if piece then suc (count_finished pieces) else count_finished pieces

sub_twice : (a : ℤ) (m n : ℕ) → (a -ℤ pos m) -ℤ pos n ≡ a -ℤ pos (m + n)
sub_twice a m n = omega int_laws

sub_none : (a : ℤ) → a ≡ a -ℤ pos 0
sub_none a = omega int_laws

count-replicate : (n : ℕ) → count_finished (replicate n true) ≡ n
count-replicate zero = refl
count-replicate (suc n) = ap suc (count-replicate n)

-- `calcBytesLeft` takes a full piece length off for each finished piece.
pub calc_bytes_left-count :
    (left : ℤ) (piece_length : ℕ) (pieces : List Bool)
    → calc_bytes_left left piece_length pieces ≡ left -ℤ pos (count_finished pieces * piece_length)
unfolding calc_bytes_left
calc_bytes_left-count left l [] = sub_none left ∙ ap (λ n. left -ℤ pos n) (omega arith)
calc_bytes_left-count left l (true ∷ pieces) =
    calc_bytes_left-count (left -ℤ pos l) l pieces
    ∙ sub_twice left l (count_finished pieces * l)
    ∙ ap (λ n. left -ℤ pos n) (grind arith)
calc_bytes_left-count left l (false ∷ pieces) = calc_bytes_left-count left l pieces

-- When all pieces are finished, the bytes left are the length of the torrent less that of as many full pieces: below 0
-- by what the last piece is shorter.
pub calc_bytes_left_complete :
    (n total piece_length short : ℕ)
    → total + short ≡ n * piece_length
    → calc_bytes_left (pos total) piece_length (replicate n true) ≡ pos 0 -ℤ pos short
calc_bytes_left_complete n total l short e =
    calc_bytes_left-count (pos total) l (replicate n true)
    ∙ ap (λ k. pos total -ℤ pos (k * l)) (count-replicate n)
    ∙ ap (λ m. pos total -ℤ pos m) (sym e)
    ∙ omega int_laws
