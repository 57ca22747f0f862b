-- ===== src/Torrent/Hashes.antt =====
-- The slice of piece hashes that `Run` makes.
use tulva.Prelude.{
  ℕ, zero, suc, ◌+◌, ◌-◌, ◌*◌, ◌/◌, ◌≤◌, ◌<◌, ◌≡◌, ap, ◌∙◌, List, ◌∷◌, some, leb, length, get_elem?,
  take, drop, arith, Bool-cases, inl, inr,
}
use tulva.Torrent.{Info, piece_hashes_from, piece_hashes}

-- The hashes from an offset on.
Cut : ℕ → List ℕ → List (List ℕ) → Type 0
Cut offset pieces hashes =
    (length hashes ≡ (length pieces - offset) / 20)
    × ((i : ℕ)
        → i < (length pieces - offset) / 20
        → get_elem? hashes i ≡ some (take 20 (drop (offset + i * 20) pieces)))

next_hash :
    (offset : ℕ) (pieces : List ℕ) (rest : List (List ℕ))
    → ((i : ℕ)
        → i < (length pieces - (offset + 20)) / 20
        → get_elem? rest i ≡ some (take 20 (drop (offset + 20 + i * 20) pieces)))
    → (i : ℕ) → i < (length pieces - offset) / 20
    → get_elem? (take 20 (drop offset pieces) ∷ rest) i
      ≡ some (take 20 (drop (offset + i * 20) pieces))
next_hash offset pieces rest h zero lt = ap (λ k. some (take 20 (drop k pieces))) (omega arith)
next_hash offset pieces rest h (suc i) lt =
    h i (omega (arith, lt)) ∙ ap (λ k. some (take 20 (drop k pieces))) (omega arith)

piece_hashes_from-Cut :
    (fuel offset : ℕ) (pieces : List ℕ)
    → length pieces - offset < fuel
    → Cut offset pieces (piece_hashes_from fuel offset pieces)
unfolding piece_hashes_from Cut
piece_hashes_from-Cut zero offset pieces h = absurd (omega (arith, h))
piece_hashes_from-Cut (suc fuel) offset pieces h =
    elim (Bool-cases (leb (offset + 20) (length pieces))) [
      | inl more ↦
          let within : offset + 20 ≤ length pieces = ground arith in
          let (l, rest) = piece_hashes_from-Cut fuel (offset + 20) pieces (omega (arith, h)) in
          rw more (omega (arith, l, within), next_hash offset pieces _ rest)
      | inr over ↦
          let short : length pieces < offset + 20 = ground arith in
          rw over (omega arith, λ i lt. absurd (omega (arith, lt)))
    ]

-- `Run` makes one hash for every 20 bytes of the text of hashes, and the hash at an index is the 20 bytes at 20 times
-- the index; bytes behind the last full hash are left out.
pub piece_hashes_lem :
    (info : Info)
    → (length (piece_hashes info) ≡ length info.pieces / 20)
      × ((i : ℕ)
          → i < length info.pieces / 20
          → get_elem? (piece_hashes info) i ≡ some (take 20 (drop (i * 20) info.pieces)))
unfolding Cut
piece_hashes_lem info =
    let (l, at) = piece_hashes_from-Cut (suc (length info.pieces)) 0 info.pieces (omega arith) in
    (
      omega (arith, l),
      λ i lt.
          at i (omega (arith, lt)) ∙ ap (λ k. some (take 20 (drop k info.pieces))) (omega arith),
    )
