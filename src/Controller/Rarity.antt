-- ===== src/Controller/Rarity.antt =====
-- controller.go, `RarityMap`: pieces grouped by how many peers have them, and their order of rarity.
pub mod Shuffled
pub mod Buckets
pub mod Order
use tulva.Prelude.{
  ℕ, zero, suc, ◌+◌, ◌-◌, ◌<◌, List, [], ◌∷◌, ◌++◌, map, some, none, leb, length, get_elem?, set,
  Outcome, done, panicked, ◌>>=◌, read, nat_eq,
}
use tulva.Prelude.Dict.{lookup, insert}
use tulva.Prelude.Sort.{sort}

-- The type has one field, `data`: from a rarity to the pieces of that rarity.
pub record RarityMap : Type 0 where
  pub pieces_of : List (ℕ × List ℕ)

unfoldable pub new_rarity_map : RarityMap
new_rarity_map = record { pieces_of = [] }

-- The value that Go reads at a key: an absent key reads as the empty slice.
unfoldable pub bucket : List (ℕ × List ℕ) → ℕ → List ℕ
bucket m k = elim (lookup k m) [ none ↦ [] | some ps ↦ ps ]

-- `if _, exists := r.data[rarity]; !exists { r.data[rarity] = make([]int, 0) }`.
pub with_key : ℕ → List (ℕ × List ℕ) → List (ℕ × List ℕ)
with_key rarity m = elim (lookup rarity m) [ none ↦ insert rarity [] m | some _ ↦ m ]

unfoldable pub put : RarityMap → ℕ → ℕ → RarityMap
unfolding with_key bucket
put r rarity piece_num =
    let m = with_key rarity r.pieces_of in
    record { pieces_of = insert rarity (bucket m rarity ++ (piece_num ∷ [])) m }

-- The random numbers of one call, `math/rand`: `draw k n` is `rand.Intn(n)` as drawn while the
-- pieces of rarity `k` are shuffled. `Intn` documents a result in [0, n).
pub record Rand : Type 0 where
  pub draw : ℕ → ℕ → ℕ
  pub draw_lt : (k n : ℕ) → 0 < n → draw k n < n

-- `ints[i], ints[j] = ints[j], ints[i]`.
unfoldable pub swap : List ℕ → ℕ → ℕ → Outcome (List ℕ)
swap xs i j = do a ← read xs i; b ← read xs j; done (set (set xs i b) j a)

-- The loop from index `i` down to 1.
unfoldable pub shuffle_from : (ℕ → ℕ) → ℕ → List ℕ → Outcome (List ℕ)
unfolding swap
shuffle_from intn zero xs = done xs
shuffle_from intn (suc i) xs = do ys ← swap xs (suc i) (intn (suc i + 1)); shuffle_from intn i ys

-- On an empty slice the index starts at -1 and the loop does nothing, as it does from 0.
unfoldable pub shuffle : (ℕ → ℕ) → List ℕ → Outcome (List ℕ)
unfolding shuffle_from
shuffle intn ints = shuffle_from intn (length ints - 1) ints

-- The last loop of `getPiecesByRarity`, over the sorted keys.
unfoldable pub pieces_in_order : Rand → List (ℕ × List ℕ) → List ℕ → Outcome (List ℕ)
unfolding shuffle bucket
pieces_in_order rand m [] = done []
pieces_in_order rand m (rarity ∷ keys) = do
  piece_nums ← shuffle (rand.draw rarity) (bucket m rarity)
  rest ← pieces_in_order rand m keys
  done (piece_nums ++ rest)

abbrev pub rarities : List (ℕ × List ℕ) → List ℕ
rarities [] = []
rarities ((k, _) ∷ m) = k ∷ rarities m

unfoldable pub get_pieces_by_rarity : Rand → RarityMap → Outcome (List ℕ)
unfolding pieces_in_order sort
get_pieces_by_rarity rand r = pieces_in_order rand r.pieces_of (sort leb (rarities r.pieces_of))
