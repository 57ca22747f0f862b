-- ===== src/Controller/Rarity/Shuffled.antt =====
-- The shuffle stays in bounds and loses nothing.
use tulva.Prelude.{
  ℕ, zero, suc, ◌+◌, ◌-◌, ◌≤◌, ◌<◌, ◌≡◌, refl, List, some, ◌==◌, length, get_elem?, set, Returns,
  Returns-bind, read-lt, SameItems, sum_map-set, length-set, get_elem?-set_ne, get_elem?-set_self,
  arith, nat_eq, Bool-cases, inl, inr, ◌∙◌,
}
use tulva.Prelude.Dict.{}
use tulva.Controller.Rarity.{swap, shuffle_from, shuffle}

swapped_in :
    (xs : List ℕ) (i j : ℕ) {b : ℕ}
    → i < length xs
    → get_elem? xs j ≡ some b
    → get_elem? (set xs i b) j ≡ some b
swapped_in xs i j {b} hi gb = elim (Bool-cases (i == j)) [
  | inl same ↦ let e : i ≡ j = ground arith in rw (← e) (get_elem?-set_self xs i b hi)
  | inr other ↦ get_elem?-set_ne xs i j b (ground arith) ∙ gb
]

swap_lem :
    (xs : List ℕ) (i j : ℕ)
    → i < length xs
    → j < length xs
    → Returns (λ ys. SameItems ys xs × (length ys ≡ length xs)) (swap xs i j)
unfolding swap
swap_lem xs i j hi hj =
    let (a, ga, ra) = read-lt xs i hi in
    let (b, gb, rb) = read-lt xs j hj in
    (
      set (set xs i b) j a,
      rw (ra, rb),
      (
        λ g. omega (
          arith,
          sum_map-set g xs i b ga,
          sum_map-set g (set xs i b) j a (swapped_in xs i j hi gb),
        ),
        length-set (set xs i b) j a ∙ length-set xs i b,
      ),
    )

shuffle_from_lem :
    (intn : ℕ → ℕ) (i : ℕ) (xs : List ℕ)
    → ((n : ℕ) → 0 < n → intn n < n)
    → i ≤ length xs - 1
    → Returns (λ ys. SameItems ys xs) (shuffle_from intn i xs)
unfolding shuffle_from
shuffle_from_lem intn zero xs law h = (xs, refl, λ g. refl)
shuffle_from_lem intn (suc i) xs law h =
    Returns-bind (λ ys. SameItems ys xs × (length ys ≡ length xs)) (λ ys. SameItems ys xs)
      (swap xs (suc i) (intn (suc i + 1))) (λ ys. shuffle_from intn i ys)
      (swap_lem xs (suc i) (intn (suc i + 1)) (omega arith)
        (omega (arith, law (suc i + 1) (omega arith))))
      λ ys p.
        let (zs, e, s) = shuffle_from_lem intn i ys law (omega (arith, p.1)) in
        (zs, e, λ g. s g ∙ p.0 g)

-- The shuffle stays in bounds and keeps every item, whatever numbers it draws.
pub shuffle-SameItems :
    (intn : ℕ → ℕ) (xs : List ℕ)
    → ((n : ℕ) → 0 < n → intn n < n)
    → Returns (λ ys. SameItems ys xs) (shuffle intn xs)
unfolding shuffle
shuffle-SameItems intn xs law = shuffle_from_lem intn (length xs - 1) xs law (omega arith)
