-- ===== src/Prelude/Sort.antt =====
-- Sorting by a `Less` function, as `sort.Sort` does, by insertion. `Less` is total and transitive
-- where it is used; where it also tells any two items apart, the order of the result is the only one.
use tulva.Prelude.Tests.{if◌then◌else◌, Bool-cases}
use tulva.Prelude.Lists.{All, All-map}
use tulva.Prelude.Sums.{sum_map, SameItems}
use Prim.Native.Nat.{ℕ, ◌+◌}
use mathlib.Core.Path.{◌≡◌, refl}
use mathlib.Core.Logic.{inl, inr}
use mathlib.Core.Bool.{Bool, true, false}
use mathlib.Core.List.{List, [], ◌∷◌}
use native.Mathlib.Omega.{arith}

-- A `Less` that two items always satisfy one way round at least.
pub record IsOrder {ℓ} {A : Type ℓ} (less : A → A → Bool) : Type ℓ where
  pub total : (a b : A) → less a b ≡ false → less b a ≡ true
  pub trans : (a b c : A) → less a b ≡ true → less b c ≡ true → less a c ≡ true

module _ {ℓ} {A : Type ℓ} (less : A → A → Bool) where
  pub insert_sorted : A → List A → List A
  insert_sorted x [] = x ∷ []
  insert_sorted x (y ∷ ys) = if less x y then x ∷ y ∷ ys else y ∷ insert_sorted x ys

  unfoldable pub sort : List A → List A
  unfolding insert_sorted
  sort [] = []
  sort (x ∷ xs) = insert_sorted x (sort xs)

  abbrev pub IsSorted : List A → Type ℓ
  IsSorted [] = Unit
  IsSorted (x ∷ xs) = All (λ y. less x y ≡ true) xs × IsSorted xs

  sum_map-insert_sorted :
      (g : A → ℕ) (x : A) (xs : List A) → sum_map g (insert_sorted x xs) ≡ g x + sum_map g xs
  unfolding insert_sorted
  sum_map-insert_sorted g x [] = refl
  sum_map-insert_sorted g x (y ∷ ys) = ground (arith, sum_map-insert_sorted g x ys)

  pub sort-SameItems : (xs : List A) → SameItems (sort xs) xs
  unfolding sort
  sort-SameItems [] g = refl
  sort-SameItems (x ∷ xs) g =
      omega (arith, sum_map-insert_sorted g x (sort xs), sort-SameItems xs g)

  All-insert_sorted {κ} :
      (P : A → Type κ) (x : A) (xs : List A) → P x → All P xs → All P (insert_sorted x xs)
  unfolding insert_sorted
  All-insert_sorted P x [] p h = (p, tt)
  All-insert_sorted P x (y ∷ ys) p h = elim (Bool-cases (less x y)) [
    | inl e ↦ rw e (p, h)
    | inr e ↦ rw e (h.0, All-insert_sorted P x ys p h.1)
  ]

  pub All-sort {κ} : (P : A → Type κ) (xs : List A) → All P xs → All P (sort xs)
  unfolding sort
  All-sort P [] h = tt
  All-sort P (x ∷ xs) h = All-insert_sorted P x (sort xs) h.0 (All-sort P xs h.1)

  module _ (o : IsOrder less) where
    insert_sorted-IsSorted : (x : A) (xs : List A) → IsSorted xs → IsSorted (insert_sorted x xs)
    unfolding insert_sorted
    insert_sorted-IsSorted x [] h = (tt, tt)
    insert_sorted-IsSorted x (y ∷ ys) h = elim (Bool-cases (less x y)) [
      | inl e ↦ rw e (
        (e, All-map (λ z. less y z ≡ true) (λ z. less x z ≡ true) (λ z. o.trans x y z e) ys h.0),
        h,
      )
      | inr e ↦ rw e (
        All-insert_sorted (λ z. less y z ≡ true) x ys (o.total x y e) h.0,
        insert_sorted-IsSorted x ys h.1,
      )
    ]

    pub sort-IsSorted : (xs : List A) → IsSorted (sort xs)
    unfolding sort
    sort-IsSorted [] = tt
    sort-IsSorted (x ∷ xs) = insert_sorted-IsSorted x (sort xs) (sort-IsSorted xs)
