-- ===== src/Prelude/Sums.antt =====
-- Sums over a list. Two lists hold the same items, as often, when every weight sums to the same
-- over both.
use Prim.Native.Nat.{ℕ, zero, suc, ◌+◌, ◌≤◌}
use mathlib.Core.Path.{◌≡◌, refl}
use mathlib.Core.Bool.{Bool, true, false}
use mathlib.Core.List.{List, [], ◌∷◌, ◌++◌, map}
use mathlib.Core.Option.{some}
use native.Mathlib.Omega.{arith}
use tulva.Prelude.Tests.{◌==◌, nat_eq}
use tulva.Prelude.Lists.{length, get_elem?, set, filterb, contains, All}

abbrev pub one_if : Bool → ℕ
one_if true = 1
one_if false = 0

module _ {ℓ} {A : Type ℓ} where
  abbrev pub sum_map : (A → ℕ) → List A → ℕ
  sum_map g [] = 0
  sum_map g (x ∷ xs) = g x + sum_map g xs

  abbrev pub SameItems : List A → List A → Type ℓ
  SameItems xs ys = (g : A → ℕ) → sum_map g xs ≡ sum_map g ys

  pub sum_map-append :
      (g : A → ℕ) (xs ys : List A) → sum_map g (xs ++ ys) ≡ sum_map g xs + sum_map g ys
  sum_map-append g [] ys = omega arith
  sum_map-append g (x ∷ xs) ys = omega (arith, sum_map-append g xs ys)

  pub sum_map-set :
      (g : A → ℕ) (xs : List A) (i : ℕ) (v : A) {a : A}
      → get_elem? xs i ≡ some a
      → sum_map g (set xs i v) + g a ≡ sum_map g xs + g v
  sum_map-set g [] i v e = absurd (ground arith)
  sum_map-set g (x ∷ xs) zero v e = ground arith
  sum_map-set g (x ∷ xs) (suc i) v e = omega (arith, sum_map-set g xs i v e)

module _ {ℓ κ} {A : Type ℓ} {B : Type κ} where
  pub sum_map-map :
      (f : B → A) (g : A → ℕ) (xs : List B) → sum_map g (map f xs) ≡ sum_map (λ b. g (f b)) xs
  sum_map-map f g [] = refl
  sum_map-map f g (x ∷ xs) = omega (arith, sum_map-map f g xs)

module _ {ℓ} {A : Type ℓ} (p : A → Bool) where
  -- Nothing passes the test exactly when the passes sum to 0.
  All-of_sum : (xs : List A) → sum_map (λ x. one_if (p x)) xs ≡ 0 → All (λ x. p x ≡ false) xs
  All-of_sum [] h = tt
  All-of_sum (x ∷ xs) h = (ground arith, All-of_sum xs (omega arith))

  sum_of_All : (xs : List A) → All (λ x. p x ≡ false) xs → sum_map (λ x. one_if (p x)) xs ≡ 0
  sum_of_All [] h = refl
  sum_of_All (x ∷ xs) h = ground (arith, sum_of_All xs h.1)

  pub All-SameItems :
      (xs ys : List A) → SameItems xs ys → All (λ x. p x ≡ false) ys → All (λ x. p x ≡ false) xs
  All-SameItems xs ys s h = All-of_sum xs (omega (arith, s (λ x. one_if (p x)), sum_of_All ys h))

-- How often a number stands in a list.
abbrev pub count : ℕ → List ℕ → ℕ
count k xs = sum_map (λ x. one_if (k == x)) xs

-- No number stands in the list twice.
abbrev pub IsSimple : List ℕ → Type 0
IsSimple xs = (k : ℕ) → count k xs ≤ 1

pub contains-count : (k : ℕ) (xs : List ℕ) → contains xs k ≡ true → 1 ≤ count k xs
contains-count k [] h = cc
contains-count k (x ∷ xs) h = ground (arith, contains-count k xs)

pub not-contains-count : (k : ℕ) (xs : List ℕ) → contains xs k ≡ false → count k xs ≡ 0
not-contains-count k [] h = refl
not-contains-count k (x ∷ xs) h = ground (arith, not-contains-count k xs)

pub count-filterb : (k : ℕ) (p : ℕ → Bool) (xs : List ℕ) → count k (filterb p xs) ≤ count k xs
count-filterb k p [] = omega arith
count-filterb k p (x ∷ xs) = ground (arith, count-filterb k p xs)

pub count-le-length : (k : ℕ) (xs : List ℕ) → count k xs ≤ length xs
count-le-length k [] = omega arith
count-le-length k (x ∷ xs) = ground (arith, count-le-length k xs)
