-- ===== src/Prelude/Dict.antt =====
-- A Go map as an association list, in the order in which a `range` loop meets its entries. A key
-- stands in it once (`Distinct`).
use tulva.Prelude.Tests.{==_iff, Eq, ◌==◌, ==-refl, if◌then◌else◌, Bool-cases, Option-cases}
use tulva.Prelude.Lists.{All, All-map}
use tulva.Prelude.Sums.{sum_map}
use Prim.Native.Nat.{ℕ, ◌+◌}
use mathlib.Core.Path.{◌≡◌, refl, subst, ◌∙◌}
use mathlib.Core.Logic.{inl, inr}
use mathlib.Core.Bool.{Bool, true, false}
use mathlib.Core.Option.{Option, none, some}
use mathlib.Core.List.{List, [], ◌∷◌}
use native.Mathlib.Omega.{arith}

module _ {ℓ κ} {K : Type ℓ} ⦃e : Eq K⦄ {V : Type κ} where
  abbrev pub lookup : K → List (K × V) → Option V
  lookup k [] = none
  lookup k ((j, v) ∷ m) = if j == k then some v else lookup k m

  -- `m[k] = v`: a new key goes to the end.
  abbrev pub insert : K → V → List (K × V) → List (K × V)
  insert k v [] = (k, v) ∷ []
  insert k v ((j, w) ∷ m) = if j == k then (k, v) ∷ m else (j, w) ∷ insert k v m

  -- `delete(m, k)`.
  abbrev pub delete : K → List (K × V) → List (K × V)
  delete k [] = []
  delete k ((j, w) ∷ m) = if j == k then m else (j, w) ∷ delete k m

  abbrev pub Distinct : List (K × V) → Type κ
  Distinct [] = Unit
  Distinct ((k, v) ∷ m) = (lookup k m ≡ none) × Distinct m

  pub lookup-insert :
      (k j : K) (v : V) (m : List (K × V))
      → lookup j (insert k v m) ≡ (if k == j then some v else lookup j m)
  lookup-insert k j v [] = refl
  lookup-insert k j v ((i, w) ∷ m) =
      ground (arith, ==_iff k j, ==_iff i k, ==_iff i j, lookup-insert k j v m)

  pub lookup-delete_ne :
      (k j : K) (m : List (K × V)) → (k == j) ≡ false → lookup j (delete k m) ≡ lookup j m
  lookup-delete_ne k j [] h = refl
  lookup-delete_ne k j ((i, w) ∷ m) h =
      ground (arith, ==_iff k j, ==_iff i k, ==_iff i j, lookup-delete_ne k j m)

  pub lookup-delete_self : (k : K) (m : List (K × V)) → Distinct m → lookup k (delete k m) ≡ none
  lookup-delete_self k [] d = refl
  lookup-delete_self k ((i, w) ∷ m) d = ground (arith, ==_iff i k, lookup-delete_self k m d.1)

  pub insert-Distinct : (k : K) (v : V) (m : List (K × V)) → Distinct m → Distinct (insert k v m)
  insert-Distinct k v [] d = (refl, tt)
  insert-Distinct k v ((i, w) ∷ m) d =
      ground (arith, ==_iff i k, ==_iff k i, insert-Distinct k v m d.1, lookup-insert k i v m)

  pub delete-Distinct : (k : K) (m : List (K × V)) → Distinct m → Distinct (delete k m)
  delete-Distinct k [] d = tt
  delete-Distinct k ((i, w) ∷ m) d =
      ground (arith, ==_iff i k, ==_iff k i, delete-Distinct k m d.1, lookup-delete_ne k i m)

  pub All-lookup {ι} :
      (P : K × V → Type ι) (k : K) (m : List (K × V)) {v : V}
      → All P m
      → lookup k m ≡ some v
      → P (k, v)
  All-lookup P k [] h q = absurd (ground arith)
  All-lookup P k ((i, w) ∷ m) {v} h q = elim (Bool-cases (i == k)) [
    | inl same ↦ subst P (ground (arith, ==_iff i k)) h.0
    | inr other ↦ All-lookup P k m h.1 (ground arith)
  ]

  pub All-insert {ι} :
      (P : K × V → Type ι) (k : K) (v : V) (m : List (K × V))
      → All P m
      → P (k, v)
      → All P (insert k v m)
  All-insert P k v [] h p = (p, tt)
  All-insert P k v ((i, w) ∷ m) h p = elim (Bool-cases (i == k)) [
    | inl same ↦ rw same (p, h.1)
    | inr other ↦ rw other (h.0, All-insert P k v m h.1 p)
  ]

  pub All-delete {ι} :
      (P : K × V → Type ι) (k : K) (m : List (K × V)) → All P m → All P (delete k m)
  All-delete P k [] h = tt
  All-delete P k ((i, w) ∷ m) h = elim (Bool-cases (i == k)) [
    | inl same ↦ rw same h.1
    | inr other ↦ rw other (h.0, All-delete P k m h.1)
  ]

  -- Replacing the value of a key moves every sum by the difference of the two values.
  pub sum_map-insert :
      (g : K × V → ℕ) (k : K) (v : V) (m : List (K × V)) {w : V}
      → lookup k m ≡ some w
      → sum_map g (insert k v m) + g (k, w) ≡ sum_map g m + g (k, v)
  sum_map-insert g k v [] q = absurd (ground arith)
  sum_map-insert g k v ((i, u) ∷ m) {w} q = elim (Bool-cases (i == k)) [
    | inl same ↦ ground (arith, ==_iff i k)
    | inr other ↦ ground (arith, sum_map-insert g k v m {w = w})
  ]

  pub sum_map-insert_new :
      (g : K × V → ℕ) (k : K) (v : V) (m : List (K × V))
      → lookup k m ≡ none
      → sum_map g (insert k v m) ≡ sum_map g m + g (k, v)
  sum_map-insert_new g k v [] q = omega arith
  sum_map-insert_new g k v ((i, u) ∷ m) q = ground (arith, sum_map-insert_new g k v m)

  pub sum_map-delete :
      (g : K × V → ℕ) (k : K) (m : List (K × V)) {w : V}
      → lookup k m ≡ some w
      → sum_map g (delete k m) + g (k, w) ≡ sum_map g m
  sum_map-delete g k [] q = absurd (ground arith)
  sum_map-delete g k ((i, u) ∷ m) {w} q = elim (Bool-cases (i == k)) [
    | inl same ↦ ground (arith, ==_iff i k)
    | inr other ↦ ground (arith, sum_map-delete g k m {w = w})
  ]

module _ {ℓ κ} {K : Type ℓ} ⦃e : Eq K⦄ {V : Type κ} (f : V → V) where
  -- Every value is changed, and every key kept.
  abbrev pub map_values : List (K × V) → List (K × V)
  map_values [] = []
  map_values ((k, v) ∷ m) = (k, f v) ∷ map_values m

  pub lookup-map_values-none :
      (k : K) (m : List (K × V)) → lookup k m ≡ none → lookup k (map_values m) ≡ none
  lookup-map_values-none k [] h = refl
  lookup-map_values-none k ((i, w) ∷ m) h = ground (arith, lookup-map_values-none k m)

  pub lookup-map_values-some :
      (k : K) (m : List (K × V)) {v : V}
      → lookup k m ≡ some v
      → lookup k (map_values m) ≡ some (f v)
  lookup-map_values-some k [] h = ground arith
  lookup-map_values-some k ((i, w) ∷ m) {v} h = ground (arith, lookup-map_values-some k m {v = v})

  pub map_values-Distinct : (m : List (K × V)) → Distinct m → Distinct (map_values m)
  map_values-Distinct [] d = tt
  map_values-Distinct ((i, w) ∷ m) d = (lookup-map_values-none i m d.0, map_values-Distinct m d.1)

  pub All-map_values {ι} :
      (P : K × V → Type ι) (m : List (K × V))
      → ((k : K) (v : V) → P (k, v) → P (k, f v))
      → All P m
      → All P (map_values m)
  All-map_values P [] t h = tt
  All-map_values P ((i, w) ∷ m) t h = (t i w h.0, All-map_values P m t h.1)

module _ {ℓ κ} {K : Type ℓ} ⦃e : Eq K⦄ {V : Type κ} where
  -- The key is not in the map.
  abbrev pub is_absent : List (K × V) → K → Bool
  is_absent m k = elim (lookup k m) [ none ↦ true | some _ ↦ false ]

  pub present : (m : List (K × V)) (k : K) → is_absent m k ≡ false → (v : V) × (lookup k m ≡ some v)
  present m k h = elim (Option-cases (lookup k m)) [
    | inl q ↦ absurd (ground arith)
    | inr found ↦ found
  ]

  pub is_absent_found :
      (m : List (K × V)) (k : K) {v : V} → lookup k m ≡ some v → is_absent m k ≡ false
  is_absent_found m k h = ground arith

  -- An insertion makes no key absent.
  pub is_absent-insert :
      (m : List (K × V)) (k j : K) (v : V)
      → is_absent m j ≡ false
      → is_absent (insert k v m) j ≡ false
  is_absent-insert m k j v h = ground (arith, lookup-insert k j v m)

  pub keys-present : (m : List (K × V)) → All (λ entry. is_absent m entry.0 ≡ false) m
  keys-present [] = tt
  keys-present ((i, w) ∷ m) = (
    ground (arith, ==-refl i),
    All-map (λ entry. is_absent m entry.0 ≡ false) (λ entry. is_absent ((i, w) ∷ m) entry.0 ≡ false)
        (λ entry h. ground arith) m (keys-present m),
  )

  -- The later of two writes at one key stays.
  pub insert-insert :
      (k : K) (v w : V) (m : List (K × V)) → insert k w (insert k v m) ≡ insert k w m
  insert-insert k v w [] = ground (arith, ==-refl k)
  insert-insert k v w ((i, u) ∷ m) = ground (arith, ==-refl k, insert-insert k v w m)

  pub lookup-insert_self : (k : K) (v : V) (m : List (K × V)) → lookup k (insert k v m) ≡ some v
  lookup-insert_self k v m = lookup-insert k k v m ∙ rw (==-refl k)
