-- ===== src/Prelude/Outcomes.antt =====
-- What a piece of the program comes to: a value, or one of the ways in which it ends.
use Prim.Native.Nat.{ℕ, ◌<◌}
use mathlib.Core.Path.{◌≡◌, refl, ap}
use mathlib.Core.Logic.{◌≢◌, ◌⊎◌, inl, inr}
use native.Mathlib.Omega.{arith}
use mathlib.Core.Option.{none, some}
use mathlib.Core.List.{List}
use tulva.Prelude.Lists.{length, get_elem?, get_elem?-lt, set}

-- `stopped`: the goroutine returned. `fatal`: `log.Fatal`, the process exits. `panicked`: a run-time
-- panic (an index out of range, a nil pointer), which ends the process too. `out_of_fuel` is no outcome of
-- the program: a loop of the model was given too few rounds.
pub data Outcome {ℓ} (A : Type ℓ) : Type ℓ where
  done : A → Outcome A
  stopped : Outcome A
  fatal : Outcome A
  panicked : Outcome A
  out_of_fuel : Outcome A

infixl 5 ◌>>=◌
abbrev pub ◌>>=◌ {ℓ κ} : {A : Type ℓ} {B : Type κ} → Outcome A → (A → Outcome B) → Outcome B
done a >>= f = f a
stopped >>= f = stopped
fatal >>= f = fatal
panicked >>= f = panicked
out_of_fuel >>= f = out_of_fuel

-- The outcome is a value that has the property.
abbrev pub Returns {ℓ κ} : {A : Type ℓ} → (A → Type κ) → Outcome A → Type (ℓ ⊔ κ)
Returns {A = A} P m = (a : A) × (m ≡ done a) × P a

or_else {ℓ} : {A : Type ℓ} → A → Outcome A → A
or_else a (done b) = b
or_else a stopped = a
or_else a fatal = a
or_else a panicked = a
or_else a out_of_fuel = a

pub done-injective {ℓ} : {A : Type ℓ} {a b : A} → done a ≡ done b → a ≡ b
unfolding or_else
done-injective {a = a} e = ap (or_else a) e

-- `xs[i]` as a value.
abbrev pub read {ℓ} : {A : Type ℓ} → List A → ℕ → Outcome A
read xs i = elim (get_elem? xs i) [ none ↦ panicked | some a ↦ done a ]

-- `xs[i] = v`.
abbrev pub write {ℓ} : {A : Type ℓ} → List A → ℕ → A → Outcome (List A)
write xs i v = elim (get_elem? xs i) [ none ↦ panicked | some _ ↦ done (set xs i v) ]

-- `xs[i] = f(xs[i])`, as in `xs[i]++`.
abbrev pub modify {ℓ} : {A : Type ℓ} → List A → ℕ → (A → A) → Outcome (List A)
modify xs i f = elim (get_elem? xs i) [ none ↦ panicked | some a ↦ done (set xs i (f a)) ]

module _ {ℓ κ ι} {A : Type ℓ} {B : Type κ} where
  pub Returns-bind :
      (P : A → Type ι) (Q : B → Type ι) (m : Outcome A) (f : A → Outcome B)
      → Returns P m
      → ((a : A) → P a → Returns Q (f a))
      → Returns Q (m >>= f)
  Returns-bind P Q m f (a, e, p) k = let (b, e', q) = k a p in (b, rw e e', q)

module _ {ℓ} {A : Type ℓ} where
  pub read-lt :
      (xs : List A) (i : ℕ)
      → i < length xs
      → (a : A) × (get_elem? xs i ≡ some a) × (read xs i ≡ done a)
  read-lt xs i h = let (a, e) = get_elem?-lt xs i h in (a, e, rw (e, read))

module _ {ℓ κ} {A : Type ℓ} {B : Type κ} where
  -- An outcome is a value, or what goes on with the value does not come to be.
  pub Outcome-cases :
      (m : Outcome A) (f : A → Outcome B)
      → ((a : A) × (m ≡ done a)) ⊎ ((b : B) → (m >>= f) ≢ done b)
  Outcome-cases (done a) f = inl (a, refl)
  Outcome-cases stopped f = inr (λ b e. absurd (ground arith))
  Outcome-cases fatal f = inr (λ b e. absurd (ground arith))
  Outcome-cases panicked f = inr (λ b e. absurd (ground arith))
  Outcome-cases out_of_fuel f = inr (λ b e. absurd (ground arith))
