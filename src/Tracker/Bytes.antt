-- ===== src/Tracker/Bytes.antt =====
-- `encoding/binary` in big endian order, as far as the trackers use it.
use tulva.Prelude.{
  ℕ, zero, suc, ◌+◌, ◌*◌, ◌/◌, ◌%◌, ◌^◌, ◌≤◌, ◌<◌, ◌≡◌, refl, ap, sym, ◌∙◌, List, [], ◌∷◌, ◌++◌,
  true, some, none, Option, if◌then◌else◌, leb, length, length-append, take, drop, arith,
}
use tulva.Prelude.Slices.{length-drop, drop-drop, take-length-append, drop-length-append}

-- An unsigned number in `w` bytes, the highest first.
unfoldable pub be : ℕ → ℕ → List ℕ
be zero n = []
be (suc w) n = be w (n / 256) ++ (n % 256 ∷ [])

-- The number that bytes stand for.
abbrev pub value_from : ℕ → List ℕ → ℕ
value_from n [] = n
value_from n (b ∷ bytes) = value_from (n * 256 + b) bytes

-- `binary.Read` of a number of `w` bytes: it and the rest, or an error when there are fewer bytes.
unfoldable pub read_number : ℕ → List ℕ → Option (ℕ × List ℕ)
read_number w bytes =
    if leb w (length bytes) then some (value_from 0 (take w bytes), drop w bytes) else none

-- A chain of reads ends at the first error.
infixl 5 ◌>>=◌
abbrev pub ◌>>=◌ {ℓ κ} : {A : Type ℓ} {B : Type κ} → Option A → (A → Option B) → Option B
none >>= f = none
some a >>= f = f a

pub length-be : (w n : ℕ) → length (be w n) ≡ w
unfolding be
length-be zero n = refl
length-be (suc w) n =
    omega (arith, length-append (be w (n / 256)) (n % 256 ∷ []), length-be w (n / 256))

value-append :
    (n : ℕ) (xs : List ℕ) (b : ℕ) → value_from n (xs ++ (b ∷ [])) ≡ value_from n xs * 256 + b
value-append n [] b = refl
value-append n (x ∷ xs) b = value-append (n * 256 + x) xs b

power : (w : ℕ) → 256 ^ suc w ≡ 256 * 256 ^ w
power w = grind arith

pub value-be : (w n : ℕ) → n < 256 ^ w → value_from 0 (be w n) ≡ n
unfolding be
value-be zero n h = omega (arith, h)
value-be (suc w) n h =
    value-append 0 (be w (n / 256)) (n % 256)
    ∙ ap (λ m. m * 256 + n % 256) (value-be w (n / 256) (omega (arith, h, power w)))
    ∙ omega arith

-- What is written in `w` bytes is read again, when it fits.
pub read_number-be :
    (w n : ℕ) (rest : List ℕ) → n < 256 ^ w → read_number w (be w n ++ rest) ≡ some (n, rest)
unfolding read_number
read_number-be w n rest h =
    let enough : leb w (length (be w n ++ rest)) ≡ true =
      ground (arith, length-append (be w n) rest, length-be w n) in
    let front : take w (be w n ++ rest) ≡ be w n =
      ap (λ k. take k (be w n ++ rest)) (sym (length-be w n)) ∙ take-length-append (be w n) rest in
    let back : drop w (be w n ++ rest) ≡ rest =
      ap (λ k. drop k (be w n ++ rest)) (sym (length-be w n)) ∙ drop-length-append (be w n) rest in
    rw (enough, front, back, value-be w n h) refl

-- A read of what is there does not fail.
pub read_number-enough :
    (w : ℕ) (bytes : List ℕ)
    → w ≤ length bytes
    → read_number w bytes ≡ some (value_from 0 (take w bytes), drop w bytes)
unfolding read_number
read_number-enough w bytes h =
    let enough : leb w (length bytes) ≡ true = ground (arith, h) in rw enough refl

-- The same from an offset on.
pub read_number_at :
    (w i : ℕ) (bytes : List ℕ)
    → i + w ≤ length bytes
    → read_number w (drop i bytes) ≡ some (value_from 0 (take w (drop i bytes)), drop (i + w) bytes)
read_number_at w i bytes h =
    read_number-enough w (drop i bytes) (omega (arith, h, length-drop i bytes))
    ∙ ap (λ rest. some (value_from 0 (take w (drop i bytes)), rest)) (drop-drop i w bytes)
