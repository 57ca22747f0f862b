-- ===== src/Peer/Bitfield/RoundTrip.antt =====
-- A bitfield that a peer sends is the bitfield that the other peer reads.
use tulva.Prelude.{
  ℕ, zero, suc, ◌+◌, ◌*◌, ◌≤◌, ◌≡◌, refl, ap, sym, ◌∙◌, List, [], ◌∷◌, ◌++◌, ltb, length, take,
  replicate, one_if, Bool, true, false, ◌==◌, nat_eq, done, arith, length-append,
}
use mathlib.Core.List.{append_assoc}
use tulva.Peer.Bitfield.{
  byte_of, convert_bool_slice_to_byte_slice, bits_of, all_bits, convert_byte_slice_to_bool_slice,
}

-- Cutting a list to its length drops what was put behind it.
take-append : (xs ys : List Bool) → take (length xs) (xs ++ ys) ≡ xs
take-append [] ys = refl
take-append (x ∷ xs) ys = ap (λ zs. x ∷ zs) (take-append xs ys)

-- The test of a bit.
bit_lem : (n : ℕ) (bit : Bool) → n ≡ one_if bit → (n == 1) ≡ bit
bit_lem n true e = ground (arith, e)
bit_lem n false e = ground (arith, e)

one_if≤1 : (bit : Bool) → one_if bit ≤ 1
one_if≤1 true = omega arith
one_if≤1 false = omega arith

list_lem :
    {a b c d e f g h a' b' c' d' e' f' g' h' : Bool}
    → a' ≡ a
    → b' ≡ b
    → c' ≡ c
    → d' ≡ d
    → e' ≡ e
    → f' ≡ f
    → g' ≡ g
    → h' ≡ h
    → (a' ∷ b' ∷ c' ∷ d' ∷ e' ∷ f' ∷ g' ∷ h' ∷ []) ≡ (a ∷ b ∷ c ∷ d ∷ e ∷ f ∷ g ∷ h ∷ [])
list_lem p q r s t u v w = rw (p, q, r, s, t, u, v, w) refl

-- The bits of the byte that eight bits are put into.
bits_of-byte_of :
    (a b c d e f g h : Bool)
    → bits_of (byte_of 128 (a ∷ b ∷ c ∷ d ∷ e ∷ f ∷ g ∷ h ∷ []))
      ≡ (a ∷ b ∷ c ∷ d ∷ e ∷ f ∷ g ∷ h ∷ [])
bits_of-byte_of a b c d e f g h =
    list_lem (bit_lem _ a (omega (arith, one_if≤1))) (bit_lem _ b (omega (arith, one_if≤1)))
      (bit_lem _ c (omega (arith, one_if≤1))) (bit_lem _ d (omega (arith, one_if≤1)))
      (bit_lem _ e (omega (arith, one_if≤1))) (bit_lem _ f (omega (arith, one_if≤1)))
      (bit_lem _ g (omega (arith, one_if≤1))) (bit_lem _ h (omega (arith, one_if≤1)))

-- What the bytes hold is the bits and a padding of 7 unset bits at most.
abbrev Padded : List Bool → List Bool → Type 0
Padded bits more = (k : ℕ) × (k ≤ 7) × (more ≡ bits ++ replicate k false)

Padded-byte :
    (a b c d e f g h : Bool) (rest : List Bool) (bytes : List ℕ)
    → Padded rest (all_bits bytes)
    → Padded
        (a ∷ b ∷ c ∷ d ∷ e ∷ f ∷ g ∷ h ∷ rest)
        (all_bits (byte_of 128 (a ∷ b ∷ c ∷ d ∷ e ∷ f ∷ g ∷ h ∷ []) ∷ bytes))
Padded-byte a b c d e f g h rest bytes (k, l, q) = (
  k,
  l,
  ap (λ xs. xs ++ all_bits bytes) (bits_of-byte_of a b c d e f g h)
      ∙ ap (λ xs. a ∷ b ∷ c ∷ d ∷ e ∷ f ∷ g ∷ h ∷ xs) q,
)

all_bits-convert :
    (bits : List Bool) → Padded bits (all_bits (convert_bool_slice_to_byte_slice bits))
unfolding convert_bool_slice_to_byte_slice
all_bits-convert [] = (0, omega arith, refl)
all_bits-convert (a ∷ []) =
    (7, omega arith, bits_of-byte_of a false false false false false false false)
all_bits-convert (a ∷ b ∷ []) =
    (6, omega arith, bits_of-byte_of a b false false false false false false)
all_bits-convert (a ∷ b ∷ c ∷ []) =
    (5, omega arith, bits_of-byte_of a b c false false false false false)
all_bits-convert (a ∷ b ∷ c ∷ d ∷ []) =
    (4, omega arith, bits_of-byte_of a b c d false false false false)
all_bits-convert (a ∷ b ∷ c ∷ d ∷ e ∷ []) =
    (3, omega arith, bits_of-byte_of a b c d e false false false)
all_bits-convert (a ∷ b ∷ c ∷ d ∷ e ∷ f ∷ []) =
    (2, omega arith, bits_of-byte_of a b c d e f false false)
all_bits-convert (a ∷ b ∷ c ∷ d ∷ e ∷ f ∷ g ∷ []) =
    (1, omega arith, bits_of-byte_of a b c d e f g false)
all_bits-convert (a ∷ b ∷ c ∷ d ∷ e ∷ f ∷ g ∷ h ∷ rest) =
    Padded-byte a b c d e f g h rest _ (all_bits-convert rest)

length-all_bits : (bytes : List ℕ) → length (all_bits bytes) ≡ length bytes * 8
length-all_bits [] = refl
length-all_bits (byte ∷ bytes) = omega (arith, length-all_bits bytes)

length-replicate : (k : ℕ) → length (replicate k false) ≡ k
length-replicate zero = refl
length-replicate (suc k) = ap (λ n. suc n) (length-replicate k)

-- A bitfield of any size that is converted to bytes and back, at that size, is the same, and the program
-- does not end with `log.Fatalf`.
pub convert_byte_slice_to_bool_slice-convert_bool_slice_to_byte_slice :
    (bits : List Bool)
    → convert_byte_slice_to_bool_slice (length bits) (convert_bool_slice_to_byte_slice bits)
      ≡ done bits
unfolding convert_byte_slice_to_bool_slice
convert_byte_slice_to_bool_slice-convert_bool_slice_to_byte_slice bits =
    let (k, l, q) = all_bits-convert bits in
    let bytes : List ℕ = convert_bool_slice_to_byte_slice bits in
    let size : length bytes * 8 ≡ length bits + k =
      sym (length-all_bits bytes)
      ∙ ap length q
      ∙ length-append bits (replicate k false)
      ∙ ap (λ n. length bits + n) (length-replicate k) in
    let fits : ltb (length bits + 7) (length bytes * 8) ≡ false = ground (arith, size, l) in
    rw
      (
        fits,
        q,
        append_assoc bits (replicate k false) (replicate (length bits) false),
        take-append bits (replicate k false ++ replicate (length bits) false),
      )
      refl
