-- ===== src/Peer/Bitfield.antt =====
-- peer.go, `convertBoolSliceToByteSlice` and `convertByteSliceToBoolSlice`: a bitfield as bytes, the
-- first piece in the highest bit of the first byte, with padding at the end of the last byte.
pub mod RoundTrip
use tulva.Prelude.{
  ℕ, zero, suc, ◌+◌, ◌*◌, ◌/◌, ◌%◌, ◌^◌, ◌-◌, List, [], ◌∷◌, ◌++◌, if◌then◌else◌, ltb, leb, length,
  take, replicate, one_if, Bool, true, false, ◌==◌, nat_eq, Outcome, done, fatal, ◌>>=◌,
}

-- The inner loop: each set bit adds `orValue`, which is halved from one bit to the next. `result[i] | orValue` adds a
-- bit that is not there yet.
abbrev pub byte_of : ℕ → List Bool → ℕ
byte_of or_value [] = 0
byte_of or_value (bit ∷ bits) = or_value * one_if bit + byte_of (or_value / 2) bits

-- The byte at an index takes the next 8 bits, or as many as are left.
unfoldable pub convert_bool_slice_to_byte_slice : List Bool → List ℕ
convert_bool_slice_to_byte_slice [] = []
convert_bool_slice_to_byte_slice (a ∷ b ∷ c ∷ d ∷ e ∷ f ∷ g ∷ h ∷ rest) =
    byte_of 128 (a ∷ b ∷ c ∷ d ∷ e ∷ f ∷ g ∷ h ∷ []) ∷ convert_bool_slice_to_byte_slice rest
convert_bool_slice_to_byte_slice bits = byte_of 128 bits ∷ []

-- `(currentByte >> (7 - j)) & 1` for each `j`.
abbrev pub bits_of : ℕ → List Bool
bits_of byte =
    (byte / 128 % 2 == 1)
    ∷ (byte / 64 % 2 == 1)
    ∷ (byte / 32 % 2 == 1)
    ∷ (byte / 16 % 2 == 1)
    ∷ (byte / 8 % 2 == 1)
    ∷ (byte / 4 % 2 == 1)
    ∷ (byte / 2 % 2 == 1)
    ∷ (byte % 2 == 1)
    ∷ []

abbrev pub all_bits : List ℕ → List Bool
all_bits [] = []
all_bits (byte ∷ bytes) = bits_of byte ++ all_bits bytes

-- The bits that were read, cut or filled up with unset ones to the target size.
abbrev pub padded : ℕ → List Bool → List Bool
padded target_size bits = take target_size (bits ++ replicate target_size false)

-- More than 7 bits too many end the program.
unfoldable pub convert_byte_slice_to_bool_slice : ℕ → List ℕ → Outcome (List Bool)
convert_byte_slice_to_bool_slice target_size original =
    if ltb (target_size + 7) (length original * 8)
    then fatal
    else done (padded target_size (all_bits original))
