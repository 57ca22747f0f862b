-- ===== src/DiskIo/Files.antt =====
-- `os.File`: `WriteAt` and `ReadAt`, as far as diskio.go uses them.
use tulva.Prelude.{
  ℕ, zero, suc, ◌+◌, ◌-◌, ◌≡◌, List, [], ◌∷◌, Bool, ◌&&◌, if◌then◌else◌, ltb, leb, length, get_or,
  take, drop, arith,
}
use tulva.Prelude.Slices.{get_or_past}

-- The bytes go to the place; a gap between the end of the file and the place is filled with zeros. With no byte
-- to write, nothing happens.
unfoldable pub write_at : ℕ → List ℕ → List ℕ → List ℕ
write_at offset [] file = file
write_at zero (b ∷ bytes) [] = b ∷ bytes
write_at zero (b ∷ bytes) (x ∷ file) = b ∷ write_at zero bytes file
write_at (suc offset) (b ∷ bytes) [] = 0 ∷ write_at offset (b ∷ bytes) []
write_at (suc offset) (b ∷ bytes) (x ∷ file) = x ∷ write_at offset (b ∷ bytes) file

-- The bytes from the place on, `n` of them if there are as many.
abbrev pub read_at : ℕ → ℕ → List ℕ → List ℕ
read_at offset n file = take n (drop offset file)

-- The bytes from `offset` on, `n` of them, are replaced.
abbrev pub inside : ℕ → ℕ → ℕ → Bool
inside offset n k = leb offset k && ltb k (offset + n)

pub get_or-write_at :
    (offset : ℕ) (bytes file : List ℕ) (k : ℕ)
    → get_or (write_at offset bytes file) k 0
      ≡ (if inside offset (length bytes) k then get_or bytes (k - offset) 0 else get_or file k 0)
unfolding write_at
get_or-write_at offset [] file k = ground arith
get_or-write_at zero (b ∷ bytes) [] k =
    let same : k - 0 ≡ k = omega arith in rw same (ground (arith, get_or_past (b ∷ bytes) k 0))
get_or-write_at zero (b ∷ bytes) (x ∷ file) zero = ground arith
get_or-write_at zero (b ∷ bytes) (x ∷ file) (suc k) =
    ground (arith, get_or-write_at zero bytes file k)
get_or-write_at (suc offset) (b ∷ bytes) [] zero = ground arith
get_or-write_at (suc offset) (b ∷ bytes) [] (suc k) =
    ground (arith, get_or-write_at offset (b ∷ bytes) [] k)
get_or-write_at (suc offset) (b ∷ bytes) (x ∷ file) zero = ground arith
get_or-write_at (suc offset) (b ∷ bytes) (x ∷ file) (suc k) =
    ground (arith, get_or-write_at offset (b ∷ bytes) file k)

-- The file grows to the end of what is written, and never shrinks.
pub length-write_at :
    (offset : ℕ) (bytes file : List ℕ)
    → length (write_at offset bytes file) ≡ (
        if ltb (length file) (if ltb 0 (length bytes) then offset + length bytes else 0)
        then offset + length bytes
        else length file)
unfolding write_at
length-write_at offset [] file = ground arith
length-write_at zero (b ∷ bytes) [] = ground arith
length-write_at zero (b ∷ bytes) (x ∷ file) = ground (arith, length-write_at zero bytes file)
length-write_at (suc offset) (b ∷ bytes) [] = ground (arith, length-write_at offset (b ∷ bytes) [])
length-write_at (suc offset) (b ∷ bytes) (x ∷ file) =
    ground (arith, length-write_at offset (b ∷ bytes) file)
