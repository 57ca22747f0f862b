-- ===== src/Torrent.antt =====
-- torrent.go: what a torrent file says, and what the session is started with.
pub mod Hashes
pub mod BytesLeft
mod Tests
use tulva.Prelude.{
  ℕ, zero, suc, ◌+◌, ◌-◌, List, [], ◌∷◌, ◌++◌, Bool, true, false, if◌then◌else◌, leb, String,
  length, take, drop,
}
use tulva.Prelude.Int.{ℤ, pos, ◌-ℤ◌}

-- One of the files of a torrent in multiple file mode; its checksum is never read.
pub record FileEntry : Type 0 where
  pub length : ℕ
  pub path : List String

-- The info dictionary. `pieces` is the text of all hashes, 20 bytes each; `files` is empty in single file
-- mode.
pub record Info : Type 0 where
  pub piece_length : ℕ
  pub pieces : List ℕ
  pub name : String
  pub length : ℕ
  pub files : List FileEntry

-- The sum of the lengths of the files.
abbrev pub total_length : List FileEntry → ℕ
total_length [] = 0
total_length (f ∷ fs) = f.length + total_length fs

-- `Init`: in multiple file mode the length is that of all files.
unfoldable pub init : Info → Info
init info = elim info.files [ [] ↦ info | f ∷ fs ↦ record info { length = total_length (f ∷ fs) } ]

-- `calcBytesLeft`: each finished piece counts as a full one.
unfoldable pub calc_bytes_left : ℤ → ℕ → List Bool → ℤ
calc_bytes_left bytes_left piece_length [] = bytes_left
calc_bytes_left bytes_left piece_length (piece ∷ pieces) =
    calc_bytes_left (if piece then bytes_left -ℤ pos piece_length else bytes_left) piece_length
      pieces

-- The loop of `Run`, from an offset on: as long as 20 bytes are left they are the next hash. A round takes 20 bytes, so
-- the length of the text is rounds enough.
unfoldable pub piece_hashes_from : ℕ → ℕ → List ℕ → List (List ℕ)
piece_hashes_from zero offset pieces = []
piece_hashes_from (suc fuel) offset pieces =
    let rest = piece_hashes_from fuel (offset + 20) pieces in
    if leb (offset + 20) (length pieces) then take 20 (drop offset pieces) ∷ rest else []

abbrev pub piece_hashes : Info → List (List ℕ)
piece_hashes info = piece_hashes_from (suc (length info.pieces)) 0 info.pieces
