-- ===== src/DiskIo/Write.antt =====
-- `writePiece`: the bytes of a piece go to the file, or are cut up over the files.
pub mod Volume
pub mod Order
use tulva.Prelude.{
  ℕ, zero, suc, ◌+◌, ◌-◌, ◌*◌, List, [], ◌∷◌, Bool, true, false, if◌then◌else◌, ltb, ◌==◌, nat_eq,
  length, set, take, drop, Outcome, done, panicked, ◌>>=◌, read, write,
}
use tulva.Pieces.{Piece}
use tulva.Torrent.{Info, FileEntry}
use tulva.DiskIo.Files.{write_at}

-- `maxWriteCurrentFile`: what fits into the file from the offset on.
abbrev pub max_write : ℕ → ℕ → ℕ → ℕ
max_write len offset file_length =
    if ltb len (file_length - offset) then len else file_length - offset

-- The loop over `Files`, with `diskio.files` beside it. Bytes past the last file are dropped.
unfoldable pub write_files : ℕ → List ℕ → List FileEntry → List (List ℕ) → Outcome (List (List ℕ))
unfolding write_at
write_files offset bytes [] files = done files
write_files offset bytes (entry ∷ entries) [] =
    if ltb entry.length offset
    then write_files (offset - entry.length) bytes entries []
    else panicked
write_files offset bytes (entry ∷ entries) (file ∷ files) =
    let later : Outcome (List (List ℕ)) =
      (write_files (offset - entry.length) bytes entries files >>= λ rest. done (file ∷ rest)) in
    let n = max_write (length bytes) offset entry.length in
    let written = write_at offset (take n bytes) file in
    let next : Outcome (List (List ℕ)) =
      (write_files 0 (drop n bytes) entries files >>= λ rest. done (written ∷ rest)) in
    if ltb entry.length offset
    then later
    else if length (drop n bytes) == 0
    then done (written ∷ files)
    else next

-- Without `Files` there is one file.
unfoldable pub write_bytes : List FileEntry → ℕ → List ℕ → List (List ℕ) → Outcome (List (List ℕ))
unfolding write_files
write_bytes [] offset bytes files = do
  file ← read files 0
  write files 0 (write_at offset bytes file)
write_bytes (entry ∷ entries) offset bytes files = write_files offset bytes (entry ∷ entries) files

unfoldable pub write_piece : Info → List (List ℕ) → Piece → Outcome (List (List ℕ))
unfolding write_bytes
write_piece info files piece =
    write_bytes info.files (piece.index * info.piece_length) piece.bytes files
