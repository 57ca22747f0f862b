-- ===== src/DiskIo/Read.antt =====
-- `requestBlock`: a block that a peer asks for is read from the file that it lies in.
pub mod Blocks
pub mod Places
use tulva.Prelude.{
  ℕ, zero, suc, ◌+◌, ◌-◌, ◌*◌, List, [], ◌∷◌, Bool, true, false, if◌then◌else◌, ltb, length, take,
  drop, Outcome, done, fatal, panicked, ◌>>=◌, read,
}
use tulva.Pieces.{BlockInfo, BlockResponse}
use tulva.Torrent.{Info, FileEntry}
use tulva.DiskIo.Files.{read_at}

-- `readBlock`: fewer bytes than asked for are an error, `io.EOF`, and fatal.
unfoldable pub read_block : List ℕ → ℕ → ℕ → Outcome (List ℕ)
read_block file n offset =
    let bytes = read_at offset n file in if ltb (length bytes) n then fatal else done bytes

-- The loop, whose last round has an index past the end of `Files`.
unfoldable pub read_files : ℕ → ℕ → List FileEntry → List (List ℕ) → Outcome (List ℕ)
unfolding read_block
read_files offset n [] files = panicked
read_files offset n (entry ∷ entries) [] =
    if ltb entry.length offset then read_files (offset - entry.length) n entries [] else panicked
read_files offset n (entry ∷ entries) (file ∷ files) =
    let later = read_files (offset - entry.length) n entries files in
    if ltb entry.length offset then later else read_block file n offset

unfoldable pub read_bytes : List FileEntry → ℕ → ℕ → List (List ℕ) → Outcome (List ℕ)
unfolding read_files
read_bytes [] offset n files = do file ← read files 0; read_block file n offset
read_bytes (entry ∷ entries) offset n files = read_files offset n (entry ∷ entries) files

unfoldable pub request_block : Info → List (List ℕ) → BlockInfo → Outcome BlockResponse
unfolding read_bytes
request_block info files block = do
  bytes ←
      read_bytes info.files (block.piece_index * info.piece_length + block.begin) block.length files
  done (record { info = block; bytes = bytes })
