-- ===== src/DiskIo/Verify.antt =====
-- `Verify`: the files are read piece by piece, and each piece is checked against its hash.
pub mod Answers
pub mod Hashes
pub mod Pieces
pub mod Rounds
use tulva.Prelude.{
  ℕ, zero, suc, ◌+◌, ◌-◌, ◌*◌, ◌/◌, List, [], ◌∷◌, ◌++◌, Bool, true, false, if◌then◌else◌, ltb, leb,
  ◌==◌, nat_eq, length, take, drop, replicate, equal_bytes, Outcome, done, panicked, out_of_fuel,
  ◌>>=◌, read, write,
}
use tulva.Torrent.{Info, FileEntry}
use tulva.DiskIo.Files.{read_at}

-- The variables of `Verify`: the answers, the place in the text of the hashes, and `buf[:m]`, what a file has given
-- of a piece that it did not fill.
pub record Verifying : Type 0 where
  pub finished_pieces : List Bool
  pub piece_index : ℕ
  pub partial : List ℕ

-- `sha1` stands for the standard library's function.
module _ (sha1 : List ℕ → List ℕ) where
  -- `checkHash`: the hash is the text of 20 bytes at `piece_index`, which counts bytes of the text.
  unfoldable pub check_hash : Info → List ℕ → ℕ → Outcome Bool
  check_hash info buf piece_index =
      if ltb (length info.pieces) (piece_index + 20)
      then panicked
      else done (equal_bytes (sha1 buf) (read_at piece_index 20 info.pieces))

  -- `finishedPieces[pieceIndex/20] = diskio.checkHash(buf, pieceIndex)`.
  abbrev pub check_piece : Info → List ℕ → Verifying → Outcome (List Bool)
  unfolding check_hash
  check_piece info buf v = do
    correct ← check_hash info buf v.piece_index
    write v.finished_pieces (v.piece_index / 20) correct

  -- The rounds over one file, from an offset on, until its end.
  unfoldable pub verify_rounds : ℕ → Info → List ℕ → ℕ → Verifying → Outcome Verifying
  unfolding check_hash
  verify_rounds zero info file offset v = out_of_fuel
  verify_rounds (suc fuel) info file offset v =
      let wanted = info.piece_length - length v.partial in
      let got = read_at offset wanted file in
      let next : Outcome Verifying =
        (check_piece info (v.partial ++ got) v >>= λ finished.
        verify_rounds fuel info file (offset + wanted) (record {
          finished_pieces = finished;
          piece_index = v.piece_index + 20;
          partial = [];
        })) in
      if ltb (length got) wanted then done (record v { partial = v.partial ++ got }) else next

  -- The rounds that one file can take: each full one takes a byte at least. When the piece length is 0 each round takes
  -- nothing, until the index leaves the slice of answers.
  abbrev pub rounds_for : Info → List ℕ → ℕ
  rounds_for info file = suc (length file + length info.pieces)

  -- The loop over `Files`, with `diskio.files` beside it.
  unfoldable pub verify_files :
      Info → List FileEntry → List (List ℕ) → Verifying → Outcome Verifying
  unfolding verify_rounds
  verify_files info [] files v = done v
  verify_files info (entry ∷ entries) [] v = panicked
  verify_files info (entry ∷ entries) (file ∷ files) v =
      verify_rounds (rounds_for info file) info file 0 v >>= λ w. verify_files info entries files w

  -- In single file mode the variable `n` has the part of `partial`.
  unfoldable pub verify_entries :
      Info → List FileEntry → List (List ℕ) → Verifying → Outcome Verifying
  unfolding verify_files
  verify_entries info [] files v = do
    file ← read files 0
    verify_rounds (rounds_for info file) info file 0 v
  verify_entries info (entry ∷ entries) files v = verify_files info (entry ∷ entries) files v

  unfoldable pub verify : Info → List (List ℕ) → Outcome (List Bool)
  unfolding verify_entries
  verify info files = do
    v ← verify_entries info info.files files (record {
      finished_pieces = replicate (length info.pieces / 20) false;
      piece_index = 0;
      partial = [];
    })
    (if length v.partial == 0 then done v.finished_pieces else check_piece info v.partial v)
