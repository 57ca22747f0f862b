-- ===== src/DiskIo/Tests.antt =====
-- Examples for the disk: a torrent with files of 3 and 4 bytes and pieces of 2 bytes.
use tulva.Prelude.{
  ℕ, zero, suc, ◌≤◌, ◌≡◌, ◌≢◌, refl, subst, take, List, [], ◌∷◌, ◌++◌, true, false, some, length,
  get_elem?, replicate, All, done, fatal, ◌>>=◌, Returns, equal_bytes, arith,
}
use mathlib.Core.Option.{some-injective}
use tulva.Pieces.{Piece, BlockInfo}
use tulva.Torrent.{Info, FileEntry, piece_hashes_from}
use tulva.DiskIo.Files.{read_at}
use tulva.DiskIo.Write.{write_piece}
use tulva.DiskIo.Write.Volume.{IsOpen, InVolume, BytesWritten, byte_of, write_piece-BytesWritten}
use tulva.DiskIo.Write.Order.{write_piece_comm}
use tulva.DiskIo.Read.{request_block}
use tulva.DiskIo.Read.Places.{request_block_at_boundary, request_block_in_file}
use tulva.DiskIo.Verify.{check_hash, verify}
use tulva.DiskIo.Verify.Pieces.{contents}
use tulva.DiskIo.Verify.Answers.{Answers, verify_lem}
use tulva.DiskIo.Verify.Hashes.{check_hash-piece_hashes}
use tulva.DiskIo.Run.{
  to_write, to_report, to_count, DiskIo, new_disk_io, write_piece_sent, writer_turn, report_taken,
  step, Reached, start, after,
}
use tulva.DiskIo.Run.Messages.{Delivered, messages-Delivered}
use tulva.DiskIo.Run.Stored.{SentOnce, pieces_of}
use tulva.DiskIo.Run.Stored.Orders.{Truthful, received_piece-InPlace}

abbrev first_entry : FileEntry
first_entry = record { length = 3; path = "a" ∷ [] }

abbrev second_entry : FileEntry
second_entry = record { length = 4; path = "b" ∷ "c" ∷ [] }

abbrev info : Info
info = record {
  piece_length = 2;
  pieces = 1 ∷ 2 ∷ replicate 78 0;
  name = "album";
  length = 7;
  files = first_entry ∷ second_entry ∷ [];
}

abbrev files : List (List ℕ)
files = (1 ∷ 2 ∷ 3 ∷ []) ∷ (4 ∷ 5 ∷ 6 ∷ 7 ∷ []) ∷ []

abbrev piece_one : Piece
piece_one = record { index = 1; bytes = 8 ∷ 9 ∷ []; peer_name = "peer" }

abbrev piece_three : Piece
piece_three = record { index = 3; bytes = 10 ∷ []; peer_name = "peer" }

files-IsOpen : IsOpen info.files files
files-IsOpen = (omega arith, (omega arith, tt))

write_piece-BytesWritten_example :
    Returns (BytesWritten info.files 2 (8 ∷ 9 ∷ []) files) (write_piece info files piece_one)
write_piece-BytesWritten_example = write_piece-BytesWritten info files piece_one files-IsOpen

write_piece_comm_example :
    (pq qp : List (List ℕ)) × ((write_piece info files piece_one >>= λ fs.
    write_piece info fs piece_three)
      ≡ done pq)
    × ((write_piece info files piece_three >>= λ fs. write_piece info fs piece_one) ≡ done qp)
    × ((k : ℕ) → InVolume info.files k → byte_of info.files pq k ≡ byte_of info.files qp k)
write_piece_comm_example =
    write_piece_comm info files piece_one piece_three files-IsOpen (ground arith) (omega arith)
      (omega arith)

-- A piece over the border of the files goes to both.
written_over_border :
    write_piece info files piece_one ≡ done ((1 ∷ 2 ∷ 8 ∷ []) ∷ (9 ∷ 5 ∷ 6 ∷ 7 ∷ []) ∷ [])
unfolding write_piece
written_over_border = refl

abbrev border_block : BlockInfo
border_block = record { piece_index = 1; begin = 1; length = 2 }

request_block_at_boundary_example : request_block info files border_block ≡ fatal
request_block_at_boundary_example =
    request_block_at_boundary info first_entry [] (second_entry ∷ []) (1 ∷ 2 ∷ 3 ∷ []) []
      ((4 ∷ 5 ∷ 6 ∷ 7 ∷ []) ∷ []) border_block refl (omega arith, tt) refl (omega arith)

abbrev inner_block : BlockInfo
inner_block = record { piece_index = 2; begin = 0; length = 2 }

request_block_in_file_example :
    request_block info files inner_block
    ≡ done (record { info = inner_block; bytes = read_at 1 2 (4 ∷ 5 ∷ 6 ∷ 7 ∷ []) })
request_block_in_file_example =
    request_block_in_file info (first_entry ∷ []) second_entry [] ((1 ∷ 2 ∷ 3 ∷ []) ∷ [])
      (4 ∷ 5 ∷ 6 ∷ 7 ∷ []) [] inner_block 1 refl (omega arith, tt) refl (omega arith) (omega arith)
      (omega arith)

-- A function from bytes to 20 bytes, in the place of the hash.
abbrev pad : List ℕ → List ℕ
pad xs = take 20 (xs ++ replicate 20 0)

verify_lem_example : Returns (Answers pad info (contents files)) (verify pad info files)
verify_lem_example =
    verify_lem pad info files refl (record { positive = omega arith; enough = omega arith })

check_hash-piece_hashes_example :
    check_hash pad info (4 ∷ 5 ∷ []) 60 ≡ done (equal_bytes (pad (4 ∷ 5 ∷ [])) (replicate 20 0))
unfolding piece_hashes_from
check_hash-piece_hashes_example =
    check_hash-piece_hashes pad info (4 ∷ 5 ∷ []) 3 (replicate 20 0) refl

-- Only the first piece has its hash.
verified : verify pad info files ≡ done (true ∷ false ∷ false ∷ false ∷ [])
unfolding verify
verified = refl

abbrev sent_state : DiskIo
sent_state = record (new_disk_io files) {
  writers = record { piece = piece_one; stage = to_write } ∷ [];
}

abbrev written_files : List (List ℕ)
written_files = (1 ∷ 2 ∷ 8 ∷ []) ∷ (9 ∷ 5 ∷ 6 ∷ 7 ∷ []) ∷ []

abbrev written_state : DiskIo
written_state = record sent_state {
  files = written_files;
  writers = record { piece = piece_one; stage = to_report } ∷ [];
}

abbrev reported_state : DiskIo
reported_state = record written_state {
  writers = record { piece = piece_one; stage = to_count } ∷ [];
  received_piece = record { piece_num = 1; peer_name = "peer" } ∷ [];
}

reported : Reached info files (piece_one ∷ []) reported_state
unfolding step write_piece
reported =
    after _ written_state reported_state (report_taken 0)
      (after _ sent_state written_state (writer_turn 0)
        (after [] (new_disk_io files) sent_state (write_piece_sent piece_one) start refl) refl)
      refl

-- One piece is distinct from the others.
one_apart :
    (u : Piece) (i j : ℕ) (v w : Piece)
    → get_elem? (u ∷ []) i ≡ some v
    → get_elem? (u ∷ []) j ≡ some w
    → i ≢ j
    → v.index ≢ w.index
one_apart u zero zero v w e f ne = absurd (ne refl)
one_apart u zero (suc j) v w e f ne = absurd (ground arith)
one_apart u (suc i) j v w e f ne = absurd (ground arith)

one_sized :
    (u : Piece) (l : ℕ)
    → length u.bytes ≤ l
    → (i : ℕ) (w : Piece) → get_elem? (u ∷ []) i ≡ some w
    → length w.bytes ≤ l
one_sized u l h zero w e = subst (λ x. length x.bytes ≤ l) (some-injective _ _ e) h
one_sized u l h (suc i) w e = absurd (ground arith)

one_piece : SentOnce info (piece_one ∷ [])
one_piece = record { apart = one_apart piece_one; sized = one_sized piece_one 2 (omega arith) }

received_piece-InPlace_example :
    All (Truthful info (piece_one ∷ []) reported_state) reported_state.received_piece
received_piece-InPlace_example =
    received_piece-InPlace info files (piece_one ∷ []) reported_state files-IsOpen reported
      one_piece

messages-Delivered_example :
    (pieces_of reported_state.writers ≡ piece_one ∷ []) × Delivered reported_state
messages-Delivered_example = messages-Delivered info files (piece_one ∷ []) reported_state reported
