-- ===== src/DiskIo/Read/Places.antt =====
-- Which blocks can be read in multiple file mode, and which can not.
use tulva.Prelude.{
  ℕ, ◌+◌, ◌-◌, ◌*◌, ◌≤◌, ◌<◌, ◌≡◌, refl, ap, ◌∙◌, List, [], ◌∷◌, ◌++◌, true, false, ltb, nat_eq,
  length, done, fatal, arith, Bool-cases, inl, inr,
}
use tulva.Pieces.{BlockInfo}
use tulva.Torrent.{Info, FileEntry, total_length}
use tulva.DiskIo.Files.{read_at}
use tulva.DiskIo.Write.Volume.{Opened}
use tulva.DiskIo.Read.{read_files, read_bytes, request_block}
use tulva.DiskIo.Read.Blocks.{read_block_short, read_block_full}

-- The files before a place, with what is open of them.
past_files :
    (offset n : ℕ) (before after : List FileEntry) (old files : List (List ℕ))
    → Opened before old
    → 0 < offset
    → read_files (total_length before + offset) n (before ++ after) (old ++ files)
      ≡ read_files offset n after files
unfolding read_files
past_files offset n [] after [] files o h = ap (λ m. read_files m n after files) (omega arith)
past_files offset n [] after (x ∷ old) files o h = absurd o
past_files offset n (entry ∷ before) after [] files o h = absurd o
past_files offset n (entry ∷ before) after (x ∷ old) files o h =
    let past : ltb entry.length (entry.length + total_length before + offset) ≡ true =
      ground arith in
    let rest : entry.length + total_length before + offset - entry.length
        ≡ total_length before + offset =
      omega arith in
    rw past (
      ap (λ m. read_files m n (before ++ after) (old ++ files)) rest
      ∙ past_files offset n before after old files o.1 h)

in_file :
    (before : List FileEntry) (entry : FileEntry) (after : List FileEntry) (old : List (List ℕ))
    (file : List ℕ) (files : List (List ℕ)) (offset n : ℕ)
    → Opened before old
    → 0 < offset
    → offset ≤ entry.length
    → offset + n ≤ length file
    → read_files (total_length before + offset) n (before ++ entry ∷ after) (old ++ file ∷ files)
      ≡ done (read_at offset n file)
unfolding read_files
in_file before entry after old file files offset n o h le fits =
    let here : ltb entry.length offset ≡ false = ground arith in
    past_files offset n before (entry ∷ after) old (file ∷ files) o h
    ∙ rw here (read_block_full file n offset fits)

-- At the end of the files before, the last of them that has a byte is read past its end.
boundary :
    (first : FileEntry) (before after : List FileEntry) (file : List ℕ) (old files : List (List ℕ))
    (n : ℕ)
    → Opened (first ∷ before) (file ∷ old)
    → 0 < n
    → read_files
        (total_length (first ∷ before))
        n
        (first ∷ (before ++ after))
        (file ∷ (old ++ files))
      ≡ fatal
unfolding read_files
boundary first [] after file [] files n o h =
    let here : ltb first.length (first.length + 0) ≡ false = ground arith in
    rw here (read_block_short file n (first.length + 0) h (omega arith))
boundary first [] after file (x ∷ old) files n o h = absurd o.1
boundary first (second ∷ before) after file [] files n o h = absurd o.1
boundary first (second ∷ before) after file (x ∷ old) files n o h =
    elim (Bool-cases (ltb first.length (first.length + total_length (second ∷ before)))) [
      | inl past ↦
          let rest : first.length + total_length (second ∷ before) - first.length
              ≡ total_length (second ∷ before) =
            omega arith in
          rw past (
            ap (λ m. read_files m n (second ∷ (before ++ after)) (x ∷ (old ++ files))) rest
            ∙ boundary second before after x old files n o.1 h)
      | inr here ↦
          rw here (
            read_block_short file n (first.length + total_length (second ∷ before)) h (omega arith))
    ]

-- In multiple file mode, if the files before a file other than the first are open and none of them is longer than the
-- torrent says, a block of at least one byte whose place is the first byte of that file is looked for at the end of a
-- file before it, and the program ends.
pub request_block_at_boundary :
    (info : Info) (first : FileEntry) (before after : List FileEntry) (file : List ℕ)
    (old files : List (List ℕ)) (block : BlockInfo)
    → info.files ≡ first ∷ (before ++ after)
    → Opened (first ∷ before) (file ∷ old)
    → block.piece_index * info.piece_length + block.begin ≡ total_length (first ∷ before)
    → 0 < block.length
    → request_block info (file ∷ (old ++ files)) block ≡ fatal
unfolding request_block read_bytes
request_block_at_boundary info first before after file old files block e o at h =
    let ends = boundary first before after file old files block.length o h in rw (e, at, ends) refl

multiple :
    (before : List FileEntry) (entry : FileEntry) (after : List FileEntry) (offset n : ℕ)
    (files : List (List ℕ))
    → read_bytes (before ++ entry ∷ after) offset n files
      ≡ read_files offset n (before ++ entry ∷ after) files
unfolding read_bytes
multiple [] entry after offset n files = refl
multiple (first ∷ before) entry after offset n files = refl

-- In multiple file mode, if the files before a file are open and none of them is longer than the torrent says, a block
-- whose place is behind the first byte of that file, and which ends before the end of what is written of it, is read,
-- with the bytes of the file.
pub request_block_in_file :
    (info : Info) (before : List FileEntry) (entry : FileEntry) (after : List FileEntry)
    (old : List (List ℕ)) (file : List ℕ) (files : List (List ℕ)) (block : BlockInfo) (offset : ℕ)
    → info.files ≡ before ++ entry ∷ after
    → Opened before old
    → block.piece_index * info.piece_length + block.begin ≡ total_length before + offset
    → 0 < offset
    → offset ≤ entry.length
    → offset + block.length ≤ length file
    → request_block info (old ++ file ∷ files) block
      ≡ done (record { info = block; bytes = read_at offset block.length file })
unfolding request_block
request_block_in_file info before entry after old file files block offset e o at h le fits =
    let found = in_file before entry after old file files offset block.length o h le fits in
    rw
      (
        e,
        at,
        multiple before entry after (total_length before + offset) block.length
            (old ++ file ∷ files),
        found,
      )
      refl
