-- ===== src/DiskIo/Read/Blocks.antt =====
-- What a block that is read holds, and which blocks can not be read.
use tulva.Prelude.{
  ℕ, ◌+◌, ◌-◌, ◌*◌, ◌≤◌, ◌<◌, ◌≡◌, ◌⊎◌, refl, ap, subst, List, [], ◌∷◌, ltb, nat_eq, length, get_or,
  drop, Outcome, done, fatal, panicked, Returns, arith, Bool-cases, inl, inr,
}
use tulva.Prelude.Slices.{length-take, length-drop, get_or-take, get_or-drop}
use tulva.Pieces.{BlockInfo}
use tulva.Torrent.{Info, FileEntry, total_length}
use tulva.DiskIo.Files.{read_at}
use tulva.DiskIo.Write.Volume.{byte_of_files, byte_of, Opened, IsOpen}
use tulva.DiskIo.Read.{read_block, read_files, read_bytes, request_block}

-- The bytes are those of the volume from the place on.
abbrev pub Reads : ℕ → ℕ → (ℕ → ℕ) → List ℕ → Type 0
Reads offset n volume bytes =
    (length bytes ≡ n) × ((k : ℕ) → k < n → get_or bytes k 0 ≡ volume (offset + k))

-- The block is read with the bytes of the volume, or the program ends.
abbrev pub ReadsOrEnds : ℕ → ℕ → (ℕ → ℕ) → Outcome (List ℕ) → Type 0
ReadsOrEnds offset n volume r = Returns (Reads offset n volume) r ⊎ (r ≡ fatal) ⊎ (r ≡ panicked)

pub read_block_short :
    (file : List ℕ) (n offset : ℕ)
    → 0 < n
    → length file < offset + n
    → read_block file n offset ≡ fatal
unfolding read_block
read_block_short file n offset h lt =
    ground (arith, length-take n (drop offset file), length-drop offset file)

pub read_block_full :
    (file : List ℕ) (n offset : ℕ)
    → offset + n ≤ length file
    → read_block file n offset ≡ done (read_at offset n file)
unfolding read_block
read_block_full file n offset h =
    ground (arith, length-take n (drop offset file), length-drop offset file)

-- A block that is read from one file, which the volume holds from the place `start` on.
read_block_lem :
    (file : List ℕ) (n offset l start : ℕ) (volume : ℕ → ℕ)
    → length file ≤ l
    → ((k : ℕ) → k < l → get_or file k 0 ≡ volume (start + k))
    → ReadsOrEnds (start + offset) n volume (read_block file n offset)
unfolding read_block
read_block_lem file n offset l start volume h v =
    elim (Bool-cases (ltb (length (read_at offset n file)) n)) [
      | inl short ↦ inr (inl (rw short refl))
      | inr full ↦ inl (
        read_at offset n file,
        rw full refl,
        (
          ground (arith, length-take n (drop offset file)),
          λ k lt.
              let in_file : offset + k < length file =
                ground (arith, length-take n (drop offset file), length-drop offset file) in
              let there : start + (offset + k) ≡ start + offset + k = omega arith in
              ground (
                arith,
                get_or-take n (drop offset file) k 0,
                get_or-drop offset file k 0,
                v (offset + k),
                ap volume there,
              ),
        ),
      )
    ]

read_files_lem :
    (offset n start : ℕ) (entries : List FileEntry) (files : List (List ℕ)) (volume : ℕ → ℕ)
    → Opened entries files
    → ((k : ℕ) → k < total_length entries → byte_of_files entries files k ≡ volume (start + k))
    → ReadsOrEnds (start + offset) n volume (read_files offset n entries files)
unfolding read_files
read_files_lem offset n start [] files volume o v = inr (inr refl)
read_files_lem offset n start (entry ∷ entries) [] volume o v = absurd o
read_files_lem offset n start (entry ∷ entries) (file ∷ files) volume o v =
    elim (Bool-cases (ltb entry.length offset)) [
      | inl past ↦
          let there : start + entry.length + (offset - entry.length) ≡ start + offset =
            ground arith in
          rw past (
            subst (λ m. ReadsOrEnds m n volume (read_files (offset - entry.length) n entries files))
              there
              (read_files_lem (offset - entry.length) n (start + entry.length) entries files volume
                o.1
                (λ k h.
                  let back : entry.length + k - entry.length ≡ k = omega arith in
                  let place : start + (entry.length + k) ≡ start + entry.length + k = omega arith in
                  ground (
                    arith,
                    v (entry.length + k),
                    ap (byte_of_files entries files) back,
                    ap volume place,
                  ))))
      | inr here ↦
          rw here (
            read_block_lem file n offset entry.length start volume o.0 (λ k h. ground (arith, v k)))
    ]

zero_add : (m : ℕ) → 0 + m ≡ m
zero_add m = omega arith

read_bytes_lem :
    (entries : List FileEntry) (offset n : ℕ) (files : List (List ℕ))
    → IsOpen entries files
    → ReadsOrEnds offset n (byte_of entries files) (read_bytes entries offset n files)
unfolding read_bytes
read_bytes_lem [] offset n [] o = absurd o
read_bytes_lem [] offset n (file ∷ other ∷ files) o = absurd o
read_bytes_lem [] offset n (file ∷ []) o =
    subst (λ m. ReadsOrEnds m n (λ k. get_or file k 0) (read_block file n offset)) (zero_add offset)
      (read_block_lem file n offset (length file) 0 (λ k. get_or file k 0) (omega arith)
        (λ k h. ap (λ j. get_or file j 0) (omega arith)))
read_bytes_lem (entry ∷ entries) offset n files o =
    subst
      (λ m.
        ReadsOrEnds m n (byte_of_files (entry ∷ entries) files)
          (read_files offset n (entry ∷ entries) files))
      (zero_add offset)
      (read_files_lem offset n 0 (entry ∷ entries) files (byte_of_files (entry ∷ entries) files) o
        (λ k h. ap (byte_of_files (entry ∷ entries) files) (omega arith)))

-- When the files are open, a block that `requestBlock` returns is the one that was asked for, with as many bytes of
-- the volume, from its place on; otherwise the program ends.
pub request_block-Reads :
    (info : Info) (files : List (List ℕ)) (block : BlockInfo)
    → IsOpen info.files files
    → (Returns
        (λ r.
          (r.info ≡ block)
          × Reads
              (block.piece_index * info.piece_length + block.begin)
              block.length
              (byte_of info.files files)
              r.bytes)
        (request_block info files block))
      ⊎ (request_block info files block ≡ fatal)
      ⊎ (request_block info files block ≡ panicked)
unfolding request_block
request_block-Reads info files block o =
    elim (read_bytes_lem info.files (block.piece_index * info.piece_length + block.begin)
      block.length files o) [
        | inl (bytes, e, r) ↦ inl (record { info = block; bytes = bytes }, rw e refl, (refl, r))
        | inr (inl e) ↦ inr (inl (rw e refl))
        | inr (inr e) ↦ inr (inr (rw e refl))
      ]
