-- ===== src/DiskIo/Write/Volume.antt =====
-- What a piece is written to: the files one after the other, as one volume. A byte that a file does not hold
-- yet reads as 0.
use tulva.Prelude.{
  ℕ, ◌-◌, ◌*◌, ◌≤◌, ◌<◌, ◌≡◌, refl, ap, ◌∙◌, List, [], ◌∷◌, if◌then◌else◌, ltb, ◌==◌, nat_eq,
  length, get_or, take, drop, Returns, arith, Bool-cases, inl, inr,
}
use tulva.Prelude.Slices.{length-take, length-drop, get_or-take, get_or-drop}
use tulva.Pieces.{Piece}
use tulva.Torrent.{Info, FileEntry, total_length}
use tulva.DiskIo.Files.{write_at, inside, get_or-write_at, length-write_at}
use tulva.DiskIo.Write.{max_write, write_files, write_bytes, write_piece}

-- The byte of the volume at a place, in multiple file mode.
abbrev pub byte_of_files : List FileEntry → List (List ℕ) → ℕ → ℕ
byte_of_files [] files k = 0
byte_of_files (entry ∷ entries) [] k = 0
byte_of_files (entry ∷ entries) (file ∷ files) k =
    if ltb k entry.length then get_or file k 0 else byte_of_files entries files (k - entry.length)

-- The bytes from `offset` on are replaced, and no other.
abbrev pub overwrite : ℕ → List ℕ → (ℕ → ℕ) → ℕ → ℕ
overwrite offset bytes volume k =
    if inside offset (length bytes) k then get_or bytes (k - offset) 0 else volume k

-- Each file is open, and none is longer than the torrent says.
abbrev pub Opened : List FileEntry → List (List ℕ) → Type 0
Opened [] [] = Unit {0}
Opened [] (file ∷ files) = ⊥
Opened (entry ∷ entries) [] = ⊥
Opened (entry ∷ entries) (file ∷ files) = (length file ≤ entry.length) × Opened entries files

-- The files are the old ones with the bytes written.
abbrev pub Written : ℕ → List ℕ → List FileEntry → List (List ℕ) → List (List ℕ) → Type 0
Written offset bytes entries files files' =
    Opened entries files'
    × ((k : ℕ)
        → k < total_length entries
        → byte_of_files entries files' k ≡ overwrite offset bytes (byte_of_files entries files) k)

-- A place in the volume, when the write begins behind the first file.
past_lem :
    (offset l k x : ℕ) (bytes : List ℕ) (new old : ℕ → ℕ)
    → l < offset
    → ((l ≤ k) → new (k - l) ≡ overwrite (offset - l) bytes old (k - l))
    → (if ltb k l then x else new (k - l))
      ≡ overwrite offset bytes (λ k. if ltb k l then x else old (k - l)) k
past_lem offset l k x bytes new old h e = elim (Bool-cases (ltb k l)) [
  | inl before ↦ ground arith
  | inr behind ↦
      let at : l ≤ k = ground arith in
      let same : k - l - (offset - l) ≡ k - offset = omega (arith, h) in
      ground (arith, e at, ap (λ j. get_or bytes j 0) same)
]

-- A place in the first file, and one behind it, when the write begins in the first file.
here_lem :
    (offset l k : ℕ) (bytes file : List ℕ)
    → offset ≤ l
    → k < l
    → get_or (write_at offset (take (max_write (length bytes) offset l) bytes) file) k 0
      ≡ (if inside offset (length bytes) k then get_or bytes (k - offset) 0 else get_or file k 0)
here_lem offset l k bytes file h lt =
    let n : ℕ = max_write (length bytes) offset l in
    get_or-write_at offset (take n bytes) file k
    ∙ ground (arith, length-take n bytes, get_or-take n bytes (k - offset) 0)

next_lem :
    (offset l k : ℕ) (bytes : List ℕ) (new old : ℕ → ℕ)
    → offset ≤ l
    → l ≤ k
    → new (k - l) ≡ overwrite 0 (drop (max_write (length bytes) offset l) bytes) old (k - l)
    → new (k - l)
      ≡ (if inside offset (length bytes) k then get_or bytes (k - offset) 0 else old (k - l))
next_lem offset l k bytes new old h le e =
    let n : ℕ = max_write (length bytes) offset l in
    e ∙ ground (arith, length-drop n bytes, get_or-drop n bytes (k - l - 0) 0)

-- The first file takes what fits, and the others the rest.
first_file :
    (offset : ℕ) (bytes : List ℕ) (entry : FileEntry) (entries : List FileEntry) (file : List ℕ)
    (files rest : List (List ℕ))
    → offset ≤ entry.length
    → length file ≤ entry.length
    → Written 0 (drop (max_write (length bytes) offset entry.length) bytes) entries files rest
    → Written offset bytes
        (entry ∷ entries)
        (file ∷ files)
        (write_at offset (take (max_write (length bytes) offset entry.length) bytes) file ∷ rest)
first_file offset bytes entry entries file files rest le small (opened, v) =
    let n : ℕ = max_write (length bytes) offset entry.length in
    let written : List ℕ = write_at offset (take n bytes) file in
    (
      (ground (arith, length-write_at offset (take n bytes) file, length-take n bytes), opened),
      λ k h. elim (Bool-cases (ltb k entry.length)) [
        | inl before ↦ ground (arith, here_lem offset entry.length k bytes file le (ground arith))
        | inr behind ↦
            let at : entry.length ≤ k = ground arith in
            ground (
              arith,
              next_lem offset entry.length k bytes (byte_of_files entries rest)
                  (byte_of_files entries files) le at (v (k - entry.length) (omega (arith, h, at))),
            )
      ],
    )

write_files-Written :
    (offset : ℕ) (bytes : List ℕ) (entries : List FileEntry) (files : List (List ℕ))
    → Opened entries files
    → Returns (Written offset bytes entries files) (write_files offset bytes entries files)
unfolding write_files
write_files-Written offset bytes [] [] o = ([], refl, (tt, λ k h. absurd (omega arith)))
write_files-Written offset bytes [] (file ∷ files) o = absurd o
write_files-Written offset bytes (entry ∷ entries) [] o = absurd o
write_files-Written offset bytes (entry ∷ entries) (file ∷ files) o =
    elim (Bool-cases (ltb entry.length offset)) [
      | inl past ↦
          let (rest, e, (opened, v)) =
            write_files-Written (offset - entry.length) bytes entries files o.1 in
          (
            file ∷ rest,
            rw (past, e) refl,
            (
              (o.0, opened),
              λ k h.
                  past_lem offset entry.length k (get_or file k 0) bytes
                    (byte_of_files entries rest) (byte_of_files entries files) (ground arith)
                    (λ le. v (k - entry.length) (omega (arith, h, le))),
            ),
          )
      | inr here ↦
          let le : offset ≤ entry.length = ground arith in
          let n : ℕ = max_write (length bytes) offset entry.length in
          let written : List ℕ = write_at offset (take n bytes) file in
          elim (Bool-cases (length (drop n bytes) == 0)) [
            | inl all ↦ (
              written ∷ files,
              rw (here, all) refl,
              first_file offset bytes entry entries file files files le o.0
                  (o.1, λ k h. ground arith),
            )
            | inr more ↦
                let (rest, e, w) = write_files-Written 0 (drop n bytes) entries files o.1 in
                (
                  written ∷ rest,
                  rw (here, more, e) refl,
                  first_file offset bytes entry entries file files rest le o.0 w,
                )
          ]
    ]

-- The byte of the volume at a place: of the one file in single file mode.
abbrev pub byte_of : List FileEntry → List (List ℕ) → ℕ → ℕ
byte_of [] [] k = 0
byte_of [] (file ∷ files) k = get_or file k 0
byte_of (entry ∷ entries) files k = byte_of_files (entry ∷ entries) files k

-- `Init` has opened the files: one in single file mode.
abbrev pub IsOpen : List FileEntry → List (List ℕ) → Type 0
IsOpen [] [] = ⊥
IsOpen [] (file ∷ []) = Unit {0}
IsOpen [] (file ∷ other ∷ files) = ⊥
IsOpen (entry ∷ entries) files = Opened (entry ∷ entries) files

-- In multiple file mode the volume ends with the last file.
abbrev pub InVolume : List FileEntry → ℕ → Type 0
InVolume [] k = Unit {0}
InVolume (entry ∷ entries) k = k < total_length (entry ∷ entries)

abbrev pub BytesWritten : List FileEntry → ℕ → List ℕ → List (List ℕ) → List (List ℕ) → Type 0
BytesWritten entries offset bytes files files' =
    IsOpen entries files'
    × ((k : ℕ)
        → InVolume entries k
        → byte_of entries files' k ≡ overwrite offset bytes (byte_of entries files) k)

pub write_bytes-BytesWritten :
    (entries : List FileEntry) (offset : ℕ) (bytes : List ℕ) (files : List (List ℕ))
    → IsOpen entries files
    → Returns (BytesWritten entries offset bytes files) (write_bytes entries offset bytes files)
unfolding write_bytes
write_bytes-BytesWritten [] offset bytes [] o = absurd o
write_bytes-BytesWritten [] offset bytes (file ∷ other ∷ files) o = absurd o
write_bytes-BytesWritten [] offset bytes (file ∷ []) o =
    (write_at offset bytes file ∷ [], refl, (tt, λ k h. get_or-write_at offset bytes file k))
write_bytes-BytesWritten (entry ∷ entries) offset bytes files o =
    write_files-Written offset bytes (entry ∷ entries) files o

-- When the files are open, `writePiece` returns, with no index out of range, and the volume has the bytes of the
-- piece from its place on and is the same everywhere else; in multiple file mode no file becomes longer than the
-- torrent says.
pub write_piece-BytesWritten :
    (info : Info) (files : List (List ℕ)) (piece : Piece)
    → IsOpen info.files files
    → Returns
        (BytesWritten info.files (piece.index * info.piece_length) piece.bytes files)
        (write_piece info files piece)
unfolding write_piece
write_piece-BytesWritten info files piece o =
    write_bytes-BytesWritten info.files (piece.index * info.piece_length) piece.bytes files o
