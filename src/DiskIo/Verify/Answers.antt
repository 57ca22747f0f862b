-- ===== src/DiskIo/Verify/Answers.antt =====
-- What `Verify` returns, for files that all of a torrent's modes can have.
use tulva.Prelude.{
  ℕ, zero, suc, ◌*◌, ◌/◌, ◌≤◌, ◌<◌, ◌≡◌, refl, ap, sym, ◌∙◌, subst, List, [], ◌∷◌, ◌++◌, Bool,
  false, some, if◌then◌else◌, ltb, ◌==◌, nat_eq, length, get_elem?, get_elem?-set_ne, drop, set,
  length-set, length-replicate, replicate, done, Returns, arith, Bool-cases, inl, inr,
}
use mathlib.Core.List.{append-nil}
use tulva.Prelude.Slices.{take_all}
use tulva.Torrent.{Info, FileEntry}
use tulva.DiskIo.Files.{read_at}
use tulva.DiskIo.Verify.{Verifying, check_piece, rounds_for, verify_entries, verify}
use tulva.DiskIo.Verify.Pieces.{
  contents, is_correct, Fits, Progress, check_piece_lem, piece-lt, next_place, set-answered,
}
use tulva.DiskIo.Verify.Rounds.{verify_rounds-Progress, verify_files-Progress}

-- The files that `Init` opens: one in single file mode, and as many as the torrent names otherwise.
abbrev pub count_files : List FileEntry → ℕ
count_files [] = 1
count_files (entry ∷ entries) = length (entry ∷ entries)

module _ (sha1 : List ℕ → List ℕ) (info : Info) where
  verify_entries-Progress :
      (entries : List FileEntry) (files : List (List ℕ)) (v : Verifying)
      → length files ≡ count_files entries
      → Fits sha1 info (contents files)
      → Progress sha1 info (contents files) 0 (contents files) v
      → Returns
          (λ w. (k : ℕ) × Progress sha1 info (contents files) k [] w)
          (verify_entries sha1 info entries files v)
  unfolding verify_entries
  verify_entries-Progress [] [] v l f g = absurd (omega arith)
  verify_entries-Progress [] (file ∷ []) v l f g =
      verify_rounds-Progress sha1 info (file ++ []) (rounds_for sha1 info file) 0 0 file [] v f g
        (omega arith)
  verify_entries-Progress [] (file ∷ other ∷ files) v l f g = absurd (omega arith)
  verify_entries-Progress (entry ∷ entries) files v l f g =
      verify_files-Progress sha1 info (contents files) (entry ∷ entries) files 0 v l f g

  -- A piece that begins where the files end, or later, is not correct.
  is_correct-past :
      (total : List ℕ) (q p : ℕ)
      → length total ≤ q * info.piece_length
      → q ≤ p
      → is_correct sha1 info total p ≡ false
  is_correct-past total q p h le =
      let past : length total ≤ p * info.piece_length = grind (arith, h, le) in
      let no_byte : ltb (p * info.piece_length) (length total) ≡ false = ground (arith, past) in
      rw (no_byte) refl

  start_answers : (p n : ℕ) → p < n → get_elem? (replicate n false) p ≡ some false
  start_answers p zero h = absurd (omega arith)
  start_answers zero (suc n) h = refl
  start_answers (suc p) (suc n) h = start_answers p n (omega (arith, h))

  -- The answers, when all has been read.
  unfoldable pub Answers : List ℕ → List Bool → Type 0
  Answers total answers =
      (length answers ≡ length info.pieces / 20)
      × ((p : ℕ)
          → p < length info.pieces / 20
          → get_elem? answers p ≡ some (is_correct sha1 info total p))

  zero_mul : (n : ℕ) → 0 * n ≡ 0
  zero_mul n = omega arith

  finish :
      (total : List ℕ) (k : ℕ) (w : Verifying)
      → Fits sha1 info total
      → Progress sha1 info total k [] w
      → Returns (Answers total) (
          if length w.partial == 0
          then done w.finished_pieces
          else check_piece sha1 info w.partial w)
  unfolding Answers
  finish total k w f g = elim (Bool-cases (length w.partial == 0)) [
    | inl none_left ↦
        let of_eq : length w.partial ≡ 0 = ground arith in
        let over : length total ≤ k * info.piece_length =
          omega (arith, ap length (append-nil w.partial), g.within, of_eq) in
        (
          w.finished_pieces,
          rw (none_left) refl,
          (
            g.sized,
            λ p lt. elim (Bool-cases (ltb p k)) [
              | inl before ↦ g.answered p (ground arith)
              | inr after ↦
                  g.open_ended p (ground arith) lt
                  ∙ ap some (sym (is_correct-past total k p over (ground arith)))
            ],
          ),
        )
    | inr some_left ↦
        let has : 0 < length (w.partial ++ []) = ground (arith, ap length (append-nil w.partial)) in
        let lt : k < length info.pieces / 20 = piece-lt sha1 info total k w [] f g has in
        let rest : w.partial ≡ drop (k * info.piece_length) total =
          sym (append-nil w.partial) ∙ g.left in
        let bytes : w.partial ≡ read_at (k * info.piece_length) info.piece_length total =
          rest
          ∙ sym (
              take_all info.piece_length (drop (k * info.piece_length) total)
                (subst (λ xs. length xs ≤ info.piece_length) rest (omega (arith, g.small)))) in
        let over : length total ≤ suc k * info.piece_length = omega (
          arith,
          g.within,
          g.small,
          ap length (append-nil w.partial),
          next_place sha1 info total k,
        ) in
        (
          set w.finished_pieces k (is_correct sha1 info total k),
          rw (some_left) (check_piece_lem sha1 info total k w.partial w [] f g bytes has),
          (
            length-set w.finished_pieces k (is_correct sha1 info total k) ∙ g.sized,
            λ p small. elim (Bool-cases (ltb p (suc k))) [
              | inl before ↦ set-answered sha1 info total k w [] g lt p (ground arith)
              | inr after ↦
                  get_elem?-set_ne w.finished_pieces k p (is_correct sha1 info total k)
                    (ground arith)
                  ∙ g.open_ended p (ground arith) small
                  ∙ ap some (sym (is_correct-past total (suc k) p over (ground arith)))
            ],
          ),
        )
  ]

  -- In a torrent with a positive piece length, if there are as many files as `Init` opens and there is a hash for each
  -- piece of what they hold, `Verify` returns one answer for each hash, and the answer for a piece is whether the
  -- bytes of the files, one file after the other, have a byte at its start and have its hash from there on for a piece
  -- length or until they end.
  pub verify_lem :
      (files : List (List ℕ))
      → length files ≡ count_files info.files
      → Fits sha1 info (contents files)
      → Returns (Answers (contents files)) (verify sha1 info files)
  unfolding verify
  verify_lem files l f =
      let answers : List Bool = replicate (length info.pieces / 20) false in
      let start : Progress sha1 info (contents files) 0 (contents files)
          (record { finished_pieces = answers; piece_index = 0; partial = [] }) =
        record {
          at = refl;
          within = omega arith;
          left = ap (λ n. drop n (contents files)) (sym (zero_mul info.piece_length));
          small = f.positive;
          sized = length-replicate (length info.pieces / 20) false;
          answered = λ p h. absurd (omega arith);
          open_ended = λ p _ h. start_answers p (length info.pieces / 20) h;
        } in
      let (w, e, (k, g)) = verify_entries-Progress info.files files _ l f start in
      let (answered, e', h) = finish (contents files) k w f g in (answered, rw e e', h)
