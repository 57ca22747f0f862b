-- ===== src/DiskIo/Verify/Rounds.antt =====
-- The loops of `Verify` keep the progress over the pieces, and come to the end of the files.
use tulva.Prelude.{
  ℕ, zero, suc, ◌+◌, ◌-◌, ◌*◌, ◌<◌, ◌≡◌, refl, ap, sym, ◌∙◌, subst, List, [], ◌∷◌, ◌++◌, ltb,
  nat_eq, length, length-append, take, drop, Returns, arith, Bool-cases, inl, inr,
}
use mathlib.Core.List.{append_assoc}
use tulva.Prelude.Slices.{length-take, length-drop, take-drop, take_all, drop-drop}
use tulva.Torrent.{Info, FileEntry}
use tulva.DiskIo.Files.{read_at}
use tulva.DiskIo.Verify.{Verifying, verify_rounds, rounds_for, verify_files}
use tulva.DiskIo.Verify.Pieces.{contents, Fits, Progress, Progress-full}

module _ (sha1 : List ℕ → List ℕ) (info : Info) (total : List ℕ) where
  -- The rounds over a file.
  pub verify_rounds-Progress :
      (fuel offset q : ℕ) (file later : List ℕ) (v : Verifying)
      → Fits sha1 info total
      → Progress sha1 info total q (drop offset file ++ later) v
      → length file - offset < fuel
      → Returns
          (λ w. (k : ℕ) × Progress sha1 info total k later w)
          (verify_rounds sha1 fuel info file offset v)
  unfolding verify_rounds
  verify_rounds-Progress zero offset q file later v f g lt = absurd (omega (arith, lt))
  verify_rounds-Progress (suc fuel) offset q file later v f g lt =
      let r : List ℕ = drop offset file in
      let wanted : ℕ = info.piece_length - length v.partial in
      elim (Bool-cases (ltb (length (read_at offset wanted file)) wanted)) [
        | inl short ↦
            let all : take wanted r ≡ r =
              take_all wanted r (ground (arith, length-take wanted r)) in
            (
              record v { partial = v.partial ++ r },
              rw (short, all) refl,
              (
                q,
                record {
                  at = g.at;
                  within =
                      ap (λ xs. q * info.piece_length + length xs) (append_assoc v.partial r later)
                      ∙ g.within;
                  left = append_assoc v.partial r later ∙ g.left;
                  small = ground (arith, length-append v.partial r, length-take wanted r, g.small);
                  sized = g.sized;
                  answered = g.answered;
                  open_ended = g.open_ended;
                },
              ),
            )
        | inr filled ↦
            let got : List ℕ = take wanted r in
            let after : drop wanted r ≡ drop (offset + wanted) file =
              drop-drop offset wanted file in
            let cut : r ++ later ≡ got ++ (drop (offset + wanted) file ++ later) =
              ap (λ xs. xs ++ later) (sym (take-drop wanted r))
              ∙ append_assoc got (drop wanted r) later
              ∙ ap (λ xs. got ++ (xs ++ later)) after in
            let full : length (v.partial ++ got) ≡ info.piece_length =
              ground (arith, length-append v.partial got, length-take wanted r, g.small) in
            let (checked, g') =
              Progress-full sha1 info total q got (drop (offset + wanted) file ++ later) v f
                (subst (λ xs. Progress sha1 info total q xs v) cut g) full in
            let shorter : length file - (offset + wanted) < fuel =
              ground (arith, length-take wanted r, length-drop offset file, g.small, lt) in
            let (w, e, h) =
              verify_rounds-Progress fuel (offset + wanted) (suc q) file later _ f g' shorter in
            (w, rw (filled, checked) e, h)
      ]

  pub verify_files-Progress :
      (entries : List FileEntry) (files : List (List ℕ)) (q : ℕ) (v : Verifying)
      → length files ≡ length entries
      → Fits sha1 info total
      → Progress sha1 info total q (contents files) v
      → Returns
          (λ w. (k : ℕ) × Progress sha1 info total k [] w)
          (verify_files sha1 info entries files v)
  unfolding verify_files
  verify_files-Progress [] [] q v l f g = (v, refl, (q, g))
  verify_files-Progress [] (file ∷ files) q v l f g = absurd (omega arith)
  verify_files-Progress (entry ∷ entries) [] q v l f g = absurd (omega arith)
  verify_files-Progress (entry ∷ entries) (file ∷ files) q v l f g =
      let (w, e, (k, h)) =
        verify_rounds-Progress (rounds_for sha1 info file) 0 q file (contents files) v f g
          (omega arith) in
      let (u, e', i) = verify_files-Progress entries files k w (omega (arith, l)) f h in
      (u, rw e e', i)
