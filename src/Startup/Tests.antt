-- ===== src/Startup/Tests.antt =====
-- A session that starts with one correct piece of four.
use tulva.Prelude.{ℕ, ◌*◌, ◌≡◌, refl, List, [], ◌∷◌, ◌++◌, take, replicate, Returns, arith}
use tulva.Prelude.Int.{pos, ◌-ℤ◌}
use tulva.Torrent.{Info, init}
use tulva.Torrent.BytesLeft.{count_finished}
use tulva.DiskIo.Verify.Pieces.{contents}
use tulva.DiskIo.Verify.Answers.{Answers}
use tulva.Controller.Invariant.{Inv}
use tulva.Startup.{start, start-Inv}

abbrev padded_hash : List ℕ → List ℕ
padded_hash xs = take 20 (xs ++ replicate 20 0)

abbrev two_files : Info
two_files = record {
  piece_length = 2;
  pieces = 1 ∷ 2 ∷ replicate 78 0;
  name = "album";
  length = 0;
  files = record { length = 3; path = "a" ∷ [] } ∷ record { length = 4; path = "b" ∷ [] } ∷ [];
}

abbrev on_disk : List (List ℕ)
on_disk = (1 ∷ 2 ∷ 3 ∷ []) ∷ (4 ∷ 5 ∷ 6 ∷ 7 ∷ []) ∷ []

start-Inv_example :
    Returns
      (λ s.
        Answers padded_hash (init two_files) (contents on_disk) s.pieces
        × Inv s.controller
        × (s.stats.left
            ≡ pos (init two_files).length
              -ℤ pos (count_finished s.pieces * (init two_files).piece_length)))
      (start padded_hash two_files on_disk)
unfolding init
start-Inv_example =
    start-Inv padded_hash two_files on_disk refl
      (record { positive = omega arith; enough = omega arith }) (omega arith)
