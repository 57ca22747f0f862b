-- ===== src/Startup.antt =====
-- torrent.go, `Run`: how the parts of a session are made from the torrent and from what is on the disk.
mod Tests
use tulva.Prelude.{
  ◌⊎◌, inl, inr, ℕ, ◌+◌, ◌*◌, ◌/◌, ◌≤◌, ◌<◌, ◌≡◌, refl, ap, sym, ◌∙◌, List, Bool, length, Outcome,
  done, ◌>>=◌, Returns, arith,
}
use tulva.Prelude.Int.{ℤ, pos, ◌-ℤ◌}
use tulva.Torrent.{Info, init, calc_bytes_left, piece_hashes}
use tulva.Torrent.Hashes.{piece_hashes_lem}
use tulva.Torrent.BytesLeft.{count_finished, calc_bytes_left-count}
use tulva.DiskIo.Verify.{verify}
use tulva.DiskIo.Verify.Pieces.{contents, Fits}
use tulva.DiskIo.Verify.Answers.{count_files, Answers, verify_lem}
use tulva.Statistics.{Stats, new_stats}
use tulva.Controller.State.{Controller, new_controller}
use tulva.Controller.Invariant.{Inv}
use tulva.Controller.Run.Steps.{new_controller-Inv}

-- The parts that depend on the pieces.
pub record Started : Type 0 where
  pub pieces : List Bool
  pub stats : Stats
  pub controller : Controller

-- `files` is what the disk has once `diskIO.Init` has opened them.
unfoldable pub start : (List ℕ → List ℕ) → Info → List (List ℕ) → Outcome Started
start sha1 info files = do
  let t = init info
  pieces ← verify sha1 t files
  controller ← new_controller pieces (piece_hashes t)
  done (record {
    pieces = pieces;
    stats = new_stats (calc_bytes_left (pos t.length) t.piece_length pieces);
    controller = controller;
  })

-- If as many files are open as the torrent names, the piece length is positive, and there is a hash for each piece of
-- what the files hold and at least one hash, a session starts with no fatal error: each piece is marked as its bytes
-- are correct, the controller satisfies its invariant, and the bytes left are the length less a piece length for each
-- correct piece.
pub start-Inv :
    (sha1 : List ℕ → List ℕ) (info : Info) (files : List (List ℕ))
    → length files ≡ count_files (init info).files
    → Fits sha1 (init info) (contents files)
    → 20 ≤ length (init info).pieces
    → Returns
        (λ s.
          Answers sha1 (init info) (contents files) s.pieces
          × Inv s.controller
          × (s.stats.left
              ≡ pos (init info).length -ℤ pos (count_finished s.pieces * (init info).piece_length)))
        (start sha1 info files)
unfolding start Answers
start-Inv sha1 info files l f h =
    let t : Info = init info in
    let (pieces, e, answers) = verify_lem sha1 t files l f in
    let (hashes, _) = piece_hashes_lem t in
    elim (new_controller-Inv pieces (piece_hashes t)) [
      | inl (_, _, (c, e', v)) ↦ (
        record {
          pieces = pieces;
          stats = new_stats (calc_bytes_left (pos t.length) t.piece_length pieces);
          controller = c;
        },
        rw (e, e') refl,
        (answers, v, calc_bytes_left-count (pos t.length) t.piece_length pieces),
      )
      | inr (inl none_, _) ↦ absurd (omega (arith, none_, answers.0, h))
      | inr (inr differ, _) ↦ absurd (differ (hashes ∙ sym answers.0))
    ]
