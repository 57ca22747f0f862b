-- ===== src/DiskIo/Verify/Hashes.antt =====
-- The hash that `checkHash` reads, and the one that the controller hands to the peers.
use tulva.Prelude.{
  ℕ, ◌+◌, ◌*◌, ◌≡◌, refl, ap, sym, ◌∙◌, List, false, some, ltb, length, get_elem?, lt-get_elem?,
  equal_bytes, done, arith,
}
use mathlib.Core.Option.{some-injective}
use tulva.Torrent.{Info, piece_hashes}
use tulva.Torrent.Hashes.{piece_hashes_lem}
use tulva.DiskIo.Files.{read_at}
use tulva.DiskIo.Verify.{check_hash}

-- For a piece that has a hash in the slice that the controller gets, `checkHash` at 20 times its index has no index out
-- of range, and compares with that same hash.
pub check_hash-piece_hashes :
    (sha1 : List ℕ → List ℕ) (info : Info) (buf : List ℕ) (i : ℕ) (hash : List ℕ)
    → get_elem? (piece_hashes info) i ≡ some hash
    → check_hash sha1 info buf (i * 20) ≡ done (equal_bytes (sha1 buf) hash)
unfolding check_hash
check_hash-piece_hashes sha1 info buf i hash e =
    let (l, at) = piece_hashes_lem info in
    let lt = lt-get_elem? (piece_hashes info) i e in
    let here : ltb (length info.pieces) (i * 20 + 20) ≡ false = ground (arith, l, lt) in
    let same : read_at (i * 20) 20 info.pieces ≡ hash =
      some-injective _ _ (sym (at i (omega (arith, l, lt))) ∙ e) in
    (rw here refl) ∙ ap (λ h. done (equal_bytes (sha1 buf) h)) same
