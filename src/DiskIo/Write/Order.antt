-- ===== src/DiskIo/Write/Order.antt =====
-- Pieces that are written in another order.
use tulva.Prelude.{
  ◌≢◌, ℕ, ◌+◌, ◌*◌, ◌≤◌, ◌<◌, ◌≡◌, sym, ◌∙◌, List, false, ◌&&◌, ltb, nat_eq, length, done, ◌>>=◌,
  arith, Bool-cases, inl, inr,
}
use tulva.Pieces.{Piece}
use tulva.Torrent.{Info}
use tulva.DiskIo.Files.{inside}
use tulva.DiskIo.Write.{write_piece}
use tulva.DiskIo.Write.Volume.{overwrite, byte_of, IsOpen, InVolume, write_piece-BytesWritten}

-- Two pieces of the torrent do not share a place.
apart : (i j l k : ℕ) → i < j → i * l ≤ k → k < i * l + l → k < j * l
apart i j l k h a b = grind arith

pub apart_either :
    (i j l m n k : ℕ) → i ≢ j → m ≤ l → n ≤ l → (inside (i * l) m k && inside (j * l) n k) ≡ false
apart_either i j l m n k ne lm ln = elim (Bool-cases (inside (i * l) m k && inside (j * l) n k)) [
  | inr e ↦ e
  | inl e ↦ absurd (elim (Bool-cases (ltb i j)) [
    | inl lt ↦ ground (arith, apart i j l k)
    | inr ge ↦ ground (arith, apart j i l k)
  ])
]

overwrite_swap :
    (o o' : ℕ) (bytes bytes' : List ℕ) (v w old : ℕ → ℕ) (k : ℕ)
    → v k ≡ overwrite o bytes old k
    → w k ≡ overwrite o' bytes' old k
    → (inside o (length bytes) k && inside o' (length bytes') k) ≡ false
    → overwrite o' bytes' v k ≡ overwrite o bytes w k
overwrite_swap o o' bytes bytes' v w old k e e' d = ground arith

-- When the files are open, two different pieces, neither longer than the piece length, that are written in
-- either order leave the same volume; so the order in which the goroutines of `Run` write does not matter.
pub write_piece_comm :
    (info : Info) (files : List (List ℕ)) (p q : Piece)
    → IsOpen info.files files
    → p.index ≢ q.index
    → length p.bytes ≤ info.piece_length
    → length q.bytes ≤ info.piece_length
    → (pq qp : List (List ℕ)) × ((write_piece info files p >>= λ fs. write_piece info fs q)
        ≡ done pq)
      × ((write_piece info files q >>= λ fs. write_piece info fs p) ≡ done qp)
      × ((k : ℕ) → InVolume info.files k → byte_of info.files pq k ≡ byte_of info.files qp k)
write_piece_comm info files p q o ne lp lq =
    let (fp, ep, (op, vp)) = write_piece-BytesWritten info files p o in
    let (fpq, epq, (_, vpq)) = write_piece-BytesWritten info fp q op in
    let (fq, eq, (oq, vq)) = write_piece-BytesWritten info files q o in
    let (fqp, eqp, (_, vqp)) = write_piece-BytesWritten info fq p oq in
    (
      fpq,
      fqp,
      rw ep epq,
      rw eq eqp,
      λ k h.
          vpq k h
          ∙ overwrite_swap (p.index * info.piece_length) (q.index * info.piece_length) p.bytes
              q.bytes (byte_of info.files fp) (byte_of info.files fq) (byte_of info.files files) k
              (vp k h) (vq k h)
              (apart_either p.index q.index info.piece_length (length p.bytes) (length q.bytes) k ne
                lp lq)
          ∙ sym (vqp k h),
    )
