-- ===== src/DiskIo/Verify/Pieces.antt =====
-- `Verify` against the files as one run of bytes, cut into pieces.
use tulva.Prelude.{
  ◌&&◌, ℕ, suc, ◌+◌, ◌*◌, ◌/◌, ◌≤◌, ◌<◌, ◌≡◌, refl, ap, sym, ◌∙◌, subst, List, [], ◌∷◌, ◌++◌, Bool,
  true, false, some, ltb, ◌==◌, nat_eq, length, get_elem?, get_elem?-lt, get_elem?-set_self,
  get_elem?-set_ne, length-set, length-append, set, take, drop, equal_bytes, done, write, arith,
  Bool-cases, inl, inr,
}
use mathlib.Core.List.{append_assoc}
use tulva.Prelude.Slices.{take-length-append, drop-length-append, drop-drop}
use tulva.Torrent.{Info}
use tulva.DiskIo.Files.{read_at}
use tulva.DiskIo.Verify.{Verifying, check_hash, check_piece}

-- All that the files hold, one after the other.
abbrev pub contents : List (List ℕ) → List ℕ
contents [] = []
contents (file ∷ files) = file ++ contents files

module _ (sha1 : List ℕ → List ℕ) (info : Info) (total : List ℕ) where
  -- The answer for a piece: its bytes have the hash that the torrent gives.
  abbrev pub is_correct : ℕ → Bool
  is_correct p =
      ltb (p * info.piece_length) (length total)
      && equal_bytes (sha1 (read_at (p * info.piece_length) info.piece_length total))
          (read_at (p * 20) 20 info.pieces)

  -- What is known of the torrent and of the files: there is a hash for each piece of what they hold.
  pub record Fits : Type 0 where
    pub positive : 0 < info.piece_length
    pub enough : length total ≤ length info.pieces / 20 * info.piece_length

  -- `q` pieces have been answered; `stream` is what is still to be read.
  pub record Progress (q : ℕ) (stream : List ℕ) (v : Verifying) : Type 0 where
    pub at : v.piece_index ≡ q * 20
    pub within : q * info.piece_length + length (v.partial ++ stream) ≡ length total
    pub left : v.partial ++ stream ≡ drop (q * info.piece_length) total
    pub small : length v.partial < info.piece_length
    pub sized : length v.finished_pieces ≡ length info.pieces / 20
    pub answered : (p : ℕ) → p < q → get_elem? v.finished_pieces p ≡ some (is_correct p)
    pub open_ended :
        (p : ℕ) → q ≤ p → p < length info.pieces / 20 → get_elem? v.finished_pieces p ≡ some false

  lt_of_mul : (q n l : ℕ) → q * l < n * l → q < n
  lt_of_mul q n l h = elim (Bool-cases (ltb q n)) [
    | inl lt ↦ ground arith
    | inr ge ↦ let le : n ≤ q = ground arith in absurd (grind arith)
  ]

  -- There is a hash for a piece that has a byte.
  pub piece-lt :
      (q : ℕ) (v : Verifying) (stream : List ℕ)
      → Fits
      → Progress q stream v
      → 0 < length (v.partial ++ stream)
      → q < length info.pieces / 20
  piece-lt q v stream f g h =
      lt_of_mul q (length info.pieces / 20) info.piece_length (omega (arith, f.enough, g.within, h))

  -- A piece is checked: `buf` is what the total has from its place on.
  pub check_piece_lem :
      (q : ℕ) (buf : List ℕ) (v : Verifying) (stream : List ℕ)
      → Fits
      → Progress q stream v
      → buf ≡ read_at (q * info.piece_length) info.piece_length total
      → 0 < length (v.partial ++ stream)
      → check_piece sha1 info buf v ≡ done (set v.finished_pieces q (is_correct q))
  unfolding check_hash
  check_piece_lem q buf v stream f g e h =
      let lt : q < length info.pieces / 20 = piece-lt q v stream f g h in
      let here : ltb (q * info.piece_length) (length total) ≡ true = ground (arith, g.within) in
      let whole : ltb (length info.pieces) (v.piece_index + 20) ≡ false = ground (arith, g.at) in
      let place : v.piece_index / 20 ≡ q = omega (arith, g.at) in
      let hashed : check_hash sha1 info buf v.piece_index ≡ done (is_correct q) =
        (rw (whole) refl)
        ∙ ap (λ n. done (equal_bytes (sha1 buf) (read_at n 20 info.pieces))) g.at
        ∙ (rw (e, here) refl) in
      let (old, found) = get_elem?-lt v.finished_pieces q (omega (arith, g.sized)) in
      rw (hashed, place, write, found, place) refl

  pub set-answered :
      (q : ℕ) (v : Verifying) (stream : List ℕ)
      → Progress q stream v
      → q < length info.pieces / 20
      → (p : ℕ) → p < suc q
      → get_elem? (set v.finished_pieces q (is_correct q)) p ≡ some (is_correct p)
  set-answered q v stream g lt p h = elim (Bool-cases (q == p)) [
    | inl same ↦
        let e : q ≡ p = ground arith in
        subst (λ r. get_elem? (set v.finished_pieces q (is_correct q)) r ≡ some (is_correct r)) e
          (get_elem?-set_self v.finished_pieces q (is_correct q) (omega (arith, g.sized)))
    | inr other ↦
        get_elem?-set_ne v.finished_pieces q p (is_correct q) (ground arith)
        ∙ g.answered p (ground arith)
  ]

  split_lem : (a b d : List ℕ) → a ++ b ≡ d → (take (length a) d ≡ a) × (drop (length a) d ≡ b)
  split_lem a b d e = (
    ap (take (length a)) (sym e) ∙ take-length-append a b,
    ap (drop (length a)) (sym e) ∙ drop-length-append a b,
  )

  pub next_place : (q : ℕ) → q * info.piece_length + info.piece_length ≡ suc q * info.piece_length
  next_place q = grind arith

  -- A round that has filled the buffer.
  pub Progress-full :
      (q : ℕ) (got rest : List ℕ) (v : Verifying)
      → Fits
      → Progress q (got ++ rest) v
      → length (v.partial ++ got) ≡ info.piece_length
      → (check_piece sha1 info (v.partial ++ got) v ≡ done (set v.finished_pieces q (is_correct q)))
        × Progress (suc q) rest (record {
          finished_pieces = set v.finished_pieces q (is_correct q);
          piece_index = v.piece_index + 20;
          partial = [];
        })
  Progress-full q got rest v f g full =
      let whole : (v.partial ++ got) ++ rest ≡ drop (q * info.piece_length) total =
        append_assoc v.partial got rest ∙ g.left in
      let (buf, remains) =
        split_lem (v.partial ++ got) rest (drop (q * info.piece_length) total) whole in
      let some_ : 0 < length (v.partial ++ (got ++ rest)) = omega (
        arith,
        ap length (append_assoc v.partial got rest),
        length-append (v.partial ++ got) rest,
        f.positive,
        full,
      ) in
      let lt : q < length info.pieces / 20 = piece-lt q v (got ++ rest) f g some_ in
      (
        check_piece_lem q (v.partial ++ got) v (got ++ rest) f g
            (sym buf ∙ ap (λ n. take n (drop (q * info.piece_length) total)) full) some_,
        record {
          at = omega (arith, g.at);
          within = omega (
            arith,
            next_place q,
            ap length (append_assoc v.partial got rest),
            length-append (v.partial ++ got) rest,
            full,
            g.within,
          );
          left =
              sym remains
              ∙ ap (λ n. drop n (drop (q * info.piece_length) total)) full
              ∙ drop-drop (q * info.piece_length) info.piece_length total
              ∙ ap (λ n. drop n total) (next_place q);
          small = f.positive;
          sized = length-set v.finished_pieces q (is_correct q) ∙ g.sized;
          answered = set-answered q v (got ++ rest) g lt;
          open_ended = λ p le small.
              get_elem?-set_ne v.finished_pieces q p (is_correct q) (ground arith)
              ∙ g.open_ended p (omega (arith, le)) small;
        },
      )
