-- ===== src/Peer/Healthy/Cancel.antt =====
-- peer.go: a piece that the controller cancels is dropped, and nothing else.
use tulva.Prelude.{
  ℕ, zero, suc, ◌-◌, ◌≡◌, refl, ap, ◌∙◌, List, [], ◌∷◌, ◌++◌, Bool, true, false, not, ◌&&◌, some,
  none, inl, inr, ◌==◌, nat_eq, length, get_elem?, set, filterb, arith, Bool-cases, Option-cases,
}
use mathlib.Core.List.{append-nil}
use mathlib.Core.Option.{some-injective}
use tulva.Peer.State.{PieceDownload}
use tulva.Peer.Downloads.{
  have_current_downloads, find_index, get_piece_download, move_finished_piece_downloads_to_end,
  finish_at, process_cancel_from_controller,
}
use tulva.Peer.Healthy.{Healthy, process_cancel_from_controller-Healthy}
use tulva.Peer.Healthy.Start.{find_index_lem}

-- The unfinished downloads of the piece, and those of other pieces.
abbrev pub is_of : ℕ → PieceDownload → Bool
is_of n d = not d.is_finished && d.piece_num == n

abbrev pub is_of_other : ℕ → PieceDownload → Bool
is_of_other n d = not d.is_finished && not (d.piece_num == n)

module _ (p : PieceDownload → Bool) where
  filterb-append :
      (xs ys : List PieceDownload) → filterb p (xs ++ ys) ≡ filterb p xs ++ filterb p ys
  filterb-append [] ys = refl
  filterb-append (x ∷ xs) ys = elim (Bool-cases (p x)) [
    | inl h ↦ rw h (ap (λ r. x ∷ r) (filterb-append xs ys))
    | inr h ↦ rw h (filterb-append xs ys)
  ]

  -- The test fails on a download that is replaced, and on the one in its place.
  filterb-set :
      (ds : List PieceDownload) (i : ℕ) (d d' : PieceDownload)
      → get_elem? ds i ≡ some d
      → p d ≡ false
      → p d' ≡ false
      → filterb p (set ds i d') ≡ filterb p ds
  filterb-set [] i d d' e f g = absurd (ground arith)
  filterb-set (x ∷ ds) zero d d' e f g =
      let miss : p x ≡ false = ap p (some-injective _ _ e) ∙ f in rw (g, miss) refl
  filterb-set (x ∷ ds) (suc i) d d' e f g = elim (Bool-cases (p x)) [
    | inl h ↦ rw h (ap (λ r. x ∷ r) (filterb-set ds i d d' e f g))
    | inr h ↦ rw h (filterb-set ds i d d' e f g)
  ]

  -- The test passes on a download that is replaced, and fails on the one in its place.
  length-filterb-set :
      (ds : List PieceDownload) (i : ℕ) (d d' : PieceDownload)
      → get_elem? ds i ≡ some d
      → p d ≡ true
      → p d' ≡ false
      → suc (length (filterb p (set ds i d'))) ≡ length (filterb p ds)
  length-filterb-set [] i d d' e f g = absurd (ground arith)
  length-filterb-set (x ∷ ds) zero d d' e f g =
      let hit : p x ≡ true = ap p (some-injective _ _ e) ∙ f in rw (g, hit) refl
  length-filterb-set (x ∷ ds) (suc i) d d' e f g = elim (Bool-cases (p x)) [
    | inl h ↦ rw h (ap suc (length-filterb-set ds i d d' e f g))
    | inr h ↦ rw h (length-filterb-set ds i d d' e f g)
  ]

  find_index-none : (ds : List PieceDownload) → find_index p ds ≡ none → filterb p ds ≡ []
  find_index-none [] e = refl
  find_index-none (d ∷ ds) e = elim (Bool-cases (p d)) [
    | inl h ↦ absurd (ground arith)
    | inr h ↦ elim (Option-cases (find_index p ds)) [
      | inl n ↦ rw h (find_index-none ds n)
      | inr (i, m) ↦ absurd (ground arith)
    ]
  ]

  -- A test that only unfinished downloads pass finds nothing when there is no work, and does not see the move.
  idle-filterb :
      ((d : PieceDownload) → d.is_finished ≡ true → p d ≡ false)
      → (ds : List PieceDownload) → have_current_downloads ds ≡ false
      → filterb p ds ≡ []
  unfolding have_current_downloads
  idle-filterb only [] e = refl
  idle-filterb only (d ∷ ds) e =
      let closed : d.is_finished ≡ true = ground arith in
      rw (only d closed) (idle-filterb only ds (ground arith))

  failed-filterb :
      (q : PieceDownload → Bool)
      → ((d : PieceDownload) → q d ≡ true → p d ≡ false)
      → (ds : List PieceDownload) → filterb p (filterb q ds) ≡ []
  failed-filterb q only [] = refl
  failed-filterb q only (d ∷ ds) = elim (Bool-cases (q d)) [
    | inl h ↦ rw (h, only d h) (failed-filterb q only ds)
    | inr h ↦ rw h (failed-filterb q only ds)
  ]

  passed-filterb :
      (q : PieceDownload → Bool)
      → ((d : PieceDownload) → q d ≡ false → p d ≡ false)
      → (ds : List PieceDownload) → filterb p (filterb q ds) ≡ filterb p ds
  passed-filterb q only [] = refl
  passed-filterb q only (d ∷ ds) = elim (Bool-cases (q d)) [
    | inl h ↦ elim (Bool-cases (p d)) [
      | inl g ↦ rw (h, g) (ap (λ r. d ∷ r) (passed-filterb q only ds))
      | inr g ↦ rw (h, g) (passed-filterb q only ds)
    ]
    | inr h ↦ rw (h, only d h) (passed-filterb q only ds)
  ]

  moved-filterb :
      ((d : PieceDownload) → d.is_finished ≡ true → p d ≡ false)
      → (ds : List PieceDownload)
      → filterb p (move_finished_piece_downloads_to_end ds) ≡ filterb p ds
  unfolding move_finished_piece_downloads_to_end
  moved-filterb only ds =
      filterb-append (filterb (λ d. not d.is_finished) ds) (filterb (λ d. d.is_finished) ds)
      ∙ (rw
          (
            passed-filterb (λ d. not d.is_finished) (λ d h. only d (ground (arith, h))) ds,
            failed-filterb (λ d. d.is_finished) only ds,
          )
          (append-nil (filterb p ds)))

-- The download of the piece is gone from the work, and the other work is the same.
abbrev pub Dropped : ℕ → List PieceDownload → List PieceDownload → Type 0
Dropped n ds ds' =
    (filterb (is_of_other n) ds' ≡ filterb (is_of_other n) ds)
    × (length (filterb (is_of n) ds') ≡ length (filterb (is_of n) ds) - 1)

finish_at-Dropped :
    (n : ℕ) (ds : List PieceDownload) (i : ℕ)
    → find_index (is_of n) ds ≡ some i
    → Dropped n ds (finish_at i ds)
finish_at-Dropped n ds i e =
    let (d, at, hit) = find_index_lem (is_of n) ds i e in
    let closed : PieceDownload = record d { is_finished = true } in
    rw (finish_at, at)
      (
        filterb-set (is_of_other n) ds i d closed at (ground arith) refl,
        omega (arith, length-filterb-set (is_of n) ds i d closed at hit refl),
      )

-- If the downloads are healthy and the controller cancels a piece, the unfinished downloads of other pieces are the same
-- as before, in the same order; there is one unfinished download of the piece less than before, or none if there was
-- none; and the downloads are healthy.
pub process_cancel_from_controller-Dropped :
    (n : ℕ) (ds : List PieceDownload)
    → Healthy ds
    → Dropped n ds (process_cancel_from_controller n ds)
      × Healthy (process_cancel_from_controller n ds)
unfolding process_cancel_from_controller get_piece_download
process_cancel_from_controller-Dropped n ds v =
    (dropped, process_cancel_from_controller-Healthy n ds v)
  where
    closed : (d : PieceDownload) → d.is_finished ≡ true → is_of n d ≡ false
    closed d h = rw h refl

    closed_other : (d : PieceDownload) → d.is_finished ≡ true → is_of_other n d ≡ false
    closed_other d h = rw h refl

    none_left : filterb (is_of n) ds ≡ [] → Dropped n ds ds
    none_left e = (refl, rw e refl)

    dropped : Dropped n ds (process_cancel_from_controller n ds)
    dropped = elim (Bool-cases (have_current_downloads ds)) [
      | inr idle ↦ rw idle (none_left (idle-filterb (is_of n) closed ds idle))
      | inl work ↦ elim (Option-cases (find_index (is_of n) ds)) [
        | inl e ↦ rw (work, e) (none_left (find_index-none (is_of n) ds e))
        | inr (i, e) ↦
            let (other, one) = finish_at-Dropped n ds i e in
            rw (work, e)
              (
                moved-filterb (is_of_other n) closed_other (finish_at i ds) ∙ other,
                ap length (moved-filterb (is_of n) closed (finish_at i ds)) ∙ one,
              )
      ]
    ]
