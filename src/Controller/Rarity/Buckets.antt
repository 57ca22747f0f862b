-- ===== src/Controller/Rarity/Buckets.antt =====
-- What `put` keeps: each piece stands in the bucket of its rank.
use tulva.Prelude.{
  ℕ, ◌+◌, ◌≡◌, refl, List, [], ◌∷◌, ◌++◌, some, false, not, ◌==◌, ==-refl, All, All-append, sum_map,
  sum_map-append, arith, nat_eq, Option-cases, inl, inr,
}
use tulva.Prelude.Dict.{
  lookup, Distinct, insert-Distinct, lookup-insert, sum_map-insert, sum_map-insert_new, All-insert,
  All-lookup,
}
use tulva.Controller.Rarity.{RarityMap, new_rarity_map, bucket, put, with_key}

-- Each piece stands in the bucket of its rank.
abbrev pub Ranked : (ℕ → ℕ) → List (ℕ × List ℕ) → Type 0
Ranked f m = All (λ entry. All (λ p. not (f p == entry.0) ≡ false) entry.1) m

abbrev pub total : (ℕ → ℕ) → List (ℕ × List ℕ) → ℕ
total g m = sum_map (λ entry. sum_map g entry.1) m

-- A map that `put` has filled from the pieces' ranks.
pub record IsGrouped (f : ℕ → ℕ) (r : RarityMap) : Type 0 where
  pub distinct : Distinct r.pieces_of
  pub ranked : Ranked f r.pieces_of

pub new_rarity_map-IsGrouped : (f : ℕ → ℕ) → IsGrouped f new_rarity_map
unfolding new_rarity_map
new_rarity_map-IsGrouped f = record { distinct = tt; ranked = tt }

pub total-new_rarity_map : (g : ℕ → ℕ) → total g new_rarity_map.pieces_of ≡ 0
unfolding new_rarity_map
total-new_rarity_map g = refl

pub bucket_found :
    (m : List (ℕ × List ℕ)) (k : ℕ) {ps : List ℕ} → lookup k m ≡ some ps → bucket m k ≡ ps
unfolding bucket
bucket_found m k e = rw (e, bucket)

pub bucket-cons_self : (k : ℕ) (v : List ℕ) (m : List (ℕ × List ℕ)) → bucket ((k, v) ∷ m) k ≡ v
unfolding bucket
bucket-cons_self k v m = ground (arith, ==-refl k)

pub bucket-cons_ne :
    (k j : ℕ) (v : List ℕ) (m : List (ℕ × List ℕ))
    → (k == j) ≡ false
    → bucket ((k, v) ∷ m) j ≡ bucket m j
unfolding bucket
bucket-cons_ne k j v m h = ground arith

module _ (f : ℕ → ℕ) (rarity : ℕ) (m : List (ℕ × List ℕ)) where
  -- After the first step the key is there, and nothing else has changed.
  record HasKey (m' : List (ℕ × List ℕ)) : Type 0 where
    pieces : List ℕ
    found : lookup rarity m' ≡ some pieces
    distinct : Distinct m'
    ranked : Ranked f m'
    same_total : (g : ℕ → ℕ) → total g m' ≡ total g m

  with_key-HasKey : Distinct m → Ranked f m → HasKey (with_key rarity m)
  unfolding with_key
  with_key-HasKey d v = elim (Option-cases (lookup rarity m)) [
    | inl e ↦
        rw (e, with_key)
          (record {
            pieces = [];
            found = rw (lookup-insert rarity rarity [] m, ==-refl rarity);
            distinct = insert-Distinct rarity [] m d;
            ranked =
                All-insert (λ entry. All (λ p. not (f p == entry.0) ≡ false) entry.1) rarity [] m v
                  tt;
            same_total =
                λ g. omega (arith, sum_map-insert_new (λ entry. sum_map g entry.1) rarity [] m e);
          })
    | inr (ps, e) ↦
        rw (e, with_key)
          (record { pieces = ps; found = e; distinct = d; ranked = v; same_total = λ g. refl })
  ]

module _ (f : ℕ → ℕ) (r : RarityMap) (piece : ℕ) (v : IsGrouped f r) where
  keyed : HasKey f (f piece) r.pieces_of (with_key (f piece) r.pieces_of)
  keyed = with_key-HasKey f (f piece) r.pieces_of v.distinct v.ranked

  pub put-IsGrouped : IsGrouped f (put r (f piece) piece)
  unfolding put
  put-IsGrouped = record {
    distinct = insert-Distinct (f piece) _ (with_key (f piece) r.pieces_of) keyed.distinct;
    ranked =
        All-insert (λ entry. All (λ p. not (f p == entry.0) ≡ false) entry.1) (f piece) _
          (with_key (f piece) r.pieces_of) keyed.ranked
          (rw (bucket_found _ _ keyed.found) (
            All-append (λ p. not (f p == f piece) ≡ false) keyed.pieces (piece ∷ [])
              (All-lookup (λ entry. All (λ p. not (f p == entry.0) ≡ false) entry.1) (f piece)
                (with_key (f piece) r.pieces_of) keyed.ranked keyed.found)
              (rw (==-refl (f piece)) (refl, tt))));
  }

  -- One more piece is in the map, and the others are as they were.
  pub total-put :
      (g : ℕ → ℕ) → total g (put r (f piece) piece).pieces_of ≡ total g r.pieces_of + g piece
  unfolding put
  total-put g = rw (bucket_found _ _ keyed.found) (
      omega (
        arith,
        sum_map-insert (λ entry. sum_map g entry.1) (f piece) (keyed.pieces ++ (piece ∷ []))
            (with_key (f piece) r.pieces_of) keyed.found,
        sum_map-append g keyed.pieces (piece ∷ []),
        keyed.same_total g,
      ))
