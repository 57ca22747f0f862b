-- ===== src/Controller/Rarity/Order.antt =====
-- The order that `getPiecesByRarity` gives: every piece that was put, once for each time, the rarest first.
use tulva.Prelude.{
  ℕ, ◌≡◌, refl, List, [], ◌∷◌, ◌++◌, none, Bool, true, false, not, leb, ◌==◌, All, All-append,
  All-map, Returns, sum_map, sum_map-append, All-SameItems, arith, nat_eq, Option-cases, inl, inr,
  ◌∙◌,
}
use tulva.Prelude.Dict.{lookup, Distinct, All-lookup}
use tulva.Prelude.Sort.{sort, IsOrder, IsSorted, sort-IsSorted, sort-SameItems}
use tulva.Controller.Rarity.{
  RarityMap, bucket, Rand, pieces_in_order, rarities, get_pieces_by_rarity,
}
use tulva.Controller.Rarity.Shuffled.{shuffle-SameItems}
use tulva.Controller.Rarity.Buckets.{Ranked, total, IsGrouped, bucket-cons_self, bucket-cons_ne}

bucket-rest :
    (g : ℕ → ℕ) (k : ℕ) (v : List ℕ) (m : List (ℕ × List ℕ)) (ks : List ℕ)
    → All (λ j. (k == j) ≡ false) ks
    → sum_map (λ j. sum_map g (bucket ((k, v) ∷ m) j)) ks ≡ sum_map (λ j. sum_map g (bucket m j)) ks
bucket-rest g k v m [] h = refl
bucket-rest g k v m (j ∷ ks) h =
    rw (bucket-cons_ne k j v m h.0) (omega (arith, bucket-rest g k v m ks h.1))

absent :
    (k : ℕ) (m : List (ℕ × List ℕ)) → lookup k m ≡ none → All (λ j. (k == j) ≡ false) (rarities m)
absent k [] e = tt
absent k ((j, v) ∷ m) e = (ground arith, absent k m (ground arith))

-- The buckets of the keys hold what the map holds.
sum_map-rarities :
    (g : ℕ → ℕ) (m : List (ℕ × List ℕ))
    → Distinct m
    → sum_map (λ j. sum_map g (bucket m j)) (rarities m) ≡ total g m
sum_map-rarities g [] d = refl
sum_map-rarities g ((k, v) ∷ m) d =
    rw (bucket-cons_self k v m)
      (omega (arith, bucket-rest g k v m (rarities m) (absent k m d.0), sum_map-rarities g m d.1))

module _ (rand : Rand) (f : ℕ → ℕ) (m : List (ℕ × List ℕ)) (ranked : Ranked f m) where
  abbrev rank_le : ℕ → ℕ → Bool
  rank_le a b = leb (f a) (f b)

  -- What the loop over the keys `ks` returns: sorted by rank, no rank below the keys, nothing lost.
  record InOrder (ks ps : List ℕ) : Type 0 where
    sorted : IsSorted rank_le ps
    above : (lo : ℕ) → All (λ k. leb lo k ≡ true) ks → All (λ p. leb lo (f p) ≡ true) ps
    items : (g : ℕ → ℕ) → sum_map g ps ≡ sum_map (λ k. sum_map g (bucket m k)) ks

  bucket-rank : (k : ℕ) → All (λ p. not (f p == k) ≡ false) (bucket m k)
  unfolding bucket
  bucket-rank k = elim (Option-cases (lookup k m)) [
    | inl e ↦ rw (e, bucket) tt
    | inr (ps, e) ↦
        rw (e, bucket)
          (All-lookup (λ entry. All (λ p. not (f p == entry.0) ≡ false) entry.1) k m ranked e)
  ]

  one_rank-IsSorted :
      (k : ℕ) (ps : List ℕ) → All (λ p. not (f p == k) ≡ false) ps → IsSorted rank_le ps
  one_rank-IsSorted k [] h = tt
  one_rank-IsSorted k (p ∷ ps) h = (
    All-map (λ q. not (f q == k) ≡ false) (λ q. rank_le p q ≡ true) (λ q e. ground (arith, h.0)) ps
        h.1,
    one_rank-IsSorted k ps h.1,
  )

  append-IsSorted :
      (k : ℕ) (ps qs : List ℕ)
      → IsSorted rank_le ps
      → All (λ p. not (f p == k) ≡ false) ps
      → All (λ q. leb k (f q) ≡ true) qs
      → IsSorted rank_le qs
      → IsSorted rank_le (ps ++ qs)
  append-IsSorted k [] qs s h a t = t
  append-IsSorted k (p ∷ ps) qs s h a t = (
    All-append (λ q. rank_le p q ≡ true) ps qs s.0
        (All-map (λ q. leb k (f q) ≡ true) (λ q. rank_le p q ≡ true) (λ q e. ground (arith, h.0)) qs
          a),
    append-IsSorted k ps qs s.1 h.1 a t,
  )

  pieces_in_order_lem :
      (ks : List ℕ) → IsSorted leb ks → Returns (InOrder ks) (pieces_in_order rand m ks)
  unfolding pieces_in_order
  pieces_in_order_lem [] s =
      ([], refl, record { sorted = tt; above = λ lo h. tt; items = λ g. refl })
  pieces_in_order_lem (k ∷ ks) s =
      let (ps, e, same) = shuffle-SameItems (rand.draw k) (bucket m k) (rand.draw_lt k) in
      let (qs, e', o) = pieces_in_order_lem ks s.1 in
      let at_k : All (λ p. not (f p == k) ≡ false) ps =
        All-SameItems (λ p. not (f p == k)) ps (bucket m k) same (bucket-rank k) in
      (
        ps ++ qs,
        rw (e, e'),
        record {
          sorted =
              append-IsSorted k ps qs (one_rank-IsSorted k ps at_k) at_k (o.above k s.0) o.sorted;
          above = λ lo h.
              All-append (λ p. leb lo (f p) ≡ true) ps qs
                (All-map (λ p. not (f p == k) ≡ false) (λ p. leb lo (f p) ≡ true)
                  (λ p e. ground (arith, h.0)) ps at_k)
                (o.above lo h.1);
          items = λ g. omega (arith, sum_map-append g ps qs, same g, o.items g);
        },
      )

leb-IsOrder : IsOrder leb
leb-IsOrder = record { total = λ a b h. ground arith; trans = λ a b c h k. ground arith }

-- The pieces of a grouped map come out in the order of their ranks, the lowest first, each as often
-- as it was put.
pub get_pieces_by_rarity_lem :
    (rand : Rand) (f : ℕ → ℕ) (r : RarityMap)
    → IsGrouped f r
    → Returns
        (λ ps.
          IsSorted (λ a b. leb (f a) (f b)) ps × ((g : ℕ → ℕ) → sum_map g ps ≡ total g r.pieces_of))
        (get_pieces_by_rarity rand r)
unfolding get_pieces_by_rarity
get_pieces_by_rarity_lem rand f r v =
    let (ps, e, o) =
      pieces_in_order_lem rand f r.pieces_of v.ranked (sort leb (rarities r.pieces_of))
        (sort-IsSorted leb leb-IsOrder (rarities r.pieces_of)) in
    (
      ps,
      e,
      (
        o.sorted,
        λ g.
            o.items g
            ∙ sort-SameItems leb (rarities r.pieces_of) (λ k. sum_map g (bucket r.pieces_of k))
            ∙ sum_map-rarities g r.pieces_of v.distinct,
      ),
    )
