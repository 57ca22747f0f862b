-- ===== src/Controller/Priority/Order.antt =====
-- What `createDownloadPriorityForPeer` computes: which pieces, and in which order.
use tulva.Prelude.{
  ℕ, zero, suc, ◌+◌, ◌≡◌, refl, ap, sym, ◌∙◌, List, [], ◌∷◌, map, Bool, false, not, ◌&&◌, some, leb,
  length, get_elem?, get_or, Returns, read-lt, All, sum_map, SameItems, arith, Bool-cases, inl, inr,
  contains, filterb, nat_eq, sum_map-map,
}
use tulva.Prelude.Int.{ℤ}
use tulva.Prelude.Sort.{IsOrder, IsSorted, sort, sort-IsSorted, sort-SameItems, All-sort}
use tulva.Controller.State.{Controller, PeerInfo}
use tulva.Controller.Priority.{
  PiecePriority, less, to_sorted_piece_slice, priorities_for_peer,
  create_download_priority_for_peer,
}

-- `Less` orders by the number of active requests first, then by rarity.
pub less-IsOrder : IsOrder less
unfolding less
less-IsOrder = record { total = λ a b h. ground arith; trans = λ a b c h k. ground arith }

-- The peer has the piece and is not working on it.
abbrev pub wanted : PeerInfo → ℕ → Bool
wanted info p = get_or info.available_pieces p false && not (contains info.active_requests p)

-- An item of the slice carries the piece's account and its place in the rarity slice.
abbrev pub Describes : List ℤ → List ℕ → PiecePriority → Type 0
Describes totals slice pp =
    (get_elem? totals pp.piece_num ≡ some pp.active_requests_total)
    × (get_elem? slice pp.rarity_index ≡ some pp.piece_num)

pub get_or_of_get_elem? {ℓ} :
    {A : Type ℓ} (xs : List A) (i : ℕ) (d : A) {a : A} → get_elem? xs i ≡ some a → get_or xs i d ≡ a
get_or_of_get_elem? [] i d e = absurd (ground arith)
get_or_of_get_elem? (x ∷ xs) zero d e = ground arith
get_or_of_get_elem? (x ∷ xs) (suc i) d e = get_or_of_get_elem? xs i d e

-- The pieces `qs` in the order in which the peer should be asked for them.
pub record IsPriorityOrder (c : Controller) (info : PeerInfo) (slice : List ℕ) (qs : List ℕ)
    : Type 0 where
  pub items : SameItems qs (filterb (wanted info) slice)
  pub priorities : List PiecePriority
  pub projected : qs ≡ map (λ pp. pp.piece_num) priorities
  pub described : All (Describes c.active_requests_totals slice) priorities
  pub sorted : IsSorted less priorities

module _ (n : ℕ) (c : Controller) (info : PeerInfo) (slice : List ℕ)
    (lt : length c.active_requests_totals ≡ n) (la : length info.available_pieces ≡ n) where
  priorities_lem :
      (i : ℕ) (ps : List ℕ)
      → All (λ p. leb n p ≡ false) ps
      → ((k : ℕ) → get_elem? slice (i + k) ≡ get_elem? ps k)
      → Returns
          (λ pps.
            (map (λ pp. pp.piece_num) pps ≡ filterb (wanted info) ps)
            × All (Describes c.active_requests_totals slice) pps)
          (priorities_for_peer c info i ps)
  unfolding priorities_for_peer
  priorities_lem i [] b h = ([], refl, (refl, tt))
  priorities_lem i (p ∷ ps) b h =
      let (has, g, r) = read-lt info.available_pieces p (ground (arith, b.0, la)) in
      let (t, gt, rt) = read-lt c.active_requests_totals p (ground (arith, b.0, lt)) in
      let (pps, e, (m, d)) =
        priorities_lem (i + 1) ps b.1 (λ k. ap (get_elem? slice) (omega arith) ∙ h (suc k)) in
      let same : get_or info.available_pieces p false ≡ has =
        get_or_of_get_elem? info.available_pieces p false g in
      elim (Bool-cases (has && not (contains info.active_requests p))) [
        | inl want ↦ (
          record { piece_num = p; active_requests_total = t; rarity_index = i } ∷ pps,
          rw (r, e, want, rt),
          (rw (same, want, m), ((gt, ap (get_elem? slice) (omega arith) ∙ h 0), d)),
        )
        | inr skip ↦ (pps, rw (r, e, skip), (rw (same, skip, m), d))
      ]

  -- If the slice holds pieces of the torrent only, and the peer's bitfield and the totals have an entry for
  -- each piece, the priority list is made: it holds the pieces of
  -- the slice that the peer has and is not working on, each as often as the slice does, and a piece
  -- that fewer peers work on, or as many and that is rarer, stands before the others.
  pub create_download_priority_for_peer-IsPriorityOrder :
      All (λ p. leb n p ≡ false) slice
      → Returns (IsPriorityOrder c info slice) (create_download_priority_for_peer c info slice)
  unfolding create_download_priority_for_peer to_sorted_piece_slice
  create_download_priority_for_peer-IsPriorityOrder b =
      let (pps, e, (m, d)) = priorities_lem 0 slice b (λ k. ap (get_elem? slice) (omega arith)) in
      (
        map (λ pp. pp.piece_num) (sort less pps),
        rw e,
        record {
          items = λ g.
              sum_map-map (λ pp. pp.piece_num) g (sort less pps)
              ∙ sort-SameItems less pps (λ pp. g pp.piece_num)
              ∙ sym (sum_map-map (λ pp. pp.piece_num) g pps)
              ∙ ap (sum_map g) m;
          priorities = sort less pps;
          projected = refl;
          described = All-sort less (Describes c.active_requests_totals slice) pps d;
          sorted = sort-IsSorted less less-IsOrder pps;
        },
      )
