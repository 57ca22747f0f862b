-- ===== src/Controller/Availability/Rarest.antt =====
-- What `createRaritySlice` and `updateQuantityNeededForPeer` compute.
use tulva.Prelude.{
  ℕ, zero, suc, ◌+◌, ◌≤◌, ◌<◌, ◌≡◌, refl, ap, sym, ◌∙◌, List, [], ◌∷◌, Bool, true, false, not, ◌&&◌,
  if◌then◌else◌, leb, length, get_or, replicate, length-replicate, String, Returns, All, sum_map,
  SameItems, one_if, arith, Bool-cases, inl, inr, count, IsSimple, nat_eq,
}
use tulva.Prelude.Sort.{IsSorted}
use tulva.Controller.State.{Controller, PeerInfo}
use tulva.Controller.Rarity.{RarityMap, new_rarity_map, put, Rand}
use tulva.Controller.Rarity.Buckets.{
  IsGrouped, total, new_rarity_map-IsGrouped, total-new_rarity_map, put-IsGrouped, total-put,
}
use tulva.Controller.Rarity.Order.{get_pieces_by_rarity_lem}
use tulva.Controller.Availability.{
  add_available, add_peers, create_peer_piece_totals, fill_rarity_map, create_rarity_slice,
}

-- The peers that are not choking us and have the piece.
abbrev pub availability : List (String × PeerInfo) → ℕ → ℕ
availability peers p =
    sum_map (λ entry. one_if (not entry.1.is_choked && get_or entry.1.available_pieces p false))
      peers

-- The pieces that are not finished, from the first one up; the list begins at piece `i`.
abbrev pub unfinished : ℕ → List Bool → List ℕ
unfinished i [] = []
unfinished i (f ∷ fs) = let rest = unfinished (i + 1) fs in if f then rest else i ∷ rest

-- Each peer has an answer for each of the pieces.
abbrev pub Sized : ℕ → List (String × PeerInfo) → Type 0
Sized n peers = All (λ entry. length entry.1.available_pieces ≡ n) peers

add_available_lem :
    (totals : List ℕ) (has : List Bool)
    → length has ≡ length totals
    → Returns
        (λ ts.
          (length ts ≡ length totals)
          × ((p : ℕ) → get_or ts p 0 ≡ get_or totals p 0 + one_if (get_or has p false)))
        (add_available totals has)
unfolding add_available
add_available_lem [] [] h = ([], refl, (refl, λ p. refl))
add_available_lem (n ∷ totals) [] h = absurd (omega arith)
add_available_lem [] (b ∷ has) h = absurd (omega arith)
add_available_lem (n ∷ totals) (b ∷ has) h =
    let (ts, e, (l, v)) = add_available_lem totals has (omega arith) in
    ((if b then n + 1 else n) ∷ ts, rw e, (omega (arith, l), at b ts v))
  where
    at :
        (b : Bool) (ts : List ℕ)
        → ((p : ℕ) → get_or ts p 0 ≡ get_or totals p 0 + one_if (get_or has p false))
        → (p : ℕ)
        → get_or ((if b then n + 1 else n) ∷ ts) p 0
          ≡ get_or (n ∷ totals) p 0 + one_if (get_or (b ∷ has) p false)
    at true ts v zero = refl
    at false ts v zero = omega arith
    at b ts v (suc p) = v p

add_peers_lem :
    (n : ℕ) (peers : List (String × PeerInfo)) (totals : List ℕ)
    → Sized n peers
    → length totals ≡ n
    → Returns
        (λ ts.
          (length ts ≡ n) × ((p : ℕ) → get_or ts p 0 ≡ get_or totals p 0 + availability peers p))
        (add_peers peers totals)
unfolding add_peers
add_peers_lem n [] totals s l = (totals, refl, (l, λ p. omega arith))
add_peers_lem n ((name, info) ∷ peers) totals s l = elim (Bool-cases info.is_choked) [
  | inl choked ↦
      let (ts, e, (lt, v)) = add_peers_lem n peers totals s.1 l in
      (ts, rw choked e, (lt, λ p. rw choked (omega (arith, v p))))
  | inr free ↦
      let (us, d, (lu, w)) = add_available_lem totals info.available_pieces (s.0 ∙ sym l) in
      let (ts, e, (lt, v)) = add_peers_lem n peers us s.1 (lu ∙ l) in
      (ts, rw (free, d) e, (lt, λ p. rw free (omega (arith, v p, w p))))
]

get_or-replicate : (n p : ℕ) → ◌≡◌ {A = ℕ} (get_or (replicate n 0) p 0) 0
get_or-replicate zero p = refl
get_or-replicate (suc n) zero = refl
get_or-replicate (suc n) (suc p) = get_or-replicate n p

-- For each piece the total counts the peers that are not choking us and have it.
pub create_peer_piece_totals_lem :
    (c : Controller)
    → Sized (length c.finished_pieces) c.peers
    → Returns
        (λ ts.
          (length ts ≡ length c.finished_pieces)
          × ((p : ℕ) → get_or ts p 0 ≡ availability c.peers p))
        (create_peer_piece_totals c)
unfolding create_peer_piece_totals
create_peer_piece_totals_lem c s =
    let n : ℕ = length c.finished_pieces in
    let (ts, e, (l, v)) = add_peers_lem n c.peers (replicate n 0) s (length-replicate n 0) in
    (ts, e, (l, λ p. omega (arith, v p, get_or-replicate n p)))

fill_rarity_map_lem :
    (f : ℕ → ℕ) (i : ℕ) (totals : List ℕ) (finished : List Bool) (r : RarityMap)
    → length totals ≡ length finished
    → ((k : ℕ) → get_or totals k 0 ≡ f (i + k))
    → IsGrouped f r
    → Returns
        (λ r'.
          IsGrouped f r'
          × ((g : ℕ → ℕ)
              → total g r'.pieces_of ≡ total g r.pieces_of + sum_map g (unfinished i finished)))
        (fill_rarity_map i totals finished r)
unfolding fill_rarity_map
fill_rarity_map_lem f i [] [] r l h v = (r, refl, (v, λ g. omega arith))
fill_rarity_map_lem f i [] (b ∷ finished) r l h v = absurd (omega arith)
fill_rarity_map_lem f i (t ∷ totals) [] r l h v = absurd (omega arith)
fill_rarity_map_lem f i (t ∷ totals) (true ∷ finished) r l h v =
    fill_rarity_map_lem f (i + 1) totals finished r (omega arith)
      (λ k. h (suc k) ∙ ap f (omega arith)) v
fill_rarity_map_lem f i (t ∷ totals) (false ∷ finished) r l h v =
    let e : t ≡ f i = h 0 ∙ ap f (omega arith) in
    let (r', e', (v', w)) =
      fill_rarity_map_lem f (i + 1) totals finished (put r (f i) i) (omega arith)
        (λ k. h (suc k) ∙ ap f (omega arith)) (put-IsGrouped f r i v) in
    (r', rw e e', (v', λ g. omega (arith, w g, total-put f r i v g)))

-- What the rarity slice is: the unfinished pieces, each once, those of the fewest peers first.
pub record IsRarityOrder (c : Controller) (ps : List ℕ) : Type 0 where
  pub sorted : IsSorted (λ a b. leb (availability c.peers a) (availability c.peers b)) ps
  pub items : SameItems ps (unfinished 0 c.finished_pieces)

-- If each peer has an answer for each piece, the rarity slice is made, with no index out of range:
-- it holds the unfinished pieces, each once, and a piece of fewer unchoked peers never stands behind
-- one of more, whatever the shuffle draws.
pub create_rarity_slice-IsRarityOrder :
    (rand : Rand) (c : Controller)
    → Sized (length c.finished_pieces) c.peers
    → Returns (IsRarityOrder c) (create_rarity_slice rand c)
unfolding create_rarity_slice
create_rarity_slice-IsRarityOrder rand c s =
    let (ts, e, (l, v)) = create_peer_piece_totals_lem c s in
    let (r, e', (w, t)) =
      fill_rarity_map_lem (availability c.peers) 0 ts c.finished_pieces new_rarity_map l
        (λ k. v k ∙ ap (availability c.peers) (omega arith))
        (new_rarity_map-IsGrouped (availability c.peers)) in
    let (ps, e'', (o, q)) = get_pieces_by_rarity_lem rand (availability c.peers) r w in
    (
      ps,
      rw (e, e') e'',
      record { sorted = o; items = λ g. omega (arith, q g, t g, total-new_rarity_map g) },
    )

unfinished-above : (k i : ℕ) (fs : List Bool) → k < i → count k (unfinished i fs) ≡ 0
unfinished-above k i [] h = refl
unfinished-above k i (true ∷ fs) h = unfinished-above k (i + 1) fs (omega arith)
unfinished-above k i (false ∷ fs) h = ground (arith, unfinished-above k (i + 1) fs)

pub unfinished-IsSimple : (i : ℕ) (fs : List Bool) → IsSimple (unfinished i fs)
unfinished-IsSimple i [] k = omega arith
unfinished-IsSimple i (true ∷ fs) k = unfinished-IsSimple (i + 1) fs k
unfinished-IsSimple i (false ∷ fs) k =
    ground (arith, unfinished-above k (i + 1) fs, unfinished-IsSimple (i + 1) fs k)

pub unfinished-lt :
    (i n : ℕ) (fs : List Bool) → i + length fs ≤ n → All (λ p. leb n p ≡ false) (unfinished i fs)
unfinished-lt i n [] h = tt
unfinished-lt i n (true ∷ fs) h = unfinished-lt (i + 1) n fs (omega arith)
unfinished-lt i n (false ∷ fs) h = (ground arith, unfinished-lt (i + 1) n fs (omega arith))
