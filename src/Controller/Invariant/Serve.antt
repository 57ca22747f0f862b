-- ===== src/Controller/Invariant/Serve.antt =====
-- `sendRequestsToPeer` keeps the invariant, and what it sends.
use tulva.Prelude.{
  ℕ, zero, suc, ◌+◌, ◌-◌, ◌≤◌, ◌≡◌, ◌⊎◌, refl, subst, ◌∙◌, List, [], ◌∷◌, ◌++◌, Bool, true, false,
  not, if_false, some, leb, length, take, String, Returns, All, All-SameItems, one_if, arith,
  Bool-cases, inl, inr, count, count-filterb, filterb, contains, IsSimple, string_eq, nat_eq, ◌==◌,
  not-contains-count,
}
use tulva.Prelude.Dict.{lookup, insert}
use tulva.Prelude.Int.{ℤ}
use tulva.Controller.State.{Controller, PeerInfo}
use tulva.Controller.Accounts.{Accounts}
use tulva.Controller.Availability.Rarest.{
  IsRarityOrder, unfinished, unfinished-IsSimple, unfinished-lt,
}
use tulva.Controller.Priority.Order.{
  wanted, IsPriorityOrder, create_download_priority_for_peer-IsPriorityOrder,
}
use tulva.Controller.Requests.{Serving, send_requests_to_peer}
use tulva.Controller.Requests.Sent.{
  requests, added, length-added, count-added, All-added, after_sent, Disjoint, send_loop_lem,
}
use tulva.Controller.Invariant.{
  PeerOk, pieces, limit, Inv, found-PeerOk, others, others-Accounts, replace-Inv,
}

pub length-take-le {ℓ} : {A : Type ℓ} (n : ℕ) (xs : List A) → length (take n xs) ≤ n
length-take-le zero xs = omega arith
length-take-le (suc n) [] = omega arith
length-take-le (suc n) (x ∷ xs) = omega (arith, length-take-le n xs)

count-take-le : (k n : ℕ) (xs : List ℕ) → count k (take n xs) ≤ count k xs
count-take-le k zero xs = omega arith
count-take-le k (suc n) [] = omega arith
count-take-le k (suc n) (x ∷ xs) = omega (arith, count-take-le k n xs)

All-take {ℓ} : (P : ℕ → Type ℓ) (n : ℕ) (xs : List ℕ) → All P xs → All P (take n xs)
All-take P zero xs h = tt
All-take P (suc n) [] h = tt
All-take P (suc n) (x ∷ xs) h = (h.0, All-take P n xs h.1)

All-filterb {ℓ} : (P : ℕ → Type ℓ) (p : ℕ → Bool) (xs : List ℕ) → All P xs → All P (filterb p xs)
All-filterb P p [] h = tt
All-filterb P p (x ∷ xs) h = elim (Bool-cases (p x)) [
  | inl e ↦ rw e (h.0, All-filterb P p xs h.1)
  | inr e ↦ rw e (All-filterb P p xs h.1)
]

-- A piece that the peer works on is not wanted from it.
count-wanted :
    (info : PeerInfo) (k : ℕ) (xs : List ℕ)
    → contains info.active_requests k ≡ true
    → count k (filterb (wanted info) xs) ≡ 0
count-wanted info k [] h = refl
count-wanted info k (x ∷ xs) h = elim (Bool-cases (k == x)) [
  | inl same ↦
      let e : x ≡ k = ground arith in rw (e, h, not) (ground (arith, count-wanted info k xs h))
  | inr other ↦ ground (arith, count-wanted info k xs h)
]

-- The slice holds pieces of a torrent of `n` pieces, each once.
pub record IsSlice (n : ℕ) (slice : List ℕ) : Type 0 where
  pub in_range : All (λ p. leb n p ≡ false) slice
  pub simple : IsSimple slice

pub rarity-IsSlice : (c : Controller) (ps : List ℕ) → IsRarityOrder c ps → IsSlice (pieces c) ps
rarity-IsSlice c ps o = record {
  in_range =
      All-SameItems (λ p. leb (pieces c) p) ps (unfinished 0 c.finished_pieces) o.items
        (unfinished-lt 0 (pieces c) c.finished_pieces (omega arith));
  simple =
      λ k. omega (arith, o.items (λ x. one_if (k == x)), unfinished-IsSimple 0 c.finished_pieces k);
}

-- The requests have gone out: the first pieces of the priority list, up to the limit.
pub record Requested (c : Controller) (name : String) (info : PeerInfo) (slice : List ℕ)
    (c' : Controller) : Type 0 where
  pub order : List ℕ
  pub is_order : IsPriorityOrder c info slice order
  pub totals : List ℤ
  pub result :
      let asked = take (limit c - length info.active_requests) order in
      c' ≡ record c {
        active_requests_totals = totals;
        peers =
            insert name
              (record info { active_requests = added asked info.active_requests })
              c.peers;
        sent = c.sent ++ requests name c.piece_hashes asked;
      }

abbrev pub Served : Controller → String → PeerInfo → List ℕ → Controller → Type 0
Served c name info slice c' =
    ((c.download_complete ≡ true) × (c' ≡ c))
    ⊎ ((c.download_complete ≡ false) × Requested c name info slice c')

module _ (c : Controller) (name : String) (info : PeerInfo) (slice order : List ℕ) (v : Inv c)
    (found : lookup name c.peers ≡ some info) (s : IsSlice (pieces c) slice)
    (o : IsPriorityOrder c info slice order) where
  order-in_range : All (λ p. leb (pieces c) p ≡ false) order
  order-in_range =
      All-SameItems (λ p. leb (pieces c) p) order (filterb (wanted info) slice) o.items
        (All-filterb (λ p. leb (pieces c) p ≡ false) (wanted info) slice s.in_range)

  order-Disjoint : Disjoint order info.active_requests
  order-Disjoint k =
      let same : count k order ≡ count k (filterb (wanted info) slice) =
        o.items (λ x. one_if (k == x)) in
      elim (Bool-cases (contains info.active_requests k)) [
        | inl e ↦
            omega (arith, same, count-wanted info k slice e, (found-PeerOk c name v found).simple k)
        | inr e ↦ omega (
          arith,
          same,
          count-filterb k (wanted info) slice,
          s.simple k,
          not-contains-count k info.active_requests e,
        )
      ]

  abbrev asked : List ℕ
  asked = take (limit c - length info.active_requests) order

  asked-PeerOk :
      info.is_choked ≡ false
      → PeerOk
          (pieces c)
          (limit c)
          (name, record info { active_requests = added asked info.active_requests })
  asked-PeerOk free =
      let w = found-PeerOk c name v found in
      record {
        named = w.named;
        sized = w.sized;
        in_range =
            All-added (λ p. leb (pieces c) p ≡ false) asked info.active_requests
              (All-take (λ p. leb (pieces c) p ≡ false) _ order order-in_range) w.in_range;
        simple = λ k. omega (
          arith,
          count-added k asked info.active_requests,
          count-take-le k (limit c - length info.active_requests) order,
          order-Disjoint k,
        );
        bounded = omega (
          arith,
          length-added asked info.active_requests,
          length-take-le (limit c - length info.active_requests) order,
          w.bounded,
        );
        idle = λ e. cc;
      }

-- In a state that satisfies the invariant, and with a slice that holds pieces of the torrent, none of
-- them twice: to a peer of the map that is not choking us the controller sends requests for the first pieces of its priority
-- list, up to the limit, each with the hash of the piece, and keeps the invariant; once the download
-- is complete it sends none.
pub send_requests_to_peer-Served :
    (c : Controller) (name : String) (info : PeerInfo) (slice : List ℕ)
    → Inv c
    → lookup name c.peers ≡ some info
    → info.is_choked ≡ false
    → IsSlice (pieces c) slice
    → Returns (λ c'. Served c name info slice c' × Inv c') (send_requests_to_peer c name info slice)
unfolding send_requests_to_peer
send_requests_to_peer-Served c name info slice v found free s =
    elim (Bool-cases c.download_complete) [
      | inl complete ↦ (c, rw complete, (inl (complete, refl), v))
      | inr open_ ↦
          let (order, e, o) =
            create_download_priority_for_peer-IsPriorityOrder (pieces c) c info slice
              v.accounts.sized (found-PeerOk c name v found).sized s.in_range in
          let start : Serving = record { peer_info = info; cont = c } in
          let (t, e', (totals, et, w)) =
            send_loop_lem (pieces c) (others c.peers info) name order start
              (order-in_range c name info slice order v found s o)
              (order-Disjoint c name info slice order v found s o)
              (record { hashes = v.hashes; accounts = others-Accounts c name v found }) in
          let picked = take (limit c - length info.active_requests) order in
          let t' : Serving = after_sent name picked totals start in
          (
            record (t'.cont) { peers = insert name t'.peer_info c.peers },
            if_false _ _ open_ ∙ rw (e, e', et),
            (
              inr (open_, record { order = order; is_order = o; totals = totals; result = refl }),
              replace-Inv c name info t'.peer_info totals t'.cont.sent v found
                  (asked-PeerOk c name info slice order v found s o free)
                  (subst
                    (λ (u : Serving).
                      Accounts (pieces c) u.cont.active_requests_totals
                        (λ p. others c.peers info p + count p u.peer_info.active_requests))
                    et w.accounts),
            ),
          )
    ]
