-- ===== src/Controller/Run/Have.antt =====
-- The parts of the handler of a received piece: the HAVE messages, the flag of completion, and the
-- quantities by which the peers are sorted.
use tulva.Prelude.{
  ℕ, zero, suc, ◌+◌, ◌<◌, ◌≡◌, refl, ap, sym, subst, ◌∙◌, List, [], ◌∷◌, ◌++◌, Bool, true, false,
  if◌then◌else◌, if_true, if_false, length, get_or, set, length-set, read-lt, filterb, String, done,
  All, arith, Bool-cases, inl, inr, string_eq, nat_eq,
}
use mathlib.Core.List.{append_assoc, append-nil}
use tulva.Prelude.Dict.{map_values, map_values-Distinct, All-map_values}
use tulva.Controller.State.{
  Controller, PeerInfo, Message, have_pieces, seeding, all_finished,
  update_completed_flag_if_finished,
}
use tulva.Controller.Accounts.{holders, Accounts, Accounts-cong}
use tulva.Controller.Priority.Order.{get_or_of_get_elem?}
use tulva.Controller.Availability.{count_needed, update_quantity_needed_for_peer}
use tulva.Controller.Availability.Rarest.{Sized, unfinished}
use tulva.Controller.Invariant.{PeerOk, pieces, limit, Inv}
use tulva.Controller.Run.{send_have_to_peers_who_need_piece, update_quantities}

-- One HAVE for each peer that lacks the piece.
abbrev pub haves : ℕ → List (String × PeerInfo) → List Message
haves p [] = []
haves p ((name, info) ∷ peers) =
    let rest = haves p peers in
    if get_or info.available_pieces p false
    then rest
    else have_pieces name (record { piece_num = p; peer_name = "" } ∷ []) ∷ rest

pub send_have_lem :
    (p n : ℕ) (peers : List (String × PeerInfo)) (c : Controller)
    → p < n
    → Sized n peers
    → send_have_to_peers_who_need_piece p peers c
      ≡ done (record c { sent = c.sent ++ haves p peers })
unfolding send_have_to_peers_who_need_piece
send_have_lem p n [] c lp s =
    ap (λ (m : List Message). done (let r : Controller = record c { sent = m } in r))
      (sym (append-nil c.sent))
send_have_lem p n ((name, info) ∷ peers) c lp s =
    let (b, g, r) = read-lt info.available_pieces p (omega (arith, s.0)) in
    let same : get_or info.available_pieces p false ≡ b =
      get_or_of_get_elem? info.available_pieces p false g in
    elim (Bool-cases b) [
      | inl has ↦ rw (r, same, has) (send_have_lem p n peers c lp s.1)
      | inr lacks ↦
          rw (r, same, lacks)
            (send_have_lem p n peers _ lp s.1
              ∙ ap (λ (m : List Message). done (let r : Controller = record c { sent = m } in r))
                  (append_assoc c.sent _ (haves p peers)))
    ]

-- How many unfinished pieces the peer has.
abbrev pub quantity_needed : List Bool → PeerInfo → ℕ
quantity_needed finished info =
    length (filterb (λ p. get_or info.available_pieces p false) (unfinished 0 finished))

count_needed_lem :
    (whole : List Bool) (i n : ℕ) (finished available : List Bool)
    → length finished ≡ length available
    → ((k : ℕ) → get_or available k false ≡ get_or whole (i + k) false)
    → count_needed finished available n
      ≡ done (n + length (filterb (λ p. get_or whole p false) (unfinished i finished)))
unfolding count_needed
count_needed_lem whole i n [] available l h = ap done (omega arith)
count_needed_lem whole i n (b ∷ finished) [] l h = absurd (omega arith)
count_needed_lem whole i n (true ∷ finished) (has ∷ available) l h =
    count_needed_lem whole (i + 1) n finished available (omega arith)
      (λ k. h (suc k) ∙ ap (λ j. get_or whole j false) (omega arith))
count_needed_lem whole i n (false ∷ finished) (has ∷ available) l h =
    let here : has ≡ get_or whole i false = h 0 ∙ ap (λ j. get_or whole j false) (omega arith) in
    let rest = λ (m : ℕ).
      count_needed_lem whole (i + 1) m finished available (omega arith)
        (λ k. h (suc k) ∙ ap (λ j. get_or whole j false) (omega arith)) in
    rw (← here) (elim (Bool-cases has) [
      | inl yes_ ↦ rw yes_ (rest (n + 1) ∙ ap done (omega arith))
      | inr no_ ↦ rw no_ (rest n)
    ])

abbrev pub with_quantity : List Bool → PeerInfo → PeerInfo
with_quantity finished info = record info { qty_pieces_needed = quantity_needed finished info }

-- If each peer has an answer for each piece, the quantity of each peer becomes the number of the unfinished pieces that it has; nothing else
-- changes.
pub update_quantities_lem :
    (finished : List Bool) (peers : List (String × PeerInfo))
    → Sized (length finished) peers
    → update_quantities finished peers ≡ done (map_values (with_quantity finished) peers)
unfolding update_quantities update_quantity_needed_for_peer
update_quantities_lem finished [] s = refl
update_quantities_lem finished ((name, info) ∷ peers) s =
    rw
      (
        count_needed_lem info.available_pieces 0 0 finished info.available_pieces (sym s.0)
            (λ k. ap (λ j. get_or info.available_pieces j false) (omega arith)),
        update_quantities_lem finished peers s.1,
      )
      (ap
        (λ (m : ℕ). done (
          let r : List (String × PeerInfo) =
            (name, record info { qty_pieces_needed = m })
            ∷ map_values (with_quantity finished) peers in
          r))
        (omega arith))

holders-with_quantity :
    (finished : List Bool) (p : ℕ) (peers : List (String × PeerInfo))
    → holders (map_values (with_quantity finished) peers) p ≡ holders peers p
holders-with_quantity finished p [] = refl
holders-with_quantity finished p (entry ∷ peers) =
    omega (arith, holders-with_quantity finished p peers)

pub with_quantity-Inv :
    (c : Controller)
    → Inv c
    → Inv (record c { peers = map_values (with_quantity c.finished_pieces) c.peers })
with_quantity-Inv c v = record {
  hashes = v.hashes;
  distinct = map_values-Distinct (with_quantity c.finished_pieces) c.peers v.distinct;
  peers_ok =
      All-map_values (with_quantity c.finished_pieces) (PeerOk (pieces c) (limit c)) c.peers
        (λ k i w. record {
          named = w.named;
          sized = w.sized;
          in_range = w.in_range;
          simple = w.simple;
          bounded = w.bounded;
          idle = w.idle;
        })
        v.peers_ok;
  accounts =
      Accounts-cong (pieces c) c.active_requests_totals _ _
        (λ p. sym (holders-with_quantity c.finished_pieces p c.peers)) v.accounts;
  complete = v.complete;
}

all_finished-set :
    (fs : List Bool) (p : ℕ) → all_finished fs ≡ true → all_finished (set fs p true) ≡ true
all_finished-set [] p h = refl
all_finished-set (f ∷ fs) zero h = ground arith
all_finished-set (f ∷ fs) (suc p) h = ground (arith, all_finished-set fs p)

-- The piece `p` is marked as finished, and the flag set if it was the last.
abbrev pub finish : ℕ → Controller → Controller
finish p c =
    update_completed_flag_if_finished (record c { finished_pieces = set c.finished_pieces p true })

marked-Inv :
    (p : ℕ) (c : Controller) (b : Bool) (msgs : List Message)
    → b ≡ all_finished (set c.finished_pieces p true)
    → Inv c
    → Inv (record c {
      finished_pieces = set c.finished_pieces p true;
      download_complete = b;
      sent = msgs;
    })
marked-Inv p c b msgs e v =
    let l : length (set c.finished_pieces p true) ≡ pieces c =
      length-set c.finished_pieces p true in
    record {
      hashes = v.hashes ∙ sym l;
      distinct = v.distinct;
      peers_ok = subst (λ n. All (PeerOk n (limit c)) c.peers) (sym l) v.peers_ok;
      accounts =
          subst (λ n. Accounts n c.active_requests_totals (holders c.peers)) (sym l) v.accounts;
      complete = e;
    }

-- Marking a piece keeps the invariant: the flag of completion says just whether every piece is
-- finished.
pub finish-Inv : (p : ℕ) (c : Controller) → Inv c → Inv (finish p c)
unfolding update_completed_flag_if_finished
finish-Inv p c v = elim (Bool-cases (all_finished (set c.finished_pieces p true))) [
  | inl all ↦
      subst Inv (sym (if_true _ _ all))
        (marked-Inv p c true (c.sent ++ (seeding true ∷ [])) (sym all) v)
  | inr some_ ↦ subst Inv (sym (if_false _ _ some_)) (
      marked-Inv p c c.download_complete c.sent
        (v.complete ∙ ground (arith, all_finished-set c.finished_pieces p)) v)
]
