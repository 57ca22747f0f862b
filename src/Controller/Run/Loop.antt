-- ===== src/Controller/Run/Loop.antt =====
-- Each handler, on a message that fits the state, returns and keeps the invariant: no panic, no fatal
-- error, no early return.
use tulva.Prelude.{
  ℕ, ◌<◌, ◌≡◌, refl, ap, sym, subst, ◌∙◌, List, [], ◌∷◌, ◌++◌, map, true, false, some, if_true,
  if_false, length, set, length-set, All, All-map, String, Returns, Returns-bind, write,
  All-SameItems, arith, Bool-cases, inl, inr, string_eq, nat_eq, get_elem?-lt,
}
use tulva.Prelude.Dict.{lookup, is_absent, present, is_absent-insert, keys-present}
use tulva.Prelude.Sort.{sort, All-sort}
use tulva.Pieces.{ReceivedPiece}
use tulva.Controller.State.{Controller, PeerInfo, Message, update_completed_flag_if_finished}
use tulva.Controller.Rarity.{Rand}
use tulva.Controller.Availability.{create_rarity_slice}
use tulva.Controller.Availability.Rarest.{create_rarity_slice-IsRarityOrder}
use tulva.Controller.Cancel.{deref}
use tulva.Controller.Cancel.Stuck.{remove_piece_from_active_requests-Stopped}
use tulva.Controller.Invariant.{pieces, limit, Inv, Sized-of_Ok}
use tulva.Controller.Invariant.Serve.{IsSlice, rarity-IsSlice, Served, send_requests_to_peer-Served}
use tulva.Controller.Run.Have.{
  send_have_lem, haves, update_quantities_lem, with_quantity-Inv, finish, finish-Inv,
}
use tulva.Controller.Run.{
  Env, needs_fewer, sorted_peers_by_qty_pieces_needed, can_take_requests, serve_peer, serve_peers,
  on_received_piece,
}

-- The finished pieces stay, and no peer is forgotten.
record Keeps (c c' : Controller) : Type 0 where
  finished : c'.finished_pieces ≡ c.finished_pieces
  keys : (k : String) → is_absent c.peers k ≡ false → is_absent c'.peers k ≡ false

Served-Keeps :
    (c : Controller) (name : String) (info : PeerInfo) (slice : List ℕ) (c' : Controller)
    → Served c name info slice c'
    → Keeps c c'
Served-Keeps c name info slice c' (inl (_, e)) = record {
  finished = ap (λ (d : Controller). d.finished_pieces) e;
  keys = λ k h. subst (λ (d : Controller). is_absent d.peers k ≡ false) (sym e) h;
}
Served-Keeps c name info slice c' (inr (_, r)) = record {
  finished = ap (λ (d : Controller). d.finished_pieces) r.result;
  keys = λ k h.
      subst (λ (d : Controller). is_absent d.peers k ≡ false) (sym r.result)
        (is_absent-insert c.peers name k _ h);
}

serve_peer_lem :
    (slice : List ℕ) (name : String) (c : Controller)
    → Inv c
    → IsSlice (pieces c) slice
    → is_absent c.peers name ≡ false
    → Returns (λ c'. Inv c' × Keeps c c') (serve_peer slice name c)
unfolding serve_peer
serve_peer_lem slice name c v s h =
    let (info, found) = present c.peers name h in
    elim (Bool-cases (can_take_requests c info)) [
      | inl can ↦
          let (c', e, (r, w)) =
            send_requests_to_peer-Served c name info slice v found (ground arith) s in
          (c', rw (found, deref) (if_true _ _ can ∙ e), (w, Served-Keeps c name info slice c' r))
      | inr cannot ↦ (
        c,
        rw (found, deref) (if_false _ _ cannot),
        (v, record { finished = refl; keys = λ k g. g }),
      )
    ]

serve_peers_lem :
    (slice : List ℕ) (names : List String) (c : Controller)
    → Inv c
    → IsSlice (pieces c) slice
    → All (λ name. is_absent c.peers name ≡ false) names
    → Returns Inv (serve_peers slice names c)
unfolding serve_peers
serve_peers_lem slice [] c v s h = (c, refl, v)
serve_peers_lem slice (name ∷ names) c v s h =
    Returns-bind (λ c'. Inv c' × Keeps c c') Inv (serve_peer slice name c) (serve_peers slice names)
      (serve_peer_lem slice name c v s h.0)
      λ c' p.
        serve_peers_lem slice names c' p.0
          (subst (λ fs. IsSlice (length fs) slice) (sym p.1.finished) s)
          (All-map (λ k. is_absent c.peers k ≡ false) (λ k. is_absent c'.peers k ≡ false) p.1.keys
            names h.1)

All-map_list {ℓ κ} :
    {A : Type ℓ} {B : Type κ} (f : A → B) (P : B → Type 0) (xs : List A)
    → All (λ x. P (f x)) xs
    → All P (map f xs)
All-map_list f P [] h = tt
All-map_list f P (x ∷ xs) h = (h.0, All-map_list f P xs h.1)

-- Whatever order the map is met in, the sorted peers are peers of the map.
sorted_peers-present :
    (env : Env) (peers : List (String × PeerInfo))
    → All (λ name. is_absent peers name ≡ false) (sorted_peers_by_qty_pieces_needed env peers)
unfolding sorted_peers_by_qty_pieces_needed
sorted_peers-present env peers =
    All-map_list (λ entry. entry.0) (λ name. is_absent peers name ≡ false)
      (sort needs_fewer (env.visit peers))
      (All-sort needs_fewer (λ entry. is_absent peers entry.0 ≡ false) (env.visit peers)
        (All-SameItems (λ entry. is_absent peers entry.0) (env.visit peers) peers
          (env.visit-SameItems peers) (keys-present peers)))

pub sent-Inv : (c : Controller) (msgs : List Message) → Inv c → Inv (record c { sent = msgs })
sent-Inv c msgs v = record {
  hashes = v.hashes;
  distinct = v.distinct;
  peers_ok = v.peers_ok;
  accounts = v.accounts;
  complete = v.complete;
}

pub finish-peers : (p : ℕ) (c : Controller) → (finish p c).peers ≡ c.peers
unfolding update_completed_flag_if_finished
finish-peers p c = ground arith

pub finish-finished :
    (p : ℕ) (c : Controller) → (finish p c).finished_pieces ≡ set c.finished_pieces p true
unfolding update_completed_flag_if_finished
finish-finished p c = ground arith

-- The rarity slice of a controller that keeps the invariant.
pub rarity_lem :
    (rand : Rand) (c : Controller)
    → Inv c
    → Returns (λ slice. IsSlice (pieces c) slice) (create_rarity_slice rand c)
rarity_lem rand c v =
    let (slice, e, o) =
      create_rarity_slice-IsRarityOrder rand c
        (Sized-of_Ok (pieces c) (limit c) c.peers v.peers_ok) in
    (slice, e, rarity-IsSlice c slice o)

pub on_received_piece-Inv :
    (env : Env) (c : Controller) (piece : ReceivedPiece)
    → Inv c
    → piece.piece_num < pieces c
    → is_absent c.peers piece.peer_name ≡ false
    → Returns Inv (on_received_piece env c piece)
unfolding on_received_piece
on_received_piece-Inv env c piece v lp h =
    let p : ℕ = piece.piece_num in
    let (b, g) = get_elem?-lt c.finished_pieces p lp in
    let (info, found) = present c.peers piece.peer_name h in
    let c₁ : Controller = finish p c in
    let v₁ : Inv c₁ = finish-Inv p c v in
    let lp₁ : p < pieces c₁ =
      omega (arith, ap length (finish-finished p c), length-set c.finished_pieces p true) in
    let c₂ : Controller = record c₁ { sent = c₁.sent ++ haves p c₁.peers } in
    let e₂ =
      send_have_lem p (pieces c₁) c₁.peers c₁ lp₁
        (Sized-of_Ok (pieces c₁) (limit c₁) c₁.peers v₁.peers_ok) in
    let v₂ : Inv c₂ = sent-Inv c₁ _ v₁ in
    let found₂ : lookup piece.peer_name c₂.peers ≡ some info =
      subst (λ m. lookup piece.peer_name m ≡ some info) (sym (finish-peers p c)) found in
    let (c₃, e₃, (_, v₃)) = remove_piece_from_active_requests-Stopped c₂ piece info v₂ lp₁ found₂ in
    let (slice, e₄, s) = rarity_lem env.rand c₃ v₃ in
    let e₅ =
      update_quantities_lem c₃.finished_pieces c₃.peers
        (Sized-of_Ok (pieces c₃) (limit c₃) c₃.peers v₃.peers_ok) in
    let v₄ = with_quantity-Inv c₃ v₃ in
    let (c₆, e₆, v₆) = serve_peers_lem slice _ _ v₄ s (sorted_peers-present env _) in
    (c₆, rw (g, write) (rw (e₂, e₃, e₄, e₅) e₆), v₆)
