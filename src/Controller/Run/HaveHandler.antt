-- ===== src/Controller/Run/HaveHandler.antt =====
-- The handler of HAVE messages: on messages that fit the state it returns and keeps the invariant.
use tulva.Prelude.{
  ℕ, ◌<◌, ◌≡◌, ◌≢◌, refl, ◌∙◌, List, [], ◌∷◌, true, false, Option, some, none, if_true, if_false,
  set, length-set, All, All-map, String, Returns, Returns-bind, write, arith, Bool-cases, inl, inr,
  string_eq, nat_eq, get_elem?-lt,
}
use tulva.Prelude.Dict.{
  insert, lookup-insert_self, is_absent, present, is_absent_found, is_absent-insert,
}
use tulva.Pieces.{HavePiece}
use tulva.Controller.State.{Controller, PeerInfo}
use tulva.Controller.Rarity.{Rand}
use tulva.Controller.Cancel.{deref}
use tulva.Controller.Invariant.{
  PeerOk, pieces, limit, Inv, found-PeerOk, others-Accounts, replace-Inv,
}
use tulva.Controller.Invariant.Serve.{send_requests_to_peer-Served}
use tulva.Controller.Run.Have.{haves}
use tulva.Controller.Run.{can_take_requests, mark_available, after_haves, on_have_pieces}
use tulva.Controller.Run.Loop.{rarity_lem}

available-PeerOk :
    (n max p : ℕ) (name : String) (info : PeerInfo)
    → PeerOk n max (name, info)
    → PeerOk n max (name, record info { available_pieces = set info.available_pieces p true })
available-PeerOk n max p name info v = record {
  named = v.named;
  sized = length-set info.available_pieces p true ∙ v.sized;
  in_range = v.in_range;
  simple = v.simple;
  bounded = v.bounded;
  idle = v.idle;
}

-- A HAVE that fits the state: of a piece of the torrent, from a peer in the map.
abbrev pub HaveFits : Controller → HavePiece → Type 0
HaveFits c have = (have.piece_num < pieces c) × (is_absent c.peers have.peer_name ≡ false)

-- The peer of the last message, if there was one, is in the map.
abbrev pub LastPresent : Option String → Controller → Type 0
LastPresent none c = Unit {0}
LastPresent (some name) c = is_absent c.peers name ≡ false

mark_available_lem :
    (haves : List HavePiece) (last : Option String) (c : Controller)
    → Inv c
    → All (HaveFits c) haves
    → LastPresent last c
    → Returns
        (λ r. Inv r.1 × LastPresent r.0 r.1 × ((r.0 ≡ none) → (last ≡ none) × (haves ≡ [])))
        (mark_available haves last c)
unfolding mark_available
mark_available_lem [] last c v f l = ((last, c), refl, (v, l, λ e. (e, refl)))
mark_available_lem (h ∷ haves) last c v f l =
    let (info, found) = present c.peers h.peer_name f.0.1 in
    let ok = found-PeerOk c h.peer_name v found in
    let (b, g) = get_elem?-lt info.available_pieces h.piece_num (omega (arith, f.0.0, ok.sized)) in
    let new : PeerInfo = record info {
      available_pieces = set info.available_pieces h.piece_num true;
    } in
    let c' : Controller = record c { peers = insert h.peer_name new c.peers } in
    let v' : Inv c' =
      replace-Inv c h.peer_name info new c.active_requests_totals c.sent v found
        (available-PeerOk (pieces c) (limit c) h.piece_num h.peer_name info ok)
        (others-Accounts c h.peer_name v found) in
    let (r, e, (w, p, q)) =
      mark_available_lem haves (some h.peer_name) c' v'
        (All-map (HaveFits c) (HaveFits c')
          (λ x fx. (fx.0, is_absent-insert c.peers h.peer_name x.peer_name new fx.1)) haves f.1)
        (is_absent_found c'.peers h.peer_name (lookup-insert_self h.peer_name new c.peers)) in
    (r, rw (found, mark_available) (rw (g, write) e), (w, p, λ z. absurd (ground (arith, q z))))

after_haves-Inv :
    (rand : Rand) (name : String) (c : Controller)
    → Inv c
    → is_absent c.peers name ≡ false
    → Returns Inv (after_haves rand (some name) c)
unfolding after_haves
after_haves-Inv rand name c v h =
    let (info, found) = present c.peers name h in
    elim (Bool-cases (can_take_requests c info)) [
      | inl can ↦
          let (slice, e, s) = rarity_lem rand c v in
          let (d, e', (_, w)) =
            send_requests_to_peer-Served c name info slice v found (ground arith) s in
          (d, rw (found, deref) (if_true _ _ can ∙ rw e e'), w)
      | inr cannot ↦ (c, rw (found, deref) (if_false _ _ cannot), v)
    ]

-- Some peer has sent a message.
named :
    (rand : Rand) (last : Option String) (c : Controller)
    → Inv c
    → LastPresent last c
    → last ≢ none
    → Returns Inv (after_haves rand last c)
named rand none c v p h = absurd (h refl)
named rand (some name) c v p h = after_haves-Inv rand name c v p

pub on_have_pieces-Inv :
    (rand : Rand) (c : Controller) (haves : List HavePiece)
    → Inv c
    → haves ≢ []
    → All (HaveFits c) haves
    → Returns Inv (on_have_pieces rand c haves)
unfolding on_have_pieces
on_have_pieces-Inv rand c msgs v ne f =
    Returns-bind
      (λ r.
        Inv r.1
        × LastPresent r.0 r.1
        × ((r.0 ≡ none) → (let no_one : Option String = none in no_one ≡ none) × (msgs ≡ [])))
      Inv (mark_available msgs none c) (λ r. after_haves rand r.0 r.1)
      (mark_available_lem msgs none c v f tt) λ r w. named rand r.0 r.1 w.0 w.1 (λ e. ne (w.2 e).1)
