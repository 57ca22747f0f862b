-- ===== src/Controller/Run/Steps.antt =====
-- The loop: any run of messages that fit the state, from a new controller on.
use tulva.Prelude.{
  ℕ, ◌<◌, ◌≡◌, ◌≢◌, ◌⊎◌, refl, ap, sym, subst, ◌∙◌, List, [], ◌∷◌, Bool, true, false, none, if_true,
  if_false, length, String, done, stopped, fatal, panicked, Returns, write, All, arith, Bool-cases,
  inl, inr, string_eq, nat_eq, ◌==◌, get_elem?-lt, replicate, length-set,
}
use tulva.Prelude.Dict.{lookup, is_absent, present}
use tulva.Prelude.Int.{pos}
use tulva.Pieces.{HavePiece}
use tulva.Controller.State.{
  Controller, all_finished, update_completed_flag_if_finished, new_controller,
}
use tulva.Controller.Accounts.{replicate-Accounts}
use tulva.Controller.Cancel.{deref, remove_piece_from_active_requests}
use tulva.Controller.Invariant.{pieces, limit, Inv, Sized-of_Ok}
use tulva.Controller.Run.{
  Env, on_received_piece, on_dead_peer, on_choke_status, mark_available, on_have_pieces, Event,
  received_piece, new_peer, dead_peer, choke_status, have_piece, quit, step, run,
}
use tulva.Controller.Run.Have.{send_have_lem, finish, finish-Inv}
use tulva.Controller.Run.Loop.{on_received_piece-Inv, finish-peers, finish-finished}
use tulva.Controller.Run.Handlers.{on_new_peer-Inv, on_dead_peer-Inv, on_choke_status-Inv}
use tulva.Controller.Run.HaveHandler.{HaveFits, on_have_pieces-Inv}

-- A message that the other goroutines may send in this state: it speaks of pieces of the torrent and
-- of peers that the controller knows, a new peer has a new name, and a HAVE channel is not empty.
abbrev pub Fits : Controller → Event → Type 0
Fits c (received_piece piece) =
    (piece.piece_num < pieces c) × (is_absent c.peers piece.peer_name ≡ false)
Fits c (new_peer name) = lookup name c.peers ≡ none
Fits c (dead_peer name) = is_absent c.peers name ≡ false
Fits c (choke_status status) = is_absent c.peers status.peer_name ≡ false
Fits c (have_piece haves) = (haves ≢ []) × All (HaveFits c) haves
Fits c quit = ⊥

-- In a state that satisfies the invariant, on every message that fits the state, the loop goes on: the handler returns, with no panic, no fatal
-- error and no early return, and keeps the invariant.
pub step-Inv :
    (env : Env) (c : Controller) (event : Event)
    → Inv c
    → Fits c event
    → Returns Inv (step env c event)
unfolding step
step-Inv env c (received_piece piece) v f = on_received_piece-Inv env c piece v f.0 f.1
step-Inv env c (new_peer name) v f = on_new_peer-Inv c name v f
step-Inv env c (dead_peer name) v f =
    let (info, found) = present c.peers name f in on_dead_peer-Inv c name info v found
step-Inv env c (choke_status status) v f = on_choke_status-Inv env.rand c status v f
step-Inv env c (have_piece haves) v f = on_have_pieces-Inv env.rand c haves v f.0 f.1
step-Inv env c quit v f = absurd f

-- Each message of the run fits the state in which it is handled.
abbrev pub AllFit : Controller → List (Env × Event) → Type 0
AllFit c [] = Unit {0}
AllFit c ((env, event) ∷ events) =
    Fits c event × ((c' : Controller) → step env c event ≡ done c' → AllFit c' events)

-- From a state that satisfies the invariant, a run of messages, each of which fits the state in which
-- it comes, is handled to its end, and the invariant holds there.
pub run-Inv :
    (c : Controller) (events : List (Env × Event))
    → Inv c
    → AllFit c events
    → Returns Inv (run c events)
unfolding run
run-Inv c [] v f = (c, refl, v)
run-Inv c ((env, event) ∷ events) v f =
    let (c', e, v') = step-Inv env c event v f.0 in
    let (d, e', w) = run-Inv c' events v' (f.1 c' e) in (d, rw e e', w)

abbrev fresh : List Bool → List (List ℕ) → Controller
fresh finished hashes = record {
  finished_pieces = finished;
  piece_hashes = hashes;
  active_requests_totals = replicate (length finished) (pos 0);
  peers = [];
  max_simultaneous_downloads_per_peer = 5;
  download_complete = false;
  sent = [];
}

fresh-Inv :
    (finished : List Bool) (hashes : List (List ℕ))
    → length hashes ≡ length finished
    → Inv (update_completed_flag_if_finished (fresh finished hashes))
unfolding update_completed_flag_if_finished
fresh-Inv finished hashes l = elim (Bool-cases (all_finished finished)) [
  | inl all ↦ subst Inv (sym (if_true _ _ all)) (record {
    hashes = l;
    distinct = tt;
    peers_ok = tt;
    accounts = replicate-Accounts (length finished);
    complete = sym all;
  })
  | inr some_ ↦ subst Inv (sym (if_false _ _ some_)) (record {
    hashes = l;
    distinct = tt;
    peers_ok = tt;
    accounts = replicate-Accounts (length finished);
    complete = sym some_;
  })
]

-- With at least one piece, and one hash for each, a controller is made that satisfies the invariant;
-- otherwise making it is a fatal error.
pub new_controller-Inv :
    (finished : List Bool) (hashes : List (List ℕ))
    → ((0 < length finished)
        × (length hashes ≡ length finished)
        × Returns Inv (new_controller finished hashes))
      ⊎ (((length finished ≡ 0) ⊎ (length hashes ≢ length finished))
          × (new_controller finished hashes ≡ fatal))
unfolding new_controller
new_controller-Inv finished hashes = elim (Bool-cases (length finished == 0)) [
  | inl empty ↦ inr (inl (ground arith), if_true _ _ empty)
  | inr some_ ↦ elim (Bool-cases (length hashes == length finished)) [
    | inl same ↦ inl (
      ground arith,
      ground arith,
      (
        update_completed_flag_if_finished (fresh finished hashes),
        if_false _ _ some_ ∙ if_true _ _ same,
        fresh-Inv finished hashes (ground arith),
      ),
    )
    | inr differ ↦ inr (inr (ground arith), if_false _ _ some_ ∙ if_false _ _ differ)
  ]
]

absent_none :
    (c : Controller) (name : String) → is_absent c.peers name ≡ true → lookup name c.peers ≡ none
absent_none c name h = ground arith

-- In a state that satisfies the invariant, a message about a peer that is not in the map ends the loop. The death of the peer is a
-- fatal error, a change of its choke status or a HAVE makes the goroutine return, and a piece of the
-- torrent that was received from it makes it panic on a nil pointer, after the warning.
pub step_unknown_peer :
    (env : Env) (c : Controller) (name : String) (p : ℕ) (b : Bool) (more : List HavePiece)
    → Inv c
    → is_absent c.peers name ≡ true
    → p < pieces c
    → (step env c (dead_peer name) ≡ fatal)
      × (step env c (choke_status (record { peer_name = name; is_choked = b })) ≡ stopped)
      × (step env c (have_piece (record { piece_num = p; peer_name = name } ∷ more)) ≡ stopped)
      × (step env c (received_piece (record { piece_num = p; peer_name = name })) ≡ panicked)
unfolding step on_dead_peer on_choke_status on_have_pieces mark_available on_received_piece
    remove_piece_from_active_requests
step_unknown_peer env c name p b more v h lp =
    let gone = absent_none c name h in
    let (x, g) = get_elem?-lt c.finished_pieces p lp in
    let c₁ : Controller = finish p c in
    let v₁ : Inv c₁ = finish-Inv p c v in
    let lp₁ : p < pieces c₁ =
      omega (arith, ap length (finish-finished p c), length-set c.finished_pieces p true) in
    let e₂ =
      send_have_lem p (pieces c₁) c₁.peers c₁ lp₁
        (Sized-of_Ok (pieces c₁) (limit c₁) c₁.peers v₁.peers_ok) in
    let gone₁ : lookup name c₁.peers ≡ none =
      subst (λ m. lookup name m ≡ none) (sym (finish-peers p c)) gone in
    (
      rw (gone, on_dead_peer),
      rw (gone, on_choke_status),
      rw (gone, mark_available),
      rw (g, write) (rw e₂ (rw (gone₁, deref))),
    )
