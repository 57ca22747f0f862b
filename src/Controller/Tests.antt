-- ===== src/Controller/Tests.antt =====
-- The controller's theorems at concrete states, and runs of its functions.
use tulva.Prelude.{
  ℕ, zero, suc, ◌-◌, ◌<◌, ◌≡◌, refl, ◌≢◌, ◌⊎◌, List, [], ◌∷◌, Bool, true, false, some, length,
  get_elem?, done, fatal, panicked, Returns, arith, contains, nat_eq, string_eq,
}
use tulva.Prelude.Int.{pos}
use tulva.Prelude.Dict.{map_values}
use tulva.Pieces.{ReceivedPiece}
use tulva.Controller.State.{Controller, PeerInfo, new_controller}
use tulva.Controller.Accounts.{holders}
use tulva.Controller.Rarity.{Rand, put, new_rarity_map}
use tulva.Controller.Availability.{create_rarity_slice}
use tulva.Controller.Availability.Rarest.{IsRarityOrder, create_rarity_slice-IsRarityOrder}
use tulva.Controller.Priority.{create_download_priority_for_peer}
use tulva.Controller.Priority.Order.{
  IsPriorityOrder, create_download_priority_for_peer-IsPriorityOrder,
}
use tulva.Controller.Requests.{send_requests_to_peer}
use tulva.Controller.Cancel.{remove_piece_from_active_requests}
use tulva.Controller.Cancel.Stuck.{Stopped, remove_piece_from_active_requests-Stopped}
use tulva.Controller.Invariant.{PeerOk, Inv}
use tulva.Controller.Invariant.Serve.{Served, IsSlice, send_requests_to_peer-Served}
use tulva.Controller.Run.{Env, received_piece, step, run, update_quantities}
use tulva.Controller.Run.Have.{update_quantities_lem, with_quantity}
use tulva.Controller.Run.Steps.{run-Inv, new_controller-Inv, step_unknown_peer}

draw_last : (k n : ℕ) → 0 < n → n - 1 < n
draw_last k n h = omega arith

abbrev last_rand : Rand
last_rand = record { draw = λ k n. n - 1; draw_lt = draw_last }

abbrev plain_env : Env
plain_env = record { rand = last_rand; visit = λ peers. peers; visit-SameItems = λ peers g. refl }

abbrev alice : PeerInfo
alice = record {
  peer_name = "alice";
  is_choked = false;
  available_pieces = true ∷ true ∷ false ∷ true ∷ [];
  active_requests = 0 ∷ [];
  qty_pieces_needed = 0;
}

abbrev bob : PeerInfo
bob = record {
  peer_name = "bob";
  is_choked = false;
  available_pieces = true ∷ false ∷ true ∷ true ∷ [];
  active_requests = 3 ∷ 0 ∷ [];
  qty_pieces_needed = 0;
}

-- Four pieces, of which the third is finished; both peers work on the first.
abbrev busy : Controller
busy = record {
  finished_pieces = false ∷ false ∷ true ∷ false ∷ [];
  piece_hashes = (10 ∷ []) ∷ (11 ∷ []) ∷ (12 ∷ []) ∷ (13 ∷ []) ∷ [];
  active_requests_totals = pos 2 ∷ pos 0 ∷ pos 0 ∷ pos 1 ∷ [];
  peers = ("alice", alice) ∷ ("bob", bob) ∷ [];
  max_simultaneous_downloads_per_peer = 5;
  download_complete = false;
  sent = [];
}

busy-exact :
    (p : ℕ) → p < 4 → get_elem? busy.active_requests_totals p ≡ some (pos (holders busy.peers p))
busy-exact zero h = refl
busy-exact (suc zero) h = refl
busy-exact (suc (suc zero)) h = refl
busy-exact (suc (suc (suc zero))) h = refl
busy-exact (suc (suc (suc (suc p)))) h = absurd (omega arith)

alice-PeerOk : PeerOk 4 5 ("alice", alice)
alice-PeerOk = record {
  named = refl;
  sized = refl;
  in_range = (refl, tt);
  simple = λ k. ground arith;
  bounded = omega arith;
  idle = λ e. cc;
}

bob-PeerOk : PeerOk 4 5 ("bob", bob)
bob-PeerOk = record {
  named = refl;
  sized = refl;
  in_range = (refl, (refl, tt));
  simple = λ k. ground arith;
  bounded = omega arith;
  idle = λ e. cc;
}

busy-Inv : Inv busy
busy-Inv = record {
  hashes = refl;
  distinct = (refl, (refl, tt));
  peers_ok = (alice-PeerOk, (bob-PeerOk, tt));
  accounts = record { sized = refl; exact = busy-exact };
  complete = refl;
}

abbrev first_from_alice : ReceivedPiece
first_from_alice = record { piece_num = 0; peer_name = "alice" }

run-Inv_example : Returns Inv (run busy ((plain_env, received_piece first_from_alice) ∷ []))
run-Inv_example =
    run-Inv busy ((plain_env, received_piece first_from_alice) ∷ []) busy-Inv
      ((omega arith, refl), λ c e. tt)

abbrev two_pieces : List Bool
two_pieces = false ∷ true ∷ []

abbrev one_hash : List (List ℕ)
one_hash = (7 ∷ []) ∷ []

new_controller-Inv_example :
    ((0 < length two_pieces)
      × (length one_hash ≡ length two_pieces)
      × Returns Inv (new_controller two_pieces one_hash))
    ⊎ (((length two_pieces ≡ 0) ⊎ (length one_hash ≢ length two_pieces))
        × (new_controller two_pieces one_hash ≡ fatal))
new_controller-Inv_example = new_controller-Inv two_pieces one_hash

step_unknown_peer_example :
    step plain_env busy (received_piece (record { piece_num = 1; peer_name = "carol" })) ≡ panicked
step_unknown_peer_example =
    (step_unknown_peer plain_env busy "carol" 1 true [] busy-Inv refl (omega arith)).3

create_rarity_slice-IsRarityOrder_example :
    Returns (IsRarityOrder busy) (create_rarity_slice last_rand busy)
create_rarity_slice-IsRarityOrder_example =
    create_rarity_slice-IsRarityOrder last_rand busy (refl, (refl, tt))

create_download_priority_for_peer-IsPriorityOrder_example :
    Returns
      (IsPriorityOrder busy alice (1 ∷ 3 ∷ 0 ∷ []))
      (create_download_priority_for_peer busy alice (1 ∷ 3 ∷ 0 ∷ []))
create_download_priority_for_peer-IsPriorityOrder_example =
    create_download_priority_for_peer-IsPriorityOrder 4 busy alice (1 ∷ 3 ∷ 0 ∷ []) refl refl
      (refl, (refl, (refl, tt)))

abbrev wanted_slice : List ℕ
wanted_slice = 1 ∷ 3 ∷ 0 ∷ []

wanted_slice-IsSlice : IsSlice 4 wanted_slice
wanted_slice-IsSlice = record { in_range = (refl, (refl, (refl, tt))); simple = λ k. ground arith }

send_requests_to_peer-Served_example :
    Returns
      (λ c. Served busy "alice" alice wanted_slice c × Inv c)
      (send_requests_to_peer busy "alice" alice wanted_slice)
send_requests_to_peer-Served_example =
    send_requests_to_peer-Served busy "alice" alice wanted_slice busy-Inv refl refl
      wanted_slice-IsSlice

remove_piece_from_active_requests-Stopped_example :
    Returns
      (λ c.
        (((contains alice.active_requests 0 ≡ true) × Stopped busy 0 "alice" alice c)
          ⊎ ((contains alice.active_requests 0 ≡ false) × (c ≡ busy)))
        × Inv c)
      (remove_piece_from_active_requests busy first_from_alice)
remove_piece_from_active_requests-Stopped_example =
    remove_piece_from_active_requests-Stopped busy first_from_alice alice busy-Inv (omega arith)
      refl

update_quantities_lem_example :
    update_quantities busy.finished_pieces busy.peers
    ≡ done (map_values (with_quantity busy.finished_pieces) busy.peers)
update_quantities_lem_example =
    update_quantities_lem busy.finished_pieces busy.peers (refl, (refl, tt))

-- The rarest piece that is wanted comes first: only alice has piece 1.
busy_rarity : create_rarity_slice last_rand busy ≡ done (1 ∷ 0 ∷ 3 ∷ [])
unfolding create_rarity_slice put new_rarity_map
busy_rarity = refl
