-- ===== src/Manager/Tests.antt =====
-- Examples for the peer manager.
use tulva.Prelude.{◌≡◌, ◌≤◌, refl, [], ◌∷◌, false, string_eq, String, length}
use tulva.Prelude.Dict.{is_absent}
use tulva.Prelude.Int.{pos, ◌+ℤ◌}
use tulva.Peer.State.{Sizes}
use tulva.Manager.{
  new_peer_manager, new_peer, System, new_system, in_loop, in_stop, connected, proceed, step,
  Reached, start, after,
}
use tulva.Manager.Counts.{num_peers-length}
use tulva.Manager.Stuck.{silent_peer-stays}

abbrev test_sizes : Sizes
test_sizes = record { piece_length = 16384; total_length = 16384; num_pieces = 1 }

abbrev one_connected : System
one_connected = record (new_system test_sizes) {
  manager = record (new_peer_manager test_sizes) {
    peers = ("p", new_peer test_sizes) ∷ [];
    num_peers = pos 0 +ℤ pos 1;
  };
  runs = ("p", in_loop) ∷ [];
  new_peers = "p" ∷ [];
}

connected-once : Reached test_sizes one_connected
unfolding step proceed ◌+ℤ◌
connected-once = after (new_system test_sizes) one_connected (connected "p") start refl

num_peers-length_example :
    (one_connected.manager.num_peers ≡ pos (length one_connected.manager.peers))
    × (length one_connected.manager.peers ≤ 100)
    × ((k : String) → is_absent one_connected.manager.peers k ≡ is_absent one_connected.runs k)
num_peers-length_example = num_peers-length test_sizes one_connected connected-once

abbrev one_stuck : System
one_stuck = record one_connected { runs = ("p", in_stop) ∷ [] }

-- The connection comes once more, and is not kept.
silent_peer-stays_example : is_absent one_stuck.manager.peers "p" ≡ false
unfolding step proceed ◌+ℤ◌
silent_peer-stays_example =
    silent_peer-stays test_sizes one_connected one_stuck "p" (connected "p" ∷ []) connected-once
      refl refl
