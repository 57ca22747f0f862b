-- ===== src/Manager.antt =====
-- peer.go: `PeerManager`, which keeps the connected peers and their number, with the goroutines `Run` of those peers.
-- The name of a peer is the text of its address and port.
pub mod Counts
pub mod Stuck
mod Tests
use tulva.Prelude.{
  ℕ, zero, suc, List, [], ◌∷◌, ◌++◌, Bool, true, false, not, ◌||◌, String, Option, none, some,
  if◌then◌else◌, leb, ltb, replicate, Outcome, done, fatal, stopped, ◌>>=◌, string_eq, ◌≡◌,
}
use tulva.Prelude.Dict.{lookup, insert, delete, is_absent}
use tulva.Prelude.Int.{ℤ, pos, ◌+ℤ◌, ◌-ℤ◌, leb_ℤ}
use tulva.Peer.State.{Sizes}
use tulva.Peer.Messages.{Peer}

abbrev pub max_peers : ℕ
max_peers = 100

pub record PeerManager : Type 0 where
  pub sizes : Sizes
  pub peers : List (String × Peer)
  pub num_peers : ℤ
  pub seeding : Bool

abbrev pub new_peer_manager : Sizes → PeerManager
new_peer_manager sizes = record { sizes = sizes; peers = []; num_peers = pos 0; seeding = false }

-- `NewPeer`: we choke, are choked, and nobody is interested.
abbrev pub new_peer : Sizes → Peer
new_peer sizes = record {
  piece_length = sizes.piece_length;
  total_length = sizes.total_length;
  am_choking = true;
  am_interested = false;
  peer_choking = true;
  peer_interested = false;
  our_bitfield = replicate sizes.num_pieces false;
  peer_bitfield = replicate sizes.num_pieces false;
  downloads = [];
  buffers = [];
  outputs = [];
}

-- `pm.numPeers >= maxPeers`.
abbrev pub is_full : PeerManager → Bool
is_full pm = leb_ℤ (pos max_peers) pm.num_peers

-- The controller has all pieces.
unfoldable pub on_seeding : PeerManager → Bool → Outcome PeerManager
on_seeding pm seeding = if seeding then done (record pm { seeding = true }) else fatal

-- A tracker has named a peer: whether it is connected to.
unfoldable pub on_tracker_peer : PeerManager → String → Bool
on_tracker_peer pm peer_name =
    if pm.seeding || is_full pm then false else is_absent pm.peers peer_name

-- A connection has been made or accepted: whether it is kept, and the manager then.
unfoldable pub on_connection : PeerManager → String → Bool × PeerManager
on_connection pm peer_name =
    if is_full pm
    then (false, pm)
    else if is_absent pm.peers peer_name
    then (
      true,
      record pm {
        peers = insert peer_name (new_peer pm.sizes) pm.peers;
        num_peers = pm.num_peers +ℤ pos 1;
      },
    )
    else (false, pm)

unfoldable pub on_dead_peer : PeerManager → String → PeerManager
on_dead_peer pm peer_name = record pm {
  peers = delete peer_name pm.peers;
  num_peers = pm.num_peers -ℤ pos 1;
}

-- Where the goroutine `Run` of a peer is: in its loop; in a call of its own of `Stop`, which waits for `Run` to read the
-- channel `stopping`; or after its loop, where it waits for the manager to take its name.
pub data RunStatus : Type 0 where
  in_loop : RunStatus
  in_stop : RunStatus
  in_report : RunStatus

-- The manager and whether its own `Run` goes on, the peers whose `Run` has not returned, the names sent to the
-- controller, and the peers that `connectToPeer` was started for.
pub record System : Type 0 where
  pub running : Bool
  pub manager : PeerManager
  pub runs : List (String × RunStatus)
  pub new_peers : List String
  pub dead_peers : List String
  pub connecting : List String

abbrev pub new_system : Sizes → System
new_system sizes = record {
  running = true;
  manager = new_peer_manager sizes;
  runs = [];
  new_peers = [];
  dead_peers = [];
  connecting = [];
}

pub data Event : Type 0 where
  seeding_sent : Bool → Event
  tracker_sent : String → Event
  connected : String → Event
  -- Another goroutine has called `Stop` of the peer, and its `Run` reads that.
  stopping_read : String → Event
  -- The manager takes the name of the peer from its `Run`, which returns.
  dead_peer_taken : String → Event
  -- `Run` of the peer calls `Stop`: at a tick after 120 seconds without a message, or when the keepalive fails.
  stop_called_in_run : String → Event
  quit_closed : Event

-- The manager takes the name of a peer whose `Run` waits with it, and deletes the peer.
unfoldable pub return_run : System → String → RunStatus → Outcome System
unfolding on_dead_peer
return_run s peer_name in_loop = stopped
return_run s peer_name in_report = done (record s {
  manager = on_dead_peer s.manager peer_name;
  runs = delete peer_name s.runs;
  dead_peers = s.dead_peers ++ (peer_name ∷ []);
})
return_run s peer_name in_stop = stopped

-- `Run` of a peer leaves its loop.
unfoldable pub leave_loop : System → String → RunStatus → Outcome System
leave_loop s peer_name in_loop = done (record s { runs = insert peer_name in_report s.runs })
leave_loop s peer_name in_stop = stopped
leave_loop s peer_name in_report = stopped

unfoldable pub enter_stop : System → String → RunStatus → Outcome System
enter_stop s peer_name in_loop = done (record s { runs = insert peer_name in_stop s.runs })
enter_stop s peer_name in_stop = stopped
enter_stop s peer_name in_report = stopped

-- The event is a peer's own, and not a message that the manager takes.
abbrev pub is_of_peer : Event → Bool
is_of_peer (seeding_sent seeding) = false
is_of_peer (tracker_sent peer_name) = false
is_of_peer (connected peer_name) = false
is_of_peer (stopping_read peer_name) = true
is_of_peer (dead_peer_taken peer_name) = false
is_of_peer (stop_called_in_run peer_name) = true
is_of_peer quit_closed = false

unfoldable pub proceed : System → Event → Outcome System
unfolding on_seeding on_tracker_peer on_connection return_run leave_loop enter_stop
proceed s (seeding_sent seeding) =
    on_seeding s.manager seeding >>= λ manager. done (record s { manager = manager })
proceed s (tracker_sent peer_name) =
    if on_tracker_peer s.manager peer_name
    then done (record s { connecting = s.connecting ++ (peer_name ∷ []) })
    else done s
proceed s (connected peer_name) =
    let answer = on_connection s.manager peer_name in
    if answer.0
    then done (record s {
      manager = answer.1;
      runs = insert peer_name in_loop s.runs;
      new_peers = s.new_peers ++ (peer_name ∷ []);
    })
    else done s
proceed s (stopping_read peer_name) = elim (lookup peer_name s.runs) [
  | none ↦ stopped
  | some status ↦ leave_loop s peer_name status
]
proceed s (dead_peer_taken peer_name) = elim (lookup peer_name s.runs) [
  | none ↦ stopped
  | some status ↦ return_run s peer_name status
]
proceed s (stop_called_in_run peer_name) = elim (lookup peer_name s.runs) [
  | none ↦ stopped
  | some status ↦ enter_stop s peer_name status
]
proceed s quit_closed = done (record s { running = false })

-- `stopped` is an event that cannot happen, as a message to the manager when its `Run` has returned.
unfoldable pub step : System → Event → Outcome System
unfolding proceed
step s event = if is_of_peer event || s.running then proceed s event else stopped

-- The systems that some order of events leads to.
pub data Reached (sizes : Sizes) : System → Type 0 where
  start : Reached sizes (new_system sizes)
  after :
      (s s' : System) (event : Event) → Reached sizes s → step s event ≡ done s' → Reached sizes s'
