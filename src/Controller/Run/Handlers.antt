-- ===== src/Controller/Run/Handlers.antt =====
-- The handlers of the messages from the peer manager, and of a choke status: on a message that fits the
-- state each returns and keeps the invariant.
use tulva.Prelude.{
  ℕ, ◌+◌, ◌≡◌, refl, ap, List, [], Bool, true, false, some, none, length-replicate, String, done,
  Returns, arith, string_eq, nat_eq, count,
}
use tulva.Prelude.Dict.{
  lookup, insert, delete, insert-Distinct, insert-insert, lookup-insert_self, All-insert,
  sum_map-insert_new, is_absent, present,
}
use tulva.Controller.State.{Controller, PeerInfo, new_peer_info, have_pieces, send}
use tulva.Controller.Accounts.{holders, Accounts, Accounts-cong, release_all-Accounts}
use tulva.Controller.Rarity.{Rand}
use tulva.Controller.Requests.{release_all}
use tulva.Controller.Invariant.{
  PeerOk, pieces, limit, Inv, found-PeerOk, count-le-holders, others, others-Accounts, replace-Inv,
  delete-Inv,
}
use tulva.Controller.Invariant.Serve.{send_requests_to_peer-Served}
use tulva.Controller.Run.{
  PeerChokeStatus, bitfield_haves, on_new_peer, on_dead_peer, on_choke_status,
}
use tulva.Controller.Run.Loop.{rarity_lem}

new_peer-PeerOk : (n max : ℕ) (name : String) → PeerOk n max (name, new_peer_info n name)
unfolding new_peer_info
new_peer-PeerOk n max name = record {
  named = refl;
  sized = length-replicate n false;
  in_range = tt;
  simple = λ k. omega arith;
  bounded = omega arith;
  idle = λ e. refl;
}

new_peer-idle : (n p : ℕ) (name : String) → count p (new_peer_info n name).active_requests ≡ 0
unfolding new_peer_info
new_peer-idle n p name = refl

pub on_new_peer-Inv :
    (c : Controller) (name : String)
    → Inv c
    → lookup name c.peers ≡ none
    → Returns Inv (on_new_peer c name)
unfolding on_new_peer
on_new_peer-Inv c name v e = (
  send (have_pieces name (bitfield_haves name 0 c.finished_pieces))
      (record c { peers = insert name (new_peer_info (pieces c) name) c.peers }),
  rw (e, on_new_peer),
  record {
    hashes = v.hashes;
    distinct = insert-Distinct name _ c.peers v.distinct;
    peers_ok =
        All-insert (PeerOk (pieces c) (limit c)) name _ c.peers v.peers_ok
          (new_peer-PeerOk (pieces c) (limit c) name);
    accounts =
        Accounts-cong (pieces c) c.active_requests_totals _ _
          (λ p. omega (
            arith,
            sum_map-insert_new (λ entry. count p entry.1.active_requests) name
                (new_peer_info (pieces c) name) c.peers e,
            new_peer-idle (pieces c) p name,
          ))
          v.accounts;
    complete = v.complete;
  },
)

abbrev idle_peer : PeerInfo → PeerInfo
idle_peer info = record info { active_requests = [] }

idle_peer-PeerOk :
    (n max : ℕ) (name : String) (info : PeerInfo)
    → PeerOk n max (name, info)
    → (b : Bool) → PeerOk n max (name, record info { active_requests = []; is_choked = b })
idle_peer-PeerOk n max name info v b = record {
  named = v.named;
  sized = v.sized;
  in_range = tt;
  simple = λ k. omega arith;
  bounded = omega arith;
  idle = λ e. refl;
}

-- A peer gives up its work: each account of its pieces goes down by one.
release_lem :
    (c : Controller) (name : String) (info : PeerInfo)
    → Inv c
    → lookup name c.peers ≡ some info
    → Returns
        (λ t. Accounts (pieces c) t (λ p. others c.peers info p + 0))
        (release_all info.active_requests c.active_requests_totals)
release_lem c name info v found =
    let (t, e, a) =
      release_all-Accounts (pieces c) info.active_requests c.active_requests_totals
        (holders c.peers) (found-PeerOk c name v found).in_range
        (λ p. count-le-holders name c.peers p found) v.accounts in
    (t, e, Accounts-cong (pieces c) t _ _ (λ p. omega arith) a)

pub on_dead_peer-Inv :
    (c : Controller) (name : String) (info : PeerInfo)
    → Inv c
    → lookup name c.peers ≡ some info
    → Returns Inv (on_dead_peer c name)
unfolding on_dead_peer
on_dead_peer-Inv c name info v found =
    let (t, e, a) = release_lem c name info v found in
    let c' : Controller = record c {
      active_requests_totals = t;
      peers = insert name (idle_peer info) c.peers;
    } in
    let v' : Inv c' =
      replace-Inv c name info (idle_peer info) t c.sent v found
        (idle_peer-PeerOk (pieces c) (limit c) name info (found-PeerOk c name v found)
          info.is_choked)
        a in
    (
      record c' { peers = delete name c'.peers },
      rw (found, on_dead_peer) (rw e),
      delete-Inv c' name v' (lookup-insert_self name (idle_peer info) c.peers) refl,
    )

unchoked-PeerOk :
    (n max : ℕ) (name : String) (info : PeerInfo)
    → PeerOk n max (name, info)
    → PeerOk n max (name, record info { is_choked = false })
unchoked-PeerOk n max name info v = record {
  named = v.named;
  sized = v.sized;
  in_range = v.in_range;
  simple = v.simple;
  bounded = v.bounded;
  idle = λ e. cc;
}

choke-Inv :
    (rand : Rand) (c : Controller) (name : String) (b : Bool) (old : PeerInfo)
    → Inv c
    → lookup name c.peers ≡ some old
    → Returns Inv (on_choke_status rand c (record { peer_name = name; is_choked = b }))
unfolding on_choke_status
choke-Inv rand c name true old v found =
    let (t, e, a) = release_lem c name old v found in
    let new : PeerInfo = record old { active_requests = []; is_choked = true } in
    (
      record c { active_requests_totals = t; peers = insert name new c.peers },
      rw (found, on_choke_status)
          (rw e (
            ap
              (λ (m : List (String × PeerInfo)).
                done (let r : Controller = record c { active_requests_totals = t; peers = m } in r))
              (insert-insert name (record old { is_choked = true }) new c.peers))),
      replace-Inv c name old new t c.sent v found
          (idle_peer-PeerOk (pieces c) (limit c) name old (found-PeerOk c name v found) true) a,
    )
choke-Inv rand c name false old v found =
    let new : PeerInfo = record old { is_choked = false } in
    let c' : Controller = record c { peers = insert name new c.peers } in
    let v' : Inv c' =
      replace-Inv c name old new c.active_requests_totals c.sent v found
        (unchoked-PeerOk (pieces c) (limit c) name old (found-PeerOk c name v found))
        (others-Accounts c name v found) in
    let (slice, e, s) = rarity_lem rand c' v' in
    let (d, e', (_, w)) =
      send_requests_to_peer-Served c' name new slice v' (lookup-insert_self name new c.peers) refl
        s in
    (d, rw (found, on_choke_status) (rw e e'), w)

pub on_choke_status-Inv :
    (rand : Rand) (c : Controller) (status : PeerChokeStatus)
    → Inv c
    → is_absent c.peers status.peer_name ≡ false
    → Returns Inv (on_choke_status rand c status)
on_choke_status-Inv rand c status v h =
    let (old, found) = present c.peers status.peer_name h in
    choke-Inv rand c status.peer_name status.is_choked old v found
