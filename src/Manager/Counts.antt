-- ===== src/Manager/Counts.antt =====
-- The number of peers that the manager keeps is that of its map, whatever the order of events.
use tulva.Prelude.{
  suc, ◌||◌, ◌≤◌, ◌≡◌, refl, ap, sym, ◌∙◌, subst, List, [], ◌∷◌, ◌++◌, true, false, String, some,
  if◌then◌else◌, length, done, string_eq, done-injective, Bool-cases, Option-cases, inl, inr, arith,
  Eq, ==_iff, ◌==◌,
}
use tulva.Prelude.Dict.{
  lookup, insert, delete, is_absent, Distinct, insert-Distinct, delete-Distinct, lookup-insert,
  lookup-delete_ne, lookup-delete_self,
}
use tulva.Prelude.Int.{pos, ◌+ℤ◌, ◌-ℤ◌, inc_pos, dec_pos}
use tulva.Peer.State.{Sizes}
use tulva.Manager.{
  new_peer, is_full, on_seeding, on_tracker_peer, on_connection, on_dead_peer, RunStatus, in_loop,
  in_stop, System, Event, seeding_sent, tracker_sent, connected, stopping_read, dead_peer_taken,
  stop_called_in_run, quit_closed, in_report, is_of_peer, return_run, leave_loop, enter_stop,
  proceed, step, Reached, start, after,
}

module _ {ℓ κ} {K : Type ℓ} ⦃e : Eq K⦄ {V : Type κ} where
  length-insert_new :
      (k : K) (v : V) (m : List (K × V))
      → is_absent m k ≡ true
      → length (insert k v m) ≡ suc (length m)
  length-insert_new k v [] h = refl
  length-insert_new k v ((j, w) ∷ m) h = ground (arith, length-insert_new k v m)

  length-delete_present :
      (k : K) (m : List (K × V)) → is_absent m k ≡ false → suc (length (delete k m)) ≡ length m
  length-delete_present k [] h = absurd (ground arith)
  length-delete_present k ((j, w) ∷ m) h = ground (arith, length-delete_present k m)

  is_absent-insert_lem :
      (k j : K) (v : V) (m : List (K × V))
      → is_absent (insert k v m) j ≡ (if k == j then false else is_absent m j)
  is_absent-insert_lem k j v m = ground (arith, lookup-insert k j v m)

  is_absent-delete_lem :
      (k j : K) (m : List (K × V))
      → Distinct m
      → is_absent (delete k m) j ≡ (if k == j then true else is_absent m j)
  is_absent-delete_lem k j m d = elim (Bool-cases (k == j)) [
    | inl same ↦
        let at : k ≡ j = ground (arith, ==_iff k j) in
        let gone : is_absent (delete k m) k ≡ true = ground (arith, lookup-delete_self k m d) in
        ap (λ i. is_absent (delete k m) i) (sym at)
        ∙ gone
        ∙ ap (λ b. if b then true else is_absent m j) (sym same)
    | inr other ↦ ground (arith, lookup-delete_ne k j m other)
  ]

  is_absent-insert_old :
      (k j : K) (v : V) (m : List (K × V))
      → is_absent m k ≡ false
      → is_absent m j ≡ is_absent (insert k v m) j
  is_absent-insert_old k j v m h = elim (Bool-cases (k == j)) [
    | inl same ↦
        let at : k ≡ j = ground (arith, ==_iff k j) in
        ap (is_absent m) (sym at)
        ∙ h
        ∙ sym (is_absent-insert_lem k j v m ∙ ap (λ b. if b then false else is_absent m j) same)
    | inr other ↦
        sym (is_absent-insert_lem k j v m ∙ ap (λ b. if b then false else is_absent m j) other)
  ]

-- The peers of the map are those whose `Run` has not returned, and they are counted.
pub record Counted (s : System) : Type 0 where
  pub peers_distinct : Distinct s.manager.peers
  pub runs_distinct : Distinct s.runs
  pub same : (k : String) → is_absent s.manager.peers k ≡ is_absent s.runs k
  pub counted : s.manager.num_peers ≡ pos (length s.manager.peers)
  pub bounded : length s.manager.peers ≤ 100

connected-Counted :
    (s : System) (k : String) (names : List String)
    → Counted s
    → is_full s.manager ≡ false
    → is_absent s.manager.peers k ≡ true
    → Counted (record s {
      manager = record s.manager {
        peers = insert k (new_peer s.manager.sizes) s.manager.peers;
        num_peers = s.manager.num_peers +ℤ pos 1;
      };
      runs = insert k in_loop s.runs;
      new_peers = names;
    })
connected-Counted s k names c room new =
    let more : length (insert k (new_peer s.manager.sizes) s.manager.peers)
        ≡ suc (length s.manager.peers) =
      length-insert_new k (new_peer s.manager.sizes) s.manager.peers new in
    record {
      peers_distinct =
          insert-Distinct k (new_peer s.manager.sizes) s.manager.peers c.peers_distinct;
      runs_distinct = insert-Distinct k in_loop s.runs c.runs_distinct;
      same = λ j.
          is_absent-insert_lem k j (new_peer s.manager.sizes) s.manager.peers
          ∙ ap (λ b. if k == j then false else b) (c.same j)
          ∙ sym (is_absent-insert_lem k j in_loop s.runs);
      counted =
          ap (λ n. n +ℤ pos 1) c.counted ∙ inc_pos (length s.manager.peers) ∙ ap pos (sym more);
      bounded = ground (arith, more, c.counted, room);
    }

returned-Counted :
    (s : System) (k : String) (names : List String)
    → Counted s
    → is_absent s.runs k ≡ false
    → Counted (record s {
      manager = on_dead_peer s.manager k;
      runs = delete k s.runs;
      dead_peers = names;
    })
unfolding on_dead_peer
returned-Counted s k names c here =
    let fewer : suc (length (delete k s.manager.peers)) ≡ length s.manager.peers =
      length-delete_present k s.manager.peers (c.same k ∙ here) in
    record {
      peers_distinct = delete-Distinct k s.manager.peers c.peers_distinct;
      runs_distinct = delete-Distinct k s.runs c.runs_distinct;
      same = λ j.
          is_absent-delete_lem k j s.manager.peers c.peers_distinct
          ∙ ap (λ b. if k == j then true else b) (c.same j)
          ∙ sym (is_absent-delete_lem k j s.runs c.runs_distinct);
      counted =
          ap (λ n. n -ℤ pos 1) (c.counted ∙ ap pos (sym fewer))
          ∙ dec_pos (length (delete k s.manager.peers));
      bounded = omega (arith, fewer, c.bounded);
    }

moved-Counted :
    (s : System) (k : String) (status : RunStatus)
    → Counted s
    → is_absent s.runs k ≡ false
    → Counted (record s { runs = insert k status s.runs })
moved-Counted s k status c here = record {
  peers_distinct = c.peers_distinct;
  runs_distinct = insert-Distinct k status s.runs c.runs_distinct;
  same = λ j. c.same j ∙ is_absent-insert_old k j status s.runs here;
  counted = c.counted;
  bounded = c.bounded;
}

found-present :
    (s : System) (k : String) (status : RunStatus)
    → lookup k s.runs ≡ some status
    → is_absent s.runs k ≡ false
found-present s k status e = ground (arith, e)

proceed-Counted :
    (s s' : System) (event : Event) → Counted s → proceed s event ≡ done s' → Counted s'
unfolding proceed on_seeding on_connection return_run leave_loop enter_stop
proceed-Counted s s' (seeding_sent true) c h = subst Counted (done-injective h) (record {
  peers_distinct = c.peers_distinct;
  runs_distinct = c.runs_distinct;
  same = c.same;
  counted = c.counted;
  bounded = c.bounded;
})
proceed-Counted s s' (seeding_sent false) c h = absurd (ground arith)
proceed-Counted s s' (tracker_sent k) c h = elim (Bool-cases (on_tracker_peer s.manager k)) [
  | inl wanted ↦
      let next : System = record s { connecting = s.connecting ++ (k ∷ []) } in
      let e : next ≡ s' = done-injective (sym (rw (wanted, proceed) refl) ∙ h) in
      subst Counted e (record {
        peers_distinct = c.peers_distinct;
        runs_distinct = c.runs_distinct;
        same = c.same;
        counted = c.counted;
        bounded = c.bounded;
      })
  | inr other ↦ subst Counted (done-injective (sym (rw (other, proceed) refl) ∙ h)) c
]
proceed-Counted s s' (connected k) c h = elim (Bool-cases (is_full s.manager)) [
  | inl full ↦ subst Counted (done-injective (sym (rw (full, proceed) refl) ∙ h)) c
  | inr room ↦ elim (Bool-cases (is_absent s.manager.peers k)) [
    | inl new ↦
        subst Counted (done-injective (sym (rw (room, new, proceed) refl) ∙ h))
          (connected-Counted s k (s.new_peers ++ (k ∷ [])) c room new)
    | inr old ↦ subst Counted (done-injective (sym (rw (room, old, proceed) refl) ∙ h)) c
  ]
]
proceed-Counted s s' (stopping_read k) c h = elim (Option-cases (lookup k s.runs)) [
  | inl none_ ↦ absurd (ground arith)
  | inr (in_loop, found) ↦
      subst Counted (done-injective (sym (rw (found, proceed) refl) ∙ h))
        (moved-Counted s k in_report c (found-present s k in_loop found))
  | inr (in_stop, found) ↦ absurd (ground (arith, found))
  | inr (in_report, found) ↦ absurd (ground (arith, found))
]
proceed-Counted s s' (dead_peer_taken k) c h = elim (Option-cases (lookup k s.runs)) [
  | inl none_ ↦ absurd (ground arith)
  | inr (in_loop, found) ↦ absurd (ground (arith, found))
  | inr (in_stop, found) ↦ absurd (ground (arith, found))
  | inr (in_report, found) ↦
      subst Counted (done-injective (sym (rw (found, proceed) refl) ∙ h))
        (returned-Counted s k (s.dead_peers ++ (k ∷ [])) c (found-present s k in_report found))
]
proceed-Counted s s' (stop_called_in_run k) c h = elim (Option-cases (lookup k s.runs)) [
  | inl none_ ↦ absurd (ground arith)
  | inr (in_loop, found) ↦
      subst Counted (done-injective (sym (rw (found, proceed) refl) ∙ h))
        (moved-Counted s k in_stop c (found-present s k in_loop found))
  | inr (in_stop, found) ↦ absurd (ground (arith, found))
  | inr (in_report, found) ↦ absurd (ground (arith, found))
]
proceed-Counted s s' quit_closed c h = subst Counted (done-injective h) (record {
  peers_distinct = c.peers_distinct;
  runs_distinct = c.runs_distinct;
  same = c.same;
  counted = c.counted;
  bounded = c.bounded;
})

-- An event that happens is one that the manager, or a peer, goes on with.
pub step_proceeds :
    (s s' : System) (event : Event) → step s event ≡ done s' → proceed s event ≡ done s'
unfolding step
step_proceeds s s' event h = elim (Bool-cases (is_of_peer event || s.running)) [
  | inl open_ ↦ sym (rw open_ refl) ∙ h
  | inr closed ↦ absurd (ground (arith, closed))
]

pub step-Counted : (s s' : System) (event : Event) → Counted s → step s event ≡ done s' → Counted s'
step-Counted s s' event c h = proceed-Counted s s' event c (step_proceeds s s' event h)

pub Reached-Counted : (sizes : Sizes) (s : System) → Reached sizes s → Counted s
Reached-Counted sizes _ start = record {
  peers_distinct = tt;
  runs_distinct = tt;
  same = λ k. refl;
  counted = refl;
  bounded = omega arith;
}
Reached-Counted sizes s' (after s _ event before e) =
    step-Counted s s' event (Reached-Counted sizes s before) e

-- After any events in any order, `numPeers` is the number of the peers in the map, there are at most 100 of them, and
-- a peer is in the map just when its `Run` has not returned.
pub num_peers-length :
    (sizes : Sizes) (s : System)
    → Reached sizes s
    → (s.manager.num_peers ≡ pos (length s.manager.peers))
      × (length s.manager.peers ≤ 100)
      × ((k : String) → is_absent s.manager.peers k ≡ is_absent s.runs k)
num_peers-length sizes s reached =
    let c = Reached-Counted sizes s reached in (c.counted, c.bounded, c.same)
