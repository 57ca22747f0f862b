-- ===== src/Manager/Stuck.antt =====
-- A `Run` that calls `Stop` itself waits for ever: it is the only reader of `stopping`.
use tulva.Prelude.{
  ◌≡◌, refl, ap, sym, ◌∙◌, List, [], ◌∷◌, ◌++◌, true, false, String, some, Outcome, done, ◌>>=◌,
  string_eq, done-injective, Outcome-cases, Bool-cases, Option-cases, inl, inr, arith, ==_iff,
}
use tulva.Prelude.Dict.{
  lookup, insert, delete, is_absent, lookup-insert, lookup-delete_ne, lookup-insert_self,
}
use tulva.Prelude.Int.{pos, ◌+ℤ◌}
use tulva.Peer.State.{Sizes}
use tulva.Manager.{
  new_peer, is_full, on_seeding, on_tracker_peer, on_connection, on_dead_peer, in_loop, in_stop,
  System, Event, seeding_sent, tracker_sent, connected, stopping_read, dead_peer_taken,
  stop_called_in_run, quit_closed, RunStatus, in_report, return_run, leave_loop, enter_stop,
  proceed, step, Reached,
}
use tulva.Manager.Counts.{Counted, Reached-Counted, step-Counted, step_proceeds}

-- Any further events.
abbrev pub steps : List Event → System → Outcome System
steps [] s = done s
steps (event ∷ events) s = step s event >>= λ s'. steps events s'

-- The states after a connection that is kept, when `Run` of a peer goes on, and after its return.
abbrev connect : System → String → System
connect s j = record s {
  manager = record s.manager {
    peers = insert j (new_peer s.manager.sizes) s.manager.peers;
    num_peers = s.manager.num_peers +ℤ pos 1;
  };
  runs = insert j in_loop s.runs;
  new_peers = s.new_peers ++ (j ∷ []);
}

abbrev go_on : System → String → RunStatus → System
go_on s j status = record s { runs = insert j status s.runs }

abbrev return_loop : System → String → System
return_loop s j = record s {
  manager = on_dead_peer s.manager j;
  runs = delete j s.runs;
  dead_peers = s.dead_peers ++ (j ∷ []);
}

module _ (k : String) where
  -- Another peer goes on.
  moved :
      (s s' : System) (j : String) (status : RunStatus)
      → lookup k s.runs ≡ some in_stop
      → lookup j s.runs ≡ some in_loop
      → go_on s j status ≡ s'
      → lookup k s'.runs ≡ some in_stop
  moved s s' j status stuck found e =
      let next : lookup k (insert j status s.runs) ≡ some in_stop =
        ground (arith, lookup-insert j k status s.runs, ==_iff j k, found, stuck) in
      ap (λ t. lookup k t.runs) (sym e) ∙ next

  proceed-stuck :
      (s s' : System) (event : Event)
      → Counted s
      → lookup k s.runs ≡ some in_stop
      → proceed s event ≡ done s'
      → lookup k s'.runs ≡ some in_stop
  unfolding proceed on_seeding on_connection return_run leave_loop enter_stop
  proceed-stuck s s' (seeding_sent true) c stuck h =
      ap (λ t. lookup k t.runs) (sym (done-injective h)) ∙ stuck
  proceed-stuck s s' (seeding_sent false) c stuck h = absurd (ground arith)
  proceed-stuck s s' (tracker_sent j) c stuck h = elim (Bool-cases (on_tracker_peer s.manager j)) [
    | inl wanted ↦
        let e : (let t : System = record s { connecting = s.connecting ++ (j ∷ []) } in t) ≡ s' =
          done-injective (sym (rw (wanted, proceed) refl) ∙ h) in
        ap (λ t. lookup k t.runs) (sym e) ∙ stuck
    | inr other ↦
        let e : s ≡ s' = done-injective (sym (rw (other, proceed) refl) ∙ h) in
        ap (λ t. lookup k t.runs) (sym e) ∙ stuck
  ]
  proceed-stuck s s' (connected j) c stuck h = elim (Bool-cases (is_full s.manager)) [
    | inl full ↦
        let e : s ≡ s' = done-injective (sym (rw (full, proceed) refl) ∙ h) in
        ap (λ t. lookup k t.runs) (sym e) ∙ stuck
    | inr room ↦ elim (Bool-cases (is_absent s.manager.peers j)) [
      | inl new ↦
          let next : lookup k (insert j in_loop s.runs) ≡ some in_stop =
            ground (arith, lookup-insert j k in_loop s.runs, ==_iff j k, c.same j, new, stuck) in
          let e : connect s j ≡ s' = done-injective (sym (rw (room, new, proceed) refl) ∙ h) in
          ap (λ t. lookup k t.runs) (sym e) ∙ next
      | inr old ↦
          let e : s ≡ s' = done-injective (sym (rw (room, old, proceed) refl) ∙ h) in
          ap (λ t. lookup k t.runs) (sym e) ∙ stuck
    ]
  ]
  proceed-stuck s s' (stopping_read j) c stuck h = elim (Option-cases (lookup j s.runs)) [
    | inl none_ ↦ absurd (ground arith)
    | inr (in_loop, found) ↦
        moved s s' j in_report stuck found (done-injective (sym (rw (found, proceed) refl) ∙ h))
    | inr (in_stop, found) ↦ absurd (ground (arith, found))
    | inr (in_report, found) ↦ absurd (ground (arith, found))
  ]
  proceed-stuck s s' (dead_peer_taken j) c stuck h = elim (Option-cases (lookup j s.runs)) [
    | inl none_ ↦ absurd (ground arith)
    | inr (in_loop, found) ↦ absurd (ground (arith, found))
    | inr (in_stop, found) ↦ absurd (ground (arith, found))
    | inr (in_report, found) ↦
        let next : lookup k (delete j s.runs) ≡ some in_stop =
          lookup-delete_ne j k s.runs (ground (arith, ==_iff j k, found, stuck)) ∙ stuck in
        let e : return_loop s j ≡ s' = done-injective (sym (rw (found, proceed) refl) ∙ h) in
        ap (λ t. lookup k t.runs) (sym e) ∙ next
  ]
  proceed-stuck s s' (stop_called_in_run j) c stuck h = elim (Option-cases (lookup j s.runs)) [
    | inl none_ ↦ absurd (ground arith)
    | inr (in_loop, found) ↦
        moved s s' j in_stop stuck found (done-injective (sym (rw (found, proceed) refl) ∙ h))
    | inr (in_stop, found) ↦ absurd (ground (arith, found))
    | inr (in_report, found) ↦ absurd (ground (arith, found))
  ]
  proceed-stuck s s' quit_closed c stuck h =
      ap (λ t. lookup k t.runs) (sym (done-injective h)) ∙ stuck

  step-stuck :
      (s s' : System) (event : Event)
      → Counted s
      → lookup k s.runs ≡ some in_stop
      → step s event ≡ done s'
      → lookup k s'.runs ≡ some in_stop
  step-stuck s s' event c stuck h = proceed-stuck s s' event c stuck (step_proceeds s s' event h)

  steps-stuck :
      (events : List Event) (s s' : System)
      → Counted s
      → lookup k s.runs ≡ some in_stop
      → steps events s ≡ done s'
      → is_absent s'.manager.peers k ≡ false
  steps-stuck [] s s' c stuck h =
      ap (λ t. is_absent t.manager.peers k) (sym (done-injective h))
      ∙ c.same k
      ∙ ground (arith, stuck)
  steps-stuck (event ∷ events) s s' c stuck h = elim (Outcome-cases (step s event) (steps events)) [
    | inl (s1, e) ↦
        steps-stuck events s1 s' (step-Counted s s1 event c e) (step-stuck s s1 event c stuck e)
          (sym (rw e refl) ∙ h)
    | inr failed ↦ absurd (failed s' h)
  ]

-- In every state that the program reaches, when `Run` of a peer in its loop calls `Stop` itself, as it does after 120
-- seconds without a message, the peer is in the manager's map after any events that follow.
pub silent_peer-stays :
    (sizes : Sizes) (s s' : System) (k : String) (events : List Event)
    → Reached sizes s
    → lookup k s.runs ≡ some in_loop
    → steps (stop_called_in_run k ∷ events) s ≡ done s'
    → is_absent s'.manager.peers k ≡ false
unfolding step proceed enter_stop
silent_peer-stays sizes s s' k events reached found h =
    let c = Reached-Counted sizes s reached in
    let entered : step s (stop_called_in_run k)
        ≡ done (record s { runs = insert k in_stop s.runs }) =
      rw (found, proceed) refl in
    steps-stuck k events (record s { runs = insert k in_stop s.runs }) s'
      (step-Counted s _ (stop_called_in_run k) c entered) (lookup-insert_self k in_stop s.runs)
      (sym (rw entered refl) ∙ h)
