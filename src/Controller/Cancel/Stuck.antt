-- ===== src/Controller/Cancel/Stuck.antt =====
-- `removePieceFromActiveRequests` leaves no request for the piece, so its fatal error never comes.
use tulva.Prelude.{
  ℕ, ◌-◌, ◌≤◌, ◌<◌, ◌≡◌, refl, ap, sym, subst, ◌∙◌, ◌⊎◌, List, [], ◌∷◌, ◌++◌, true, false, not,
  some, if◌then◌else◌, if_true, if_false, leb, get_elem?, String, done, Returns, read, All, one_if,
  arith, Bool-cases, inl, inr, contains, contains-count, not-contains-count, count, count-filterb,
  string_eq, nat_eq, ◌==◌, ==-refl,
}
use native.Mathlib.Nat.{le_refl}
use mathlib.Core.List.{append_assoc, append-nil}
use tulva.Prelude.Dict.{
  lookup, insert, insert-Distinct, All-insert, sum_map-insert, map_values, map_values-Distinct,
  All-map_values,
}
use tulva.Prelude.Int.{ℤ, pos}
use tulva.Pieces.{ReceivedPiece}
use tulva.Controller.State.{Controller, PeerInfo, Message, cancel_piece, set_remove}
use tulva.Controller.Accounts.{
  holders, Accounts, Accounts-cong, dec-Accounts, count-set_remove, count-set_remove_self,
  count-set_remove_ne, length-set_remove, All-set_remove,
}
use tulva.Controller.Cancel.{
  deref, Cancelling, cancel_others, check_stuck, remove_piece_from_active_requests,
}
use tulva.Controller.Invariant.{PeerOk, pieces, limit, Inv, found-PeerOk, count-le-holders}

-- The peer's record without the piece.
abbrev pub drop_piece : ℕ → PeerInfo → PeerInfo
drop_piece p info =
    if contains info.active_requests p
    then record info { active_requests = set_remove p info.active_requests }
    else info

-- One CANCEL to each peer that works on the piece.
abbrev pub cancels : ℕ → List (String × PeerInfo) → List Message
cancels p [] = []
cancels p ((name, info) ∷ peers) =
    let rest = cancels p peers in
    if contains info.active_requests p
    then cancel_piece name (record { piece_num = p }) ∷ rest
    else rest

pub drop_piece-PeerOk :
    (n max p : ℕ) (name : String) (info : PeerInfo)
    → PeerOk n max (name, info)
    → PeerOk n max (name, drop_piece p info)
drop_piece-PeerOk n max p name info v = elim (Bool-cases (contains info.active_requests p)) [
  | inl has ↦ rw has (record {
    named = v.named;
    sized = v.sized;
    in_range = All-set_remove (λ q. leb n q ≡ false) p info.active_requests v.in_range;
    simple =
        λ k. omega (arith, count-filterb k (λ j. not (j == p)) info.active_requests, v.simple k);
    bounded = omega (arith, length-set_remove p info.active_requests, v.bounded);
    idle = λ e. rw (v.idle e);
  })
  | inr lacks ↦ rw lacks v
]

-- `h`, less `k` at the piece `p`.
abbrev pub less_at : ℕ → ℕ → (ℕ → ℕ) → ℕ → ℕ
less_at p k h q = if q == p then h q - k else h q

holders-dropped :
    (p q : ℕ) (peers : List (String × PeerInfo))
    → holders (map_values (drop_piece p) peers) q ≡ (if q == p then 0 else holders peers q)
holders-dropped p q [] = ground arith
holders-dropped p q ((name, info) ∷ peers) = elim (Bool-cases (contains info.active_requests p)) [
  | inl has ↦ rw has (
      ground (
        arith,
        holders-dropped p q peers,
        count-set_remove_self p info.active_requests,
        count-set_remove_ne q p info.active_requests,
      ))
  | inr lacks ↦
      rw lacks
        (ground (arith, holders-dropped p q peers, not-contains-count p info.active_requests lacks))
]

module _ (n max p : ℕ) (lp : p < n) where
  cancel_others_lem :
      (peers : List (String × PeerInfo)) (totals : List ℤ) (sent : List Message) (h : ℕ → ℕ)
      → All (PeerOk n max) peers
      → holders peers p ≤ h p
      → Accounts n totals h
      → (totals' : List ℤ) × (cancel_others p peers totals sent
          ≡ done (record {
            peers = map_values (drop_piece p) peers;
            totals = totals';
            sent = sent ++ cancels p peers;
          }))
        × Accounts n totals' (less_at p (holders peers p) h)
  unfolding cancel_others
  cancel_others_lem [] totals sent h ok le a =
      (totals, rw append-nil, Accounts-cong n totals h _ (λ q. ground arith) a)
  cancel_others_lem ((name, info) ∷ peers) totals sent h ok le a =
      elim (Bool-cases (contains info.active_requests p)) [
        | inl has ↦
            let one : count p info.active_requests ≡ 1 =
              omega (arith, ok.0.simple p, contains-count p info.active_requests has) in
            let (t, e, b) = dec-Accounts n totals h p lp (omega (arith, le, one)) a in
            let (u, e', b') =
              cancel_others_lem peers t
                (sent ++ (cancel_piece name (record { piece_num = p }) ∷ []))
                (λ q. h q - one_if (q == p)) ok.1 (ground (arith, le, one, ==-refl p)) b in
            (
              u,
              rw (has, e, e')
                  (ap
                    (λ (m : List Message). done (
                      let r : Cancelling = record {
                        peers =
                            (
                              name,
                              record info { active_requests = set_remove p info.active_requests },
                            )
                            ∷ map_values (drop_piece p) peers;
                        totals = u;
                        sent = m;
                      } in
                      r))
                    (append_assoc sent (cancel_piece name (record { piece_num = p }) ∷ [])
                      (cancels p peers))),
              Accounts-cong n u _ _ (λ q. ground (arith, one)) b',
            )
        | inr lacks ↦
            let zero_ = not-contains-count p info.active_requests lacks in
            let (u, e', b') = cancel_others_lem peers totals sent h ok.1 (omega (arith, le)) a in
            (u, rw (lacks, e'), Accounts-cong n u _ _ (λ q. ground (arith, zero_)) b')
      ]

-- The peer's record without the piece, which it had.
abbrev pub without : ℕ → PeerInfo → PeerInfo
without p info = record info { active_requests = set_remove p info.active_requests }

-- The controller after a piece has come in from a peer that was asked for it: no peer works on the
-- piece any more, the others have been told to stop, and nothing else has changed.
pub record Stopped (c : Controller) (p : ℕ) (name : String) (info : PeerInfo) (c' : Controller)
    : Type 0 where
  pub totals : List ℤ
  pub result :
      let left = insert name (without p info) c.peers in
      c' ≡ record c {
        peers = map_values (drop_piece p) left;
        active_requests_totals = totals;
        sent = c.sent ++ cancels p left;
      }
  pub nobody : holders c'.peers p ≡ 0

module _ (c : Controller) (piece : ReceivedPiece) (info : PeerInfo) (v : Inv c)
    (lp : piece.piece_num < pieces c) (found : lookup piece.peer_name c.peers ≡ some info) where
  abbrev p : ℕ
  p = piece.piece_num

  abbrev left : List (String × PeerInfo)
  left = insert piece.peer_name (without p info) c.peers

  abbrev dropped : List (String × PeerInfo)
  dropped = map_values (drop_piece p) left

  module _ (has : contains info.active_requests p ≡ true) where
    without-PeerOk : PeerOk (pieces c) (limit c) (piece.peer_name, without p info)
    without-PeerOk =
        subst (λ i. PeerOk (pieces c) (limit c) (piece.peer_name, i)) (if_true _ _ has)
          (drop_piece-PeerOk (pieces c) (limit c) p piece.peer_name info
            (found-PeerOk c piece.peer_name v found))

    holders-left : (q : ℕ) → holders left q ≡ holders c.peers q - one_if (q == p)
    holders-left q = ground (
      arith,
      sum_map-insert (λ entry. count q entry.1.active_requests) piece.peer_name (without p info)
          c.peers found,
      count-set_remove q p info.active_requests ((found-PeerOk c piece.peer_name v found).simple)
          (contains-count p info.active_requests has),
      contains-count p info.active_requests has,
    )

    one-le-holders : 1 ≤ holders c.peers p
    one-le-holders = omega (
      arith,
      count-le-holders piece.peer_name c.peers p found,
      contains-count p info.active_requests has,
    )

    nobody-dropped : holders dropped p ≡ 0
    nobody-dropped = holders-dropped p p left ∙ if_true _ _ (==-refl p)

    asked_for :
        Returns
          (λ c'. Stopped c p piece.peer_name info c' × Inv c')
          (remove_piece_from_active_requests c piece)
    unfolding remove_piece_from_active_requests check_stuck
    asked_for =
        let (t, e, a) =
          dec-Accounts (pieces c) c.active_requests_totals (holders c.peers) p lp one-le-holders
            v.accounts in
        let (u, e', a') =
          cancel_others_lem (pieces c) (limit c) p lp left t c.sent (holders left)
            (All-insert (PeerOk (pieces c) (limit c)) piece.peer_name _ c.peers v.peers_ok
              without-PeerOk)
            (le_refl (holders left p))
            (Accounts-cong (pieces c) t _ _ (λ q. sym (holders-left q)) a) in
        let accounts : Accounts (pieces c) u (holders dropped) =
          Accounts-cong (pieces c) u _ _ (λ q. ground (arith, holders-dropped p q left)) a' in
        let stuck : get_elem? u p ≡ some (pos 0) =
          accounts.exact p lp ∙ ap (λ n. some (pos n)) nobody-dropped in
        (
          record c { peers = dropped; active_requests_totals = u; sent = c.sent ++ cancels p left },
          rw (found, deref) (if_true _ _ has ∙ rw (e, e') (rw (stuck, read))),
          (
            record { totals = u; result = refl; nobody = nobody-dropped },
            record {
              hashes = v.hashes;
              distinct =
                  map_values-Distinct (drop_piece p) left
                    (insert-Distinct piece.peer_name (without p info) c.peers v.distinct);
              peers_ok =
                  All-map_values (drop_piece p) (PeerOk (pieces c) (limit c)) left
                    (λ k i. drop_piece-PeerOk (pieces c) (limit c) p k i)
                    (All-insert (PeerOk (pieces c) (limit c)) piece.peer_name _ c.peers v.peers_ok
                      without-PeerOk);
              accounts = accounts;
              complete = v.complete;
            },
          ),
        )

  -- If the state satisfies the invariant, the piece is one of the torrent and the peer that finished it is
  -- in the map, the function
  -- returns and keeps the invariant. When the peer had been asked for the piece, no peer works on it
  -- any more, each other peer that did has been sent one CANCEL, and nothing else has changed; when
  -- it had not, nothing has changed at all.
  pub remove_piece_from_active_requests-Stopped :
      Returns
        (λ c'.
          (((contains info.active_requests p ≡ true) × Stopped c p piece.peer_name info c')
            ⊎ ((contains info.active_requests p ≡ false) × (c' ≡ c)))
          × Inv c')
        (remove_piece_from_active_requests c piece)
  unfolding remove_piece_from_active_requests
  remove_piece_from_active_requests-Stopped = elim (Bool-cases (contains info.active_requests p)) [
    | inl has ↦ let (c', e, (s, w)) = asked_for has in (c', e, (inl (has, s), w))
    | inr lacks ↦ (c, rw (found, deref) (if_false _ _ lacks), (inr (lacks, refl), v))
  ]
