-- ===== src/Controller/Requests/Sent.antt =====
-- What `sendRequestsToPeer` sends: the first pieces of the priority list, as many as the peer has
-- room for, and the two accounts of them.
use tulva.Prelude.{
  ℕ, zero, suc, ◌+◌, ◌-◌, ◌≤◌, ◌<◌, ◌≡◌, refl, ap, sym, subst, ◌∙◌, List, [], ◌∷◌, ◌++◌, false, leb,
  length, get_or, take, String, done, Returns, read-lt, All, arith, Bool-cases, inl, inr, contains,
  nat_eq, count, ==-refl, contains-count,
}
use mathlib.Core.List.{append_assoc, append-nil}
use tulva.Prelude.Int.{ℤ}
use tulva.Controller.State.{Message, request_piece}
use tulva.Controller.Accounts.{Accounts, Accounts-cong, inc-Accounts}
use tulva.Controller.Priority.Order.{get_or_of_get_elem?}
use tulva.Controller.Requests.{Serving, send_request, send_loop}

take_nil {ℓ} : {A : Type ℓ} (n : ℕ) → take {A = A} n [] ≡ []
take_nil zero = refl
take_nil (suc n) = refl

-- The requests for the pieces `ps`, each with the hash that the torrent gives for it.
abbrev pub requests : String → List (List ℕ) → List ℕ → List Message
requests name hashes [] = []
requests name hashes (p ∷ ps) =
    request_piece name (record { piece_num = p; expected_hash = get_or hashes p [] })
    ∷ requests name hashes ps

-- The set after the pieces have been added one by one.
abbrev pub added : List ℕ → List ℕ → List ℕ
added [] active = active
added (p ∷ ps) active = added ps (p ∷ active)

pub count-added :
    (k : ℕ) (ps active : List ℕ) → count k (added ps active) ≡ count k ps + count k active
count-added k [] active = omega arith
count-added k (p ∷ ps) active = omega (arith, count-added k ps (p ∷ active))

pub length-added : (ps active : List ℕ) → length (added ps active) ≡ length ps + length active
length-added [] active = omega arith
length-added (p ∷ ps) active = omega (arith, length-added ps (p ∷ active))

pub All-added {ℓ} :
    (P : ℕ → Type ℓ) (ps active : List ℕ) → All P ps → All P active → All P (added ps active)
All-added P [] active h k = k
All-added P (p ∷ ps) active h k = All-added P ps (p ∷ active) h.1 (h.0, k)

-- The peer's record and the controller while `others` counts what the other peers work on.
pub record IsServing (n : ℕ) (others : ℕ → ℕ) (s : Serving) : Type 0 where
  pub hashes : length s.cont.piece_hashes ≡ n
  pub accounts :
      Accounts n s.cont.active_requests_totals (λ p. others p + count p s.peer_info.active_requests)

-- The pieces `ps` have been requested from the peer, and nothing else has changed but the account.
abbrev pub after_sent : String → List ℕ → List ℤ → Serving → Serving
after_sent name ps totals s = record {
  peer_info = record (s.peer_info) { active_requests = added ps s.peer_info.active_requests };
  cont = record (s.cont) {
    active_requests_totals = totals;
    sent = s.cont.sent ++ requests name s.cont.piece_hashes ps;
  };
}

-- Neither list holds a piece twice, nor do they share one.
abbrev pub Disjoint : List ℕ → List ℕ → Type 0
Disjoint ps active = (k : ℕ) → count k ps + count k active ≤ 1

absent : (p : ℕ) (ps active : List ℕ) → Disjoint (p ∷ ps) active → contains active p ≡ false
absent p ps active d = elim (Bool-cases (contains active p)) [
  | inl e ↦ absurd (ground (arith, d p, ==-refl p, contains-count p active))
  | inr e ↦ e
]

module _ (n : ℕ) (others : ℕ → ℕ) (name : String) where
  -- `t` is what remains after the pieces `ps` have been requested, with the account kept.
  abbrev pub Sent : List ℕ → Serving → Serving → Type 0
  Sent ps s t = (totals : List ℤ) × (t ≡ after_sent name ps totals s) × IsServing n others t

  send_request_lem :
      (p : ℕ) (s : Serving)
      → p < n
      → contains s.peer_info.active_requests p ≡ false
      → IsServing n others s
      → Returns (Sent (p ∷ []) s) (send_request name p s)
  unfolding send_request
  send_request_lem p s lp new v =
      let (hash, g, r) = read-lt s.cont.piece_hashes p (omega (arith, v.hashes)) in
      let (ts, e, a) = inc-Accounts n s.cont.active_requests_totals _ p lp v.accounts in
      (
        after_sent name (p ∷ []) ts s,
        rw (r, e, new, get_or_of_get_elem? s.cont.piece_hashes p [] g),
        (
          ts,
          refl,
          record { hashes = v.hashes; accounts = Accounts-cong n ts _ _ (λ q. omega arith) a },
        ),
      )

  Sent-none : (s : Serving) → IsServing n others s → Sent [] s s
  Sent-none s v = (
    s.cont.active_requests_totals,
    ap
        (λ (m : List Message).
          let r : Serving = record {
            peer_info = s.peer_info;
            cont = record (s.cont) { sent = m };
          } in
          r)
        (sym (append-nil s.cont.sent)),
    v,
  )

  Sent-cons :
      (p : ℕ) (ps : List ℕ) (s t u : Serving) → Sent (p ∷ []) s t → Sent ps t u → Sent (p ∷ ps) s u
  Sent-cons p ps s t u (ts, et, v) (us, eu, w) = (
    us,
    eu
        ∙ ap (after_sent name ps us) et
        ∙ ap
            (λ (m : List Message).
              let r : Serving = record {
                peer_info = record (s.peer_info) {
                  active_requests = added (p ∷ ps) s.peer_info.active_requests;
                };
                cont = record (s.cont) { active_requests_totals = us; sent = m };
              } in
              r)
            (append_assoc s.cont.sent (requests name s.cont.piece_hashes (p ∷ []))
              (requests name s.cont.piece_hashes ps)),
    w,
  )

  -- The loop requests the first pieces of the list, up to the limit.
  pub send_loop_lem :
      (ps : List ℕ) (s : Serving)
      → All (λ p. leb n p ≡ false) ps
      → Disjoint ps s.peer_info.active_requests
      → IsServing n others s
      → Returns
          (Sent
            (take
              (s.cont.max_simultaneous_downloads_per_peer - length s.peer_info.active_requests)
              ps)
            s)
          (send_loop name ps s)
  unfolding send_loop
  send_loop_lem [] s b d v = (s, refl, rw take_nil (Sent-none s v))
  send_loop_lem (p ∷ ps) s b d v =
      elim (Bool-cases
        (leb s.cont.max_simultaneous_downloads_per_peer (length s.peer_info.active_requests))) [
          | inl full ↦
              let none_left : s.cont.max_simultaneous_downloads_per_peer
                    - length s.peer_info.active_requests
                  ≡ 0 =
                ground arith in
              (s, rw full, rw none_left (Sent-none s v))
          | inr room ↦
              let (t, e, one) =
                send_request_lem p s (ground (arith, b.0))
                  (absent p ps s.peer_info.active_requests d) v in
              let t' : Serving = after_sent name (p ∷ []) one.0 s in
              let e' : send_request name p s ≡ done t' = e ∙ ap done one.1 in
              let v' : IsServing n others t' = subst (IsServing n others) one.1 one.2 in
              let (u, eu, more) = send_loop_lem ps t' b.1 (λ k. omega (arith, d k)) v' in
              let left : s.cont.max_simultaneous_downloads_per_peer
                    - length s.peer_info.active_requests
                  ≡ suc (
                      s.cont.max_simultaneous_downloads_per_peer
                      - suc (length s.peer_info.active_requests)) =
                ground arith in
              (u, rw (room, e') eu, rw left (Sent-cons p _ s t' u (one.0, refl, v') more))
        ]
