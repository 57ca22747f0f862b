-- ===== src/Controller/Invariant.antt =====
-- What holds of the controller between two messages.
pub mod Serve
use tulva.Prelude.{
  ℕ, zero, suc, ◌+◌, ◌-◌, ◌≤◌, ◌<◌, ◌≡◌, refl, ap, sym, subst, ◌∙◌, List, [], ◌∷◌, ◌++◌, Bool, true,
  false, not, some, none, if◌then◌else◌, leb, length, String, Outcome, done, All, All-map, sum_map,
  one_if, arith, Bool-cases, inl, inr, count, IsSimple, string_eq, nat_eq,
}
use tulva.Prelude.Dict.{
  lookup, insert, delete, Distinct, insert-Distinct, delete-Distinct, All-lookup, All-insert,
  All-delete, sum_map-insert, sum_map-delete,
}
use tulva.Prelude.Int.{ℤ}
use tulva.Controller.State.{Controller, PeerInfo, Message, all_finished}
use tulva.Controller.Accounts.{holders, Accounts, Accounts-cong}
use tulva.Controller.Availability.Rarest.{Sized}

-- Of a peer, in a torrent of `n` pieces: it stands at its own name, has an answer for each piece, and
-- its active requests are at most `max` pieces of the torrent, each once, and none while it chokes us.
pub record PeerOk (n max : ℕ) (entry : String × PeerInfo) : Type 0 where
  pub named : entry.1.peer_name ≡ entry.0
  pub sized : length entry.1.available_pieces ≡ n
  pub in_range : All (λ p. leb n p ≡ false) entry.1.active_requests
  pub simple : IsSimple entry.1.active_requests
  pub bounded : length entry.1.active_requests ≤ max
  pub idle : entry.1.is_choked ≡ true → entry.1.active_requests ≡ []

abbrev pub pieces : Controller → ℕ
pieces c = length c.finished_pieces

abbrev pub limit : Controller → ℕ
limit c = c.max_simultaneous_downloads_per_peer

pub record Inv (c : Controller) : Type 0 where
  pub hashes : length c.piece_hashes ≡ pieces c
  pub distinct : Distinct c.peers
  pub peers_ok : All (PeerOk (pieces c) (limit c)) c.peers
  pub accounts : Accounts (pieces c) c.active_requests_totals (holders c.peers)
  pub complete : c.download_complete ≡ all_finished c.finished_pieces

pub Sized-of_Ok :
    (n max : ℕ) (peers : List (String × PeerInfo)) → All (PeerOk n max) peers → Sized n peers
Sized-of_Ok n max peers h =
    All-map (PeerOk n max) (λ entry. length entry.1.available_pieces ≡ n) (λ entry v. v.sized) peers
      h

pub found-PeerOk :
    (c : Controller) (name : String) {info : PeerInfo}
    → Inv c
    → lookup name c.peers ≡ some info
    → PeerOk (pieces c) (limit c) (name, info)
found-PeerOk c name v e = All-lookup (PeerOk (pieces c) (limit c)) name c.peers v.peers_ok e

-- What all the peers but one work on.
abbrev pub others : List (String × PeerInfo) → PeerInfo → ℕ → ℕ
others peers info p = holders peers p - count p info.active_requests

pub count-le-holders :
    (name : String) (peers : List (String × PeerInfo)) {info : PeerInfo} (p : ℕ)
    → lookup name peers ≡ some info
    → count p info.active_requests ≤ holders peers p
count-le-holders name peers p e =
    omega (arith, sum_map-delete (λ entry. count p entry.1.active_requests) name peers e)

pub others-Accounts :
    (c : Controller) (name : String) {info : PeerInfo}
    → Inv c
    → lookup name c.peers ≡ some info
    → Accounts
        (pieces c)
        c.active_requests_totals
        (λ p. others c.peers info p + count p info.active_requests)
others-Accounts c name v e =
    Accounts-cong (pieces c) c.active_requests_totals _ _
      (λ p. omega (arith, count-le-holders name c.peers p e)) v.accounts

-- One peer's record is replaced, with the account kept.
pub replace-Inv :
    (c : Controller) (name : String) (old new : PeerInfo) (totals : List ℤ) (msgs : List Message)
    → Inv c
    → lookup name c.peers ≡ some old
    → PeerOk (pieces c) (limit c) (name, new)
    → Accounts (pieces c) totals (λ p. others c.peers old p + count p new.active_requests)
    → Inv
        (record c { active_requests_totals = totals; peers = insert name new c.peers; sent = msgs })
replace-Inv c name old new totals msgs v e w a = record {
  hashes = v.hashes;
  distinct = insert-Distinct name new c.peers v.distinct;
  peers_ok = All-insert (PeerOk (pieces c) (limit c)) name new c.peers v.peers_ok w;
  accounts =
      Accounts-cong (pieces c) totals _ _
        (λ p. omega (
          arith,
          sum_map-insert (λ entry. count p entry.1.active_requests) name new c.peers e,
          count-le-holders name c.peers p e,
        ))
        a;
  complete = v.complete;
}

-- A peer that works on nothing is forgotten.
pub delete-Inv :
    (c : Controller) (name : String) {info : PeerInfo}
    → Inv c
    → lookup name c.peers ≡ some info
    → info.active_requests ≡ []
    → Inv (record c { peers = delete name c.peers })
delete-Inv c name {info} v e idle = record {
  hashes = v.hashes;
  distinct = delete-Distinct name c.peers v.distinct;
  peers_ok = All-delete (PeerOk (pieces c) (limit c)) name c.peers v.peers_ok;
  accounts =
      Accounts-cong (pieces c) c.active_requests_totals _ _
        (λ p. omega (
          arith,
          sum_map-delete (λ entry. count p entry.1.active_requests) name c.peers e,
          ap (count p) idle,
        ))
        v.accounts;
  complete = v.complete;
}
