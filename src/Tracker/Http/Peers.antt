-- ===== src/Tracker/Http/Peers.antt =====
-- The compact list of peers, six bytes each.
use tulva.Prelude.{
  ℕ, ◌/◌, ◌%◌, ◌<◌, ◌≡◌, ◌⊎◌, inl, inr, refl, ap, ◌∙◌, List, [], ◌∷◌, ◌++◌, length, All, done,
  panicked, Returns, arith,
}
use tulva.Tracker.{PeerTuple}
use tulva.Tracker.Http.{parse_peers, port_of}

-- The text of the peers: the address, and the port with its high byte first.
abbrev pub compact : List PeerTuple → List ℕ
compact [] = []
compact (peer ∷ peers) = peer.ip ++ peer.port / 256 % 256 ∷ peer.port % 256 ∷ compact peers

-- An address of four bytes and a port of two.
pub record Valid (peer : PeerTuple) : Type 0 where
  pub four : length peer.ip ≡ 4
  pub bytes : All (λ b. b < 256) peer.ip
  pub small : peer.port < 65536

-- One peer is read.
parse_head :
    (ip : List ℕ) (p : ℕ) (rest : List ℕ) (peers : List PeerTuple)
    → length ip ≡ 4
    → p < 65536
    → parse_peers rest ≡ done peers
    → parse_peers (ip ++ p / 256 % 256 ∷ p % 256 ∷ rest)
      ≡ done (record { ip = ip; port = p } ∷ peers)
unfolding parse_peers
parse_head [] p rest peers l h e = absurd (omega (arith, l))
parse_head (a ∷ []) p rest peers l h e = absurd (omega (arith, l))
parse_head (a ∷ b ∷ []) p rest peers l h e = absurd (omega (arith, l))
parse_head (a ∷ b ∷ c ∷ []) p rest peers l h e = absurd (omega (arith, l))
parse_head (a ∷ b ∷ c ∷ d ∷ []) p rest peers l h e =
    let port : port_of (p / 256 % 256) (p % 256) ≡ p = omega (arith, h) in
    (rw e refl) ∙ ap (λ n. done (record { ip = a ∷ b ∷ c ∷ d ∷ []; port = n } ∷ peers)) port
parse_head (a ∷ b ∷ c ∷ d ∷ x ∷ ip) p rest peers l h e = absurd (omega (arith, l))

-- A tracker's list of valid peers, in the compact form, is read as the same peers.
pub parse_peers-compact :
    (peers : List PeerTuple) → All Valid peers → parse_peers (compact peers) ≡ done peers
unfolding parse_peers
parse_peers-compact [] v = refl
parse_peers-compact (peer ∷ peers) (v, vs) =
    parse_head peer.ip peer.port (compact peers) peers v.four v.small (parse_peers-compact peers vs)

-- Every text of bytes whose length is a multiple of 6 is read, as valid peers of which it is the compact form; so no
-- two texts are read as the same peers. With any other length an index is out of range.
pub compact-parse_peers :
    (bytes : List ℕ)
    → All (λ b. b < 256) bytes
    → ((length bytes % 6 ≡ 0)
        × Returns (λ peers. (compact peers ≡ bytes) × All Valid peers) (parse_peers bytes))
      ⊎ ((0 < length bytes % 6) × (parse_peers bytes ≡ panicked))
unfolding parse_peers
compact-parse_peers [] v = inl (omega arith, ([], refl, (refl, tt)))
compact-parse_peers (a ∷ []) v = inr (omega arith, refl)
compact-parse_peers (a ∷ b ∷ []) v = inr (omega arith, refl)
compact-parse_peers (a ∷ b ∷ c ∷ []) v = inr (omega arith, refl)
compact-parse_peers (a ∷ b ∷ c ∷ d ∷ []) v = inr (omega arith, refl)
compact-parse_peers (a ∷ b ∷ c ∷ d ∷ e ∷ []) v = inr (omega arith, refl)
compact-parse_peers (a ∷ b ∷ c ∷ d ∷ e ∷ f ∷ bytes) (va, (vb, (vc, (vd, (ve, (vf, v)))))) =
    elim (compact-parse_peers bytes v) [
      | inr (some_left, e') ↦ inr (omega (arith, some_left), rw e' refl)
      | inl (whole, (peers, e', (same, valid))) ↦ inl (
        omega (arith, whole),
        (
          record { ip = a ∷ b ∷ c ∷ d ∷ []; port = port_of e f } ∷ peers,
          rw e' refl,
          (
            ap (λ xs. a ∷ b ∷ c ∷ d ∷ port_of e f / 256 % 256 ∷ port_of e f % 256 ∷ xs) same
                ∙ ap (λ n. a ∷ b ∷ c ∷ d ∷ n ∷ port_of e f % 256 ∷ bytes) (omega (arith, ve, vf))
                ∙ ap (λ n. a ∷ b ∷ c ∷ d ∷ e ∷ n ∷ bytes) (omega (arith, ve, vf)),
            (
              record {
                four = refl;
                bytes = (va, (vb, (vc, (vd, tt))));
                small = omega (arith, ve, vf);
              },
              valid,
            ),
          ),
        ),
      )
    ]
