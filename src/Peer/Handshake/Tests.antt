-- ===== src/Peer/Handshake/Tests.antt =====
-- Examples for the handshake.
use tulva.Prelude.{ℕ, ◌≡◌, ◌≢◌, refl, List, [], ◌∷◌, ◌++◌, some, none, replicate, arith}
use tulva.Peer.Wire.Framing.{stream}
use tulva.Peer.Handshake.{send_handshake, reader}
use tulva.Peer.Handshake.Greeting.{reader-send_handshake}

abbrev our_hash : List ℕ
our_hash = replicate 20 7

abbrev other_hash : List ℕ
other_hash = replicate 20 8

abbrev peer_id : List ℕ
peer_id = replicate 20 84

-- A message HAVE for the third piece.
abbrev messages : List (ℕ × List ℕ)
messages = (4, 0 ∷ 0 ∷ 0 ∷ 2 ∷ []) ∷ []

reader-send_handshake_example :
    (reader our_hash (send_handshake our_hash peer_id ++ stream messages)
      ≡ some (record { peer_id = peer_id; payloads = (4 ∷ 0 ∷ 0 ∷ 0 ∷ 2 ∷ []) ∷ [] }))
    × (our_hash ≢ other_hash
        → reader other_hash (send_handshake our_hash peer_id ++ stream messages) ≡ none)
reader-send_handshake_example =
    reader-send_handshake our_hash other_hash peer_id messages refl refl
      ((omega arith, omega arith), tt)
