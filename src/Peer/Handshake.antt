-- ===== src/Peer/Handshake.antt =====
-- peer.go: the handshake that each side of a connection sends first, and `reader` with the handshake before its loop.
pub mod Greeting
mod Tests
use tulva.Prelude.{
  ℕ, ◌-◌, List, [], ◌∷◌, ◌++◌, Bool, true, false, not, Option, none, some, if◌then◌else◌, ◌==◌,
  nat_eq, length, take, drop, replicate, equal_bytes,
}
use tulva.Peer.Wire.{read_full, read_payloads}

-- The text `BitTorrent protocol`.
abbrev pub protocol : List ℕ
protocol =
    66 ∷ 105 ∷ 116 ∷ 84 ∷ 111 ∷ 114 ∷ 114 ∷ 101 ∷ 110 ∷ 116 ∷ 32 ∷ 112 ∷ 114 ∷ 111 ∷ 116 ∷ 111 ∷ 99
    ∷ 111 ∷ 108 ∷ []

-- Arrays of 19, 8, 20 and 20 bytes behind the length.
pub record Handshake : Type 0 where
  pub len : ℕ
  pub protocol_name : List ℕ
  pub reserved : List ℕ
  pub info_hash : List ℕ
  pub peer_id : List ℕ

pub data HandshakeError : Type 0 where
  unexpected_length : HandshakeError
  protocol_mismatch : HandshakeError
  invalid_info_hash : HandshakeError

-- No error is `none`.
unfoldable pub verify_handshake : Handshake → List ℕ → Option HandshakeError
verify_handshake handshake info_hash =
    if not (handshake.len == length protocol)
    then some unexpected_length
    else if not (equal_bytes handshake.protocol_name protocol)
    then some protocol_mismatch
    else if not (equal_bytes handshake.info_hash info_hash)
    then some invalid_info_hash
    else none

-- `binary.Read` of a handshake from its 68 bytes.
unfoldable pub decode_handshake : List ℕ → Handshake
decode_handshake [] = record {
  len = 0;
  protocol_name = [];
  reserved = [];
  info_hash = [];
  peer_id = [];
}
decode_handshake (b ∷ bytes) = record {
  len = b;
  protocol_name = take 19 bytes;
  reserved = take 8 (drop 19 bytes);
  info_hash = take 20 (drop 27 bytes);
  peer_id = take 20 (drop 47 bytes);
}

unfoldable pub read_handshake : List ℕ → Option (Handshake × List ℕ)
unfolding decode_handshake
read_handshake input = elim (read_full 68 input) [
  | none ↦ none
  | some r ↦ some (decode_handshake r.0, r.1)
]

-- What `sendHandshake` writes; `info_hash` is copied into an array of zeros.
unfoldable pub send_handshake : List ℕ → List ℕ → List ℕ
send_handshake info_hash peer_id =
    length protocol ∷ protocol
    ++ replicate 8 0
    ++ (take 20 info_hash ++ replicate (20 - length info_hash) 0)
    ++ peer_id

-- What `reader` learns: the peer's ID, and the payloads that it hands to `decodeMessage`.
pub record Session : Type 0 where
  pub peer_id : List ℕ
  pub payloads : List (List ℕ)

-- `none`: the connection ends before a message.
unfoldable pub reader : List ℕ → List ℕ → Option Session
unfolding read_handshake verify_handshake
reader info_hash input = elim (read_handshake input) [
  | none ↦ none
  | some r ↦ elim (verify_handshake r.0 info_hash) [
    | some error ↦ none
    | none ↦ some (record { peer_id = r.0.peer_id; payloads = read_payloads r.1 })
  ]
]
