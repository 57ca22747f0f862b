-- ===== src/Peer/Handshake/Greeting.antt =====
-- What one side sends, and what the other makes of it.
use tulva.Prelude.{
  ℕ, ◌-◌, ◌≡◌, ◌≢◌, refl, ap, sym, ◌∙◌, List, [], ◌∷◌, ◌++◌, true, false, Option, none, some,
  nat_eq, length, length-append, take, drop, map, replicate, equal_bytes, All, arith, Bool-cases,
  inl, inr,
}
use mathlib.Core.List.{append-nil}
use tulva.Prelude.Slices.{take_all, take-length-append, drop-length-append}
use tulva.Peer.Wire.{read_full, read_payloads}
use tulva.Peer.Wire.Framing.{Fits, stream, read_full_lem, read_payloads-stream}
use tulva.Peer.Handshake.{
  protocol, Handshake, HandshakeError, invalid_info_hash, verify_handshake, decode_handshake,
  read_handshake, send_handshake, reader,
}

equal_bytes_refl : (xs : List ℕ) → equal_bytes xs xs ≡ true
equal_bytes_refl [] = refl
equal_bytes_refl (x ∷ xs) = ground (arith, equal_bytes_refl xs)

equal_bytes-eq : (xs ys : List ℕ) → equal_bytes xs ys ≡ true → xs ≡ ys
equal_bytes-eq [] [] e = refl
equal_bytes-eq [] (y ∷ ys) e = absurd (ground arith)
equal_bytes-eq (x ∷ xs) [] e = absurd (ground arith)
equal_bytes-eq (x ∷ xs) (y ∷ ys) e = ground (arith, equal_bytes-eq xs ys)

take_len : (n : ℕ) (xs ys : List ℕ) → length xs ≡ n → take n (xs ++ ys) ≡ xs
take_len n xs ys e = ap (λ k. take k (xs ++ ys)) (sym e) ∙ take-length-append xs ys

drop_len : (n : ℕ) (xs ys : List ℕ) → length xs ≡ n → drop n (xs ++ ys) ≡ ys
drop_len n xs ys e = ap (λ k. drop k (xs ++ ys)) (sym e) ∙ drop-length-append xs ys

-- The parts of what is sent.
sent : List ℕ → List ℕ → Handshake
sent info_hash peer_id = record {
  len = 19;
  protocol_name = protocol;
  reserved = replicate 8 0;
  info_hash = info_hash;
  peer_id = peer_id;
}

-- A hash of 20 bytes is sent as it is.
copied :
    (info_hash : List ℕ)
    → length info_hash ≡ 20
    → take 20 info_hash ++ replicate (20 - length info_hash) 0 ≡ info_hash
copied info_hash l =
    ap (λ n. take 20 info_hash ++ replicate (20 - n) 0) l
    ∙ append-nil (take 20 info_hash)
    ∙ take_all 20 info_hash (omega (arith, l))

length-send_handshake :
    (info_hash peer_id : List ℕ)
    → length info_hash ≡ 20
    → length peer_id ≡ 20
    → length (send_handshake info_hash peer_id) ≡ 68
unfolding send_handshake
length-send_handshake info_hash peer_id l m =
    let hash = take 20 info_hash ++ replicate (20 - length info_hash) 0 in
    omega (arith, length-append hash peer_id, ap length (copied info_hash l), l, m)

decode_handshake-send_handshake :
    (info_hash peer_id : List ℕ)
    → length info_hash ≡ 20
    → length peer_id ≡ 20
    → decode_handshake (send_handshake info_hash peer_id) ≡ sent info_hash peer_id
unfolding send_handshake decode_handshake sent
decode_handshake-send_handshake info_hash peer_id l m =
    let same = copied info_hash l in
    let hash : take 20 (info_hash ++ peer_id) ≡ info_hash = take_len 20 info_hash peer_id l in
    let id : take 20 (drop 20 (info_hash ++ peer_id)) ≡ peer_id =
      ap (take 20) (drop_len 20 info_hash peer_id l) ∙ take_all 20 peer_id (omega (arith, m)) in
    ap (λ xs. decode_handshake (19 ∷ protocol ++ replicate 8 0 ++ xs ++ peer_id)) same
    ∙ ap
        (λ xs.
          (let h : Handshake = record {
            len = 19;
            protocol_name = protocol;
            reserved = replicate 8 0;
            info_hash = xs;
            peer_id = take 20 (drop 20 (info_hash ++ peer_id));
          } in
            h))
        hash
    ∙ ap
        (λ xs.
          (let h : Handshake = record {
            len = 19;
            protocol_name = protocol;
            reserved = replicate 8 0;
            info_hash = info_hash;
            peer_id = xs;
          } in
            h))
        id

read_handshake-send_handshake :
    (info_hash peer_id rest : List ℕ)
    → length info_hash ≡ 20
    → length peer_id ≡ 20
    → read_handshake (send_handshake info_hash peer_id ++ rest)
      ≡ some (sent info_hash peer_id, rest)
unfolding read_handshake
read_handshake-send_handshake info_hash peer_id rest l m =
    let bytes = send_handshake info_hash peer_id in
    let whole : read_full 68 (bytes ++ rest) ≡ some (bytes, rest) =
      ap (λ n. read_full n (bytes ++ rest)) (sym (length-send_handshake info_hash peer_id l m))
      ∙ read_full_lem bytes rest in
    ap
      (λ (r : Option (List ℕ × List ℕ)). elim r [
        | none ↦ none
        | some r ↦ some (decode_handshake r.0, r.1)
      ])
      whole
    ∙ ap (λ h. some (h, rest)) (decode_handshake-send_handshake info_hash peer_id l m)

reader-accepts :
    (info_hash input : List ℕ) (h : Handshake) (rest : List ℕ)
    → read_handshake input ≡ some (h, rest)
    → verify_handshake h info_hash ≡ none
    → reader info_hash input ≡ some (record { peer_id = h.peer_id; payloads = read_payloads rest })
unfolding reader
reader-accepts info_hash input h rest e v = rw (e, v, reader) refl

reader-rejects :
    (info_hash input : List ℕ) (h : Handshake) (rest : List ℕ) (error : HandshakeError)
    → read_handshake input ≡ some (h, rest)
    → verify_handshake h info_hash ≡ some error
    → reader info_hash input ≡ none
unfolding reader
reader-rejects info_hash input h rest error e v = rw (e, v, reader) refl

-- When a peer sends its handshake for a torrent, and then messages that fit, `reader` hands on every message, in order,
-- with the peer's ID, if the torrent is its own; and it ends before the first message if the torrent is another.
pub reader-send_handshake :
    (info_hash other_hash peer_id : List ℕ) (ms : List (ℕ × List ℕ))
    → length info_hash ≡ 20
    → length peer_id ≡ 20
    → All Fits ms
    → (reader info_hash (send_handshake info_hash peer_id ++ stream ms)
        ≡ some (record { peer_id = peer_id; payloads = map (λ m. m.0 ∷ m.1) ms }))
      × (info_hash ≢ other_hash
          → reader other_hash (send_handshake info_hash peer_id ++ stream ms) ≡ none)
unfolding verify_handshake sent
reader-send_handshake info_hash other_hash peer_id ms l m fits =
    let input = send_handshake info_hash peer_id ++ stream ms in
    let r = read_handshake-send_handshake info_hash peer_id (stream ms) l m in
    let accepted : verify_handshake (sent info_hash peer_id) info_hash ≡ none =
      rw (equal_bytes_refl info_hash) refl in
    (
      reader-accepts info_hash input (sent info_hash peer_id) (stream ms) r accepted
          ∙ ap (λ payloads. some (record { peer_id = peer_id; payloads = payloads }))
              (read_payloads-stream ms fits),
      λ ne.
          let differs : equal_bytes info_hash other_hash ≡ false =
            elim (Bool-cases (equal_bytes info_hash other_hash)) [
              | inl same ↦ absurd (ne (equal_bytes-eq info_hash other_hash same))
              | inr e ↦ e
            ] in
          let rejected : verify_handshake (sent info_hash peer_id) other_hash
              ≡ some invalid_info_hash =
            rw (differs) refl in
          reader-rejects other_hash input (sent info_hash peer_id) (stream ms) invalid_info_hash r
            rejected,
    )
