-- ===== src/Peer/Wire/Framing.antt =====
-- What `constructMessage` writes, `reader` cuts into the same messages.
use tulva.Prelude.{
  ℕ, zero, suc, ◌+◌, ◌*◌, ◌/◌, ◌%◌, ◌≤◌, ◌<◌, ◌≡◌, refl, ap, ◌∙◌, List, [], ◌∷◌, ◌++◌, some, none,
  Option, leb, length, take, drop, map, true, done, arith, All, length-append,
}
use tulva.Peer.Wire.{
  be32, uint32, construct_message, read_full, length_field, read_payload, read_rounds,
  read_payloads,
}

pub digits :
    (n : ℕ)
    → n < 4294967296
    → n / 16777216 % 256 * 16777216 + n / 65536 % 256 * 65536 + n / 256 % 256 * 256 + n % 256 ≡ n
digits n h = omega arith

pub uint32-be32 : (n : ℕ) (rest : List ℕ) → n < 4294967296 → uint32 (be32 n ++ rest) ≡ done n
unfolding uint32 be32
uint32-be32 n rest h = ap done (digits n h)

take-append : (xs ys : List ℕ) → take (length xs) (xs ++ ys) ≡ xs
take-append [] ys = refl
take-append (x ∷ xs) ys = ap (λ zs. x ∷ zs) (take-append xs ys)

drop-append : (xs ys : List ℕ) → drop (length xs) (xs ++ ys) ≡ ys
drop-append [] ys = refl
drop-append (x ∷ xs) ys = drop-append xs ys

pub read_full_lem : (xs ys : List ℕ) → read_full (length xs) (xs ++ ys) ≡ some (xs, ys)
read_full_lem xs ys =
    let enough : leb (length xs) (length (xs ++ ys)) ≡ true = ground (arith, length-append xs ys) in
    rw (enough, take-append xs ys, drop-append xs ys) refl

-- A message: its ID and its payload.
abbrev pub message_bytes : ℕ × List ℕ → List ℕ
message_bytes m = construct_message m.0 m.1

-- The ID is a byte, and the length fits in its field.
abbrev pub Fits : ℕ × List ℕ → Type 0
Fits m = (m.0 < 256) × (length m.1 + 1 < 4294967296)

read_payload_lem :
    (m : ℕ × List ℕ) (rest : List ℕ)
    → Fits m
    → read_payload (message_bytes m ++ rest) ≡ some (m.0 ∷ m.1, rest)
unfolding read_payload uint32 construct_message be32
read_payload_lem (id, payload) rest (small, fits) =
    let value : length_field (be32 (length payload + 1)) ≡ suc (length payload) =
      digits (length payload + 1) fits ∙ omega arith in
    let byte : id % 256 ≡ id = omega (arith, small) in
    ap
      (λ (r : Option (List ℕ × List ℕ)). elim r [
        | none ↦ none
        | some field ↦ read_full (length_field field.0) field.1
      ])
      (read_full_lem (be32 (length payload + 1)) (id % 256 ∷ (payload ++ rest)))
    ∙ ap (λ k. read_full k (id % 256 ∷ (payload ++ rest))) value
    ∙ ap (λ b. read_full (suc (length payload)) (b ∷ (payload ++ rest))) byte
    ∙ read_full_lem (id ∷ payload) rest

-- The bytes of a run of messages.
abbrev pub stream : List (ℕ × List ℕ) → List ℕ
stream [] = []
stream (m ∷ ms) = message_bytes m ++ stream ms

length-stream :
    (m : ℕ × List ℕ) (ms : List (ℕ × List ℕ)) → length (stream ms) < length (stream (m ∷ ms))
unfolding construct_message be32
length-stream m ms = omega (arith, length-append m.1 (stream ms))

read_rounds_lem :
    (ms : List (ℕ × List ℕ)) (fuel : ℕ)
    → All Fits ms
    → length (stream ms) ≤ fuel
    → read_rounds fuel (stream ms) ≡ map (λ m. m.0 ∷ m.1) ms
unfolding read_rounds read_payload
read_rounds_lem [] zero h l = refl
read_rounds_lem [] (suc fuel) h l = refl
read_rounds_lem (m ∷ ms) zero h l = absurd (omega (arith, length-stream m ms, l))
read_rounds_lem (m ∷ ms) (suc fuel) h l =
    ap
      (λ (r : Option (List ℕ × List ℕ)). elim r [ none ↦ [] | some r ↦ r.0 ∷ read_rounds fuel r.1 ])
      (read_payload_lem m (stream ms) h.0)
    ∙ ap (λ rest. (m.0 ∷ m.1) ∷ rest)
        (read_rounds_lem ms fuel h.1 (omega (arith, length-stream m ms, l)))

-- When messages, each with an ID of one byte and a payload whose length plus 1 fits in 32 bits, are
-- written to the connection by `constructMessage` one after the other, `reader` hands on the ID and
-- payload of each of them, in order, and no more.
pub read_payloads-stream :
    (ms : List (ℕ × List ℕ)) → All Fits ms → read_payloads (stream ms) ≡ map (λ m. m.0 ∷ m.1) ms
unfolding read_payloads
read_payloads-stream ms h = read_rounds_lem ms (length (stream ms)) h (omega arith)
