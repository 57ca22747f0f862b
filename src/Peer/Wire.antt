-- ===== src/Peer/Wire.antt =====
-- peer.go: the messages as bytes on the connection: `constructMessage` and the `send...` functions that
-- write them, and `reader`, which cuts what comes in into messages.
pub mod Framing
pub mod Payloads
use tulva.Prelude.{
  ℕ, zero, suc, ◌+◌, ◌*◌, ◌/◌, ◌%◌, ◌^◌, List, [], ◌∷◌, ◌++◌, some, none, Option, if◌then◌else◌,
  leb, length, take, drop, map, Bool, true, false, Outcome, done, panicked, ◌>>=◌,
}
use tulva.Pieces.{BlockInfo}

abbrev pub msg_choke : ℕ
msg_choke = 0

abbrev pub msg_unchoke : ℕ
msg_unchoke = 1

abbrev pub msg_interested : ℕ
msg_interested = 2

abbrev pub msg_not_interested : ℕ
msg_not_interested = 3

abbrev pub msg_have : ℕ
msg_have = 4

abbrev pub msg_bitfield : ℕ
msg_bitfield = 5

abbrev pub msg_request : ℕ
msg_request = 6

abbrev pub msg_block : ℕ
msg_block = 7

abbrev pub msg_cancel : ℕ
msg_cancel = 8

-- The four bytes of `uint32(n)`, the highest first.
unfoldable pub be32 : ℕ → List ℕ
be32 n = n / 16777216 % 256 ∷ n / 65536 % 256 ∷ n / 256 % 256 ∷ n % 256 ∷ []

-- `binary.BigEndian.Uint32` of the first four bytes; it panics when there are fewer.
unfoldable pub uint32 : List ℕ → Outcome ℕ
uint32 (a ∷ b ∷ c ∷ d ∷ rest) = done (a * 16777216 + b * 65536 + c * 256 + d)
uint32 bytes = panicked

-- A length field of four bytes, that counts the ID too, the ID, and the payload.
unfoldable pub construct_message : ℕ → List ℕ → List ℕ
unfolding be32
construct_message id payload = be32 (length payload + 1) ++ id % 256 ∷ payload

abbrev pub choke_message : List ℕ
choke_message = construct_message msg_choke []

abbrev pub unchoke_message : List ℕ
unchoke_message = construct_message msg_unchoke []

abbrev pub interested_message : List ℕ
interested_message = construct_message msg_interested []

abbrev pub not_interested_message : List ℕ
not_interested_message = construct_message msg_not_interested []

abbrev pub have_message : ℕ → List ℕ
have_message piece_num = construct_message msg_have (be32 piece_num)

-- The payload of a request and of a cancel.
abbrev pub range_payload : ℕ → ℕ → ℕ → List ℕ
range_payload piece_num begin len = be32 piece_num ++ be32 begin ++ be32 len

abbrev pub request_message : ℕ → ℕ → ℕ → List ℕ
request_message piece_num begin len =
    construct_message msg_request (range_payload piece_num begin len)

abbrev pub cancel_message : ℕ → ℕ → ℕ → List ℕ
cancel_message piece_num begin len =
    construct_message msg_cancel (range_payload piece_num begin len)

abbrev pub block_payload : ℕ → ℕ → List ℕ → List ℕ
block_payload piece_num begin block = be32 piece_num ++ be32 begin ++ block

abbrev pub block_message : ℕ → ℕ → List ℕ → List ℕ
block_message piece_num begin block =
    construct_message msg_block (block_payload piece_num begin block)

-- `io.ReadFull` of `n` bytes from what is left of the connection's input: the bytes, and what is left
-- then, or an error when the input ends before.
abbrev pub read_full : ℕ → List ℕ → Option (List ℕ × List ℕ)
read_full n input = if leb n (length input) then some (take n input, drop n input) else none

-- The number that four bytes stand for, in `reader`, which has read just four.
abbrev pub length_field : List ℕ → ℕ
length_field field = elim (uint32 field) [ done n ↦ n | other ↦ 0 ]

-- One round of the loop in `reader`: the payload, which is handed to `decodeMessage`, and the rest of the
-- input.
unfoldable pub read_payload : List ℕ → Option (List ℕ × List ℕ)
unfolding uint32
read_payload input = elim (read_full 4 input) [
  | none ↦ none
  | some field ↦ read_full (length_field field.0) field.1
]

-- The payloads that `reader` hands on until a read fails. Each round takes four bytes or more, so the
-- length of the input is rounds enough.
unfoldable pub read_rounds : ℕ → List ℕ → List (List ℕ)
unfolding read_payload
read_rounds zero input = []
read_rounds (suc fuel) input = elim (read_payload input) [
  | none ↦ []
  | some r ↦ r.0 ∷ read_rounds fuel r.1
]

unfoldable pub read_payloads : List ℕ → List (List ℕ)
unfolding read_rounds
read_payloads input = read_rounds (length input) input

-- `payload[a : a + 4]`, which panics when the payload is too short.
abbrev pub field_at : ℕ → List ℕ → Outcome ℕ
field_at a payload = uint32 (drop a payload)

-- `decodeMessage` on a request: the fields of the payload.
unfoldable pub decode_request : List ℕ → Outcome BlockInfo
unfolding uint32
decode_request payload = do
  piece_index ← field_at 0 payload
  begin ← field_at 4 payload
  len ← field_at 8 payload
  done (record { piece_index = piece_index; begin = begin; length = len })
