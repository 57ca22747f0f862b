-- ===== src/Peer/Wire/Payloads.antt =====
-- The fields that a request is written with are the fields that the peer reads.
use tulva.Prelude.{ℕ, ◌<◌, ◌≡◌, refl, done}
use tulva.Peer.Wire.{be32, uint32, range_payload, decode_request}
use tulva.Peer.Wire.Framing.{digits}

-- A request for a piece, an offset and a length that fit in 32 bits is decoded by the peer that gets its
-- payload to the same piece, offset and length.
pub decode_request-range_payload :
    (piece_num begin len : ℕ)
    → piece_num < 4294967296
    → begin < 4294967296
    → len < 4294967296
    → decode_request (range_payload piece_num begin len)
      ≡ done (record { piece_index = piece_num; begin = begin; length = len })
unfolding decode_request uint32 be32
decode_request-range_payload piece_num begin len p b l =
    rw (digits piece_num p, digits begin b, digits len l) refl
