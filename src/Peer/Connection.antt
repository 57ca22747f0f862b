-- ===== src/Peer/Connection.antt =====
-- peer.go: a whole connection: what comes from the other side and from the controller, one after the other.
pub mod Kept
pub mod Handlers
pub mod Session
mod Tests
use tulva.Prelude.{
  ℕ, ◌/◌, ◌%◌, ◌+◌, ◌≤◌, ◌<◌, ◌≡◌, ◌⊎◌, List, [], ◌∷◌, Bool, some, length, drop, get_elem?, All,
  Outcome, done, ◌>>=◌, Returns,
}
use tulva.Prelude.Int.{pos, ◌≤ℤ◌}
use tulva.Peer.State.{PieceDownload, download_block_size}
use tulva.Peer.Geometry.Tiling.{block_size}
use tulva.Peer.Downloads.{get_piece_download}
use tulva.Peer.Bitfield.{convert_byte_slice_to_bool_slice}
use tulva.Peer.Wire.{
  block_message, msg_have, msg_bitfield, msg_request, msg_block, msg_cancel, field_at,
  decode_request,
}
use tulva.Pieces.{BlockInfo, BlockResponse}
use tulva.Peer.Messages.{Peer, sizes, with_outputs, peer_message}
use tulva.Peer.Messages.Decode.{
  decode_message, on_request_piece, on_cancel_piece, on_have_pieces_from_controller,
}
use tulva.Peer.Healthy.{Healthy}
use tulva.Peer.Healthy.Start.{HasBuffers}

-- What a connection handles: the payload of a message, a block that the disk has read, and the three messages of the
-- controller. The ticker and the end of a connection are left out.
pub data Input : Type 0 where
  message : List ℕ → Input
  block_response : BlockResponse → Input
  request_piece : ℕ → List ℕ → Input
  cancel_piece : ℕ → Input
  have_pieces_told : List ℕ → Input

module _ (sha1 : List ℕ → List ℕ) where
  unfoldable pub handle : Input → Peer → Outcome Peer
  handle (message payload) p = decode_message sha1 payload p
  handle (block_response r) p =
      done
        (with_outputs (peer_message (block_message r.info.piece_index r.info.begin r.bytes) ∷ []) p)
  handle (request_piece piece_num hash) p = on_request_piece piece_num hash p
  handle (cancel_piece piece_num) p = done (on_cancel_piece piece_num p)
  handle (have_pieces_told pieces) p = on_have_pieces_from_controller pieces p

  unfoldable pub handle_all : List Input → Peer → Outcome Peer
  unfolding handle
  handle_all [] p = done p
  handle_all (input ∷ inputs) p = handle input p >>= λ p'. handle_all inputs p'

-- What holds between two messages.
pub record Inv (p : Peer) : Type 0 where
  pub healthy : Healthy p.downloads
  pub has_buffers : HasBuffers p
  pub positive : 0 < p.piece_length
  pub bitfields : length p.our_bitfield ≡ length p.peer_bitfield

-- A block of its full length at the start of a block; if the peer works on that piece, a block of it has been asked
-- for, and the place lies within the buffer.
pub record BlockFits (payload : List ℕ) (p : Peer) : Type 0 where
  pub piece_num : ℕ
  pub begin : ℕ
  pub long : 9 ≤ length payload
  pub piece_field : field_at 0 payload ≡ done piece_num
  pub begin_field : field_at 4 payload ≡ done begin
  pub aligned : begin % download_block_size ≡ 0
  pub whole : length (drop 8 payload) ≡ block_size (sizes p) piece_num (begin / download_block_size)
  pub asked :
      (i : ℕ) (d : PieceDownload) (old : List ℕ)
      → get_piece_download piece_num p.downloads ≡ some i
      → get_elem? p.downloads i ≡ some d
      → get_elem? p.buffers d.buffer ≡ some old
      → (pos 1 ≤ℤ d.num_outstanding_blocks) × (begin ≤ length old)

-- A message as the protocol has it, in the state of the connection.
pub record MessageFits (id : ℕ) (payload : List ℕ) (p : Peer) : Type 0 where
  pub no_payload : id ≤ 3 → payload ≡ []
  pub have_fits :
      id ≡ msg_have
      → (length payload ≡ 4) × Returns (λ n. n < length p.peer_bitfield) (field_at 0 payload)
  pub bitfield_fits :
      id ≡ msg_bitfield
      → Returns
          (λ bits. length bits ≡ length p.peer_bitfield)
          (convert_byte_slice_to_bool_slice (length p.peer_bitfield) payload)
  pub range_fits :
      (id ≡ msg_request) ⊎ (id ≡ msg_cancel)
      → (info : BlockInfo) × (decode_request payload ≡ done info)
  pub block_fits : id ≡ msg_block → BlockFits payload p

abbrev pub InputFits : Peer → Input → Type 0
InputFits p (message []) = Unit
InputFits p (message (id ∷ payload)) = MessageFits id payload p
InputFits p (block_response r) = Unit
InputFits p (request_piece piece_num hash) = Unit
InputFits p (cancel_piece piece_num) = Unit
InputFits p (have_pieces_told pieces) = All (λ i. i < length p.our_bitfield) pieces
