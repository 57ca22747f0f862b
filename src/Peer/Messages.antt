-- ===== src/Peer/Messages.antt =====
-- peer.go: the whole state of a connection, and `decodeMessage`, which handles one message. Each handler runs as one
-- step; what it starts to send, to the peer, the controller or the disk, is added to `outputs`.
pub mod Decode
use tulva.Prelude.{
  ℕ, zero, suc, ◌+◌, ◌-◌, ◌*◌, ◌/◌, ◌%◌, List, [], ◌∷◌, ◌++◌, Bool, true, false, not, ◌&&◌, ◌||◌,
  some, none, Option, if◌then◌else◌, leb, ◌==◌, nat_eq, length, get_elem?, get_or, set, take, drop,
  replicate, Outcome, done, fatal, panicked, ◌>>=◌, read, write,
}
use tulva.Prelude.Int.{ℤ, pos, ◌+ℤ◌, ◌-ℤ◌}
use tulva.Peer.State.{Sizes, PieceDownload, download_block_size}
use tulva.Peer.Geometry.{
  expected_length_for_piece, expected_length_for_block, expected_num_blocks_for_piece,
}
use tulva.Peer.Downloads.{
  have_current_downloads, find_index, get_piece_download, move_finished_piece_downloads_to_end,
  process_cancel_from_controller, clear_downloads,
}
use tulva.Peer.Requests.{BlockRequested, Sending, send_one_or_more_requests}
use tulva.Peer.Bitfield.{convert_byte_slice_to_bool_slice}
use tulva.Pieces.{BlockInfo}
use tulva.Peer.Wire.{
  msg_choke, msg_unchoke, msg_interested, msg_not_interested, msg_have, msg_bitfield, msg_request,
  msg_block, field_at, decode_request, choke_message, unchoke_message, interested_message,
  not_interested_message, have_message, request_message, be32, uint32, construct_message,
}

-- What goes out: bytes for the peer; to the controller, a choke status or the numbers of pieces that the
-- peer has; to the disk, a request for a block or a finished piece, by the buffer that holds its data;
-- and the connection's own signal to stop.
pub data Output : Type 0 where
  peer_message : List ℕ → Output
  choke_status : Bool → Output
  have_pieces : List ℕ → Output
  block_request : BlockInfo → Output
  write_piece : ℕ → ℕ → Output
  stopping : Output

pub record Peer : Type 0 where
  pub piece_length : ℕ
  pub total_length : ℕ
  pub am_choking : Bool
  pub am_interested : Bool
  pub peer_choking : Bool
  pub peer_interested : Bool
  pub our_bitfield : List Bool
  pub peer_bitfield : List Bool
  pub downloads : List PieceDownload
  pub buffers : List (List ℕ)
  pub outputs : List Output

abbrev pub sizes : Peer → Sizes
sizes p = record {
  piece_length = p.piece_length;
  total_length = p.total_length;
  num_pieces = length p.our_bitfield;
}

abbrev pub with_outputs : List Output → Peer → Peer
with_outputs out p = record p { outputs = p.outputs ++ out }

abbrev pub send_choke : Peer → Peer
send_choke p = with_outputs (peer_message choke_message ∷ []) (record p { am_choking = true })

abbrev pub send_unchoke : Peer → Peer
send_unchoke p = with_outputs (peer_message unchoke_message ∷ []) (record p { am_choking = false })

abbrev pub send_interested : Peer → Peer
send_interested p =
    with_outputs (peer_message interested_message ∷ []) (record p { am_interested = true })

abbrev pub send_not_interested : Peer → Peer
send_not_interested p =
    with_outputs (peer_message not_interested_message ∷ []) (record p { am_interested = false })

-- The loop of `weShouldBeInterested`; the index is past the end when the peer's bitfield is shorter.
unfoldable pub should_be_interested : List Bool → List Bool → Outcome Bool
should_be_interested [] theirs = done false
should_be_interested (true ∷ ours) [] = should_be_interested ours []
should_be_interested (false ∷ ours) [] = panicked
should_be_interested (mine ∷ ours) (its ∷ theirs) =
    let rest = should_be_interested ours theirs in if not mine && its then done true else rest

-- Both `MsgHave` and `MsgBitfield` end with this.
abbrev pub show_interest : Peer → Outcome Peer
show_interest p = if p.am_interested then done p else (do
  wanted ← should_be_interested p.our_bitfield p.peer_bitfield
  done (if wanted then send_interested p else p))

-- The numbers, from `i` on, of the pieces that are set.
abbrev pub pieces_set : ℕ → List Bool → List ℕ
pieces_set i [] = []
pieces_set i (b ∷ bs) = let rest = pieces_set (suc i) bs in if b then i ∷ rest else rest

-- `sendBitfieldToController` sends nothing when no piece is set.
abbrev pub send_bitfield_to_controller : List Bool → List Output
send_bitfield_to_controller bitfield = elim (pieces_set 0 bitfield) [
  | [] ↦ []
  | p ∷ ps ↦ have_pieces (p ∷ ps) ∷ []
]

-- `sendRequestByBlockNum`, for each of the calls.
abbrev pub request_outputs : Sizes → List BlockRequested → Outcome (List Output)
request_outputs s [] = done []
request_outputs s (c ∷ cs) = do
  len ← expected_length_for_block s c.piece_num c.block_num
  rest ← request_outputs s cs
  done (peer_message (request_message c.piece_num (download_block_size * c.block_num) len) ∷ rest)

unfoldable pub send_requests : Peer → Outcome Peer
send_requests p = do
  sending ← send_one_or_more_requests p.downloads
  out ← request_outputs (sizes p) sending.calls
  done (with_outputs out (record p { downloads = sending.downloads }))

-- `copy(data[begin:], block)`: what does not fit is left out; a slice from past the end panics.
abbrev pub copy_at : ℕ → List ℕ → List ℕ → Outcome (List ℕ)
copy_at begin block data_ =
    if leb begin (length data_)
    then done
        (take begin data_ ++ take (length data_ - begin) block ++ drop (begin + length block) data_)
    else panicked

-- The download after one more block has come in.
abbrev pub one_received : PieceDownload → PieceDownload
one_received d = record d {
  num_blocks_received = suc d.num_blocks_received;
  num_outstanding_blocks = d.num_outstanding_blocks -ℤ pos 1;
}
