-- ===== src/Peer/Messages/Decode.antt =====
-- peer.go: `decodeMessage`, a case for each message ID, and the cases of `Run` for what comes from the controller.
use tulva.Prelude.{
  equal_bytes, ℕ, ◌/◌, ◌%◌, List, [], ◌∷◌, ◌++◌, Bool, true, false, not, some, none, if◌then◌else◌,
  leb, ◌==◌, nat_eq, length, set, drop, map, replicate, Outcome, done, fatal, ◌>>=◌, read, write,
}
use tulva.Prelude.Int.{pos}
use tulva.Peer.State.{PieceDownload, download_block_size}
use tulva.Peer.Geometry.{
  expected_length_for_piece, expected_length_for_block, expected_num_blocks_for_piece,
}
use tulva.Peer.Downloads.{
  have_current_downloads, find_index, get_piece_download, move_finished_piece_downloads_to_end,
  process_cancel_from_controller, clear_downloads,
}
use tulva.Peer.Bitfield.{convert_byte_slice_to_bool_slice}
use tulva.Peer.Wire.{
  msg_choke, msg_unchoke, msg_interested, msg_not_interested, msg_have, msg_bitfield, msg_request,
  msg_block, msg_cancel, field_at, decode_request, have_message,
}
use tulva.Peer.Messages.{
  peer_message, choke_status, have_pieces, block_request, write_piece, stopping, Peer, sizes,
  with_outputs, send_choke, send_unchoke, send_not_interested, should_be_interested, show_interest,
  send_bitfield_to_controller, send_requests, copy_at, one_received,
}

-- Choke, unchoke, interested and not interested carry no payload.
abbrev pub without_payload : List ℕ → Outcome Peer → Outcome Peer
without_payload [] p = p
without_payload (b ∷ bytes) p = fatal

unfoldable pub on_choke : Peer → Peer
unfolding clear_downloads
on_choke p =
    if p.peer_choking
    then p
    else with_outputs (choke_status true ∷ [])
        (record p { peer_choking = true; downloads = clear_downloads p.downloads })

abbrev pub on_unchoke : Peer → Peer
on_unchoke p =
    if p.peer_choking
    then with_outputs (choke_status false ∷ []) (record p { peer_choking = false })
    else p

abbrev pub on_have : List ℕ → Peer → Outcome Peer
on_have payload p =
    if length payload == 4
    then (do
      piece_num ← field_at 0 payload
      bitfield ← write p.peer_bitfield piece_num true
      show_interest (
          with_outputs (have_pieces (piece_num ∷ []) ∷ []) (record p { peer_bitfield = bitfield })))
    else fatal

abbrev pub on_bitfield : List ℕ → Peer → Outcome Peer
on_bitfield payload p = do
  bitfield ← convert_byte_slice_to_bool_slice (length p.peer_bitfield) payload
  show_interest
      (with_outputs (send_bitfield_to_controller bitfield) (record p { peer_bitfield = bitfield }))

abbrev pub on_request : List ℕ → Peer → Outcome Peer
on_request payload p = do
  info ← decode_request payload
  done (with_outputs (block_request info ∷ []) p)

-- A cancel is only logged, but one that is too short panics.
abbrev pub on_cancel : List ℕ → Peer → Outcome Peer
on_cancel payload p = do info ← decode_request payload; done p

-- `sha1` stands for the standard library's function.
module _ (sha1 : List ℕ → List ℕ) where
  -- All blocks of the download at the index have come in: it goes to the disk, or the peer is stopped.
  abbrev pub finish_piece : ℕ → PieceDownload → List ℕ → Peer → Outcome Peer
  finish_piece i d piece_data p =
      if equal_bytes (sha1 piece_data) d.expected_hash
      then (do
        marked ← write p.downloads i (record d { is_finished = true })
        let downloads = move_finished_piece_downloads_to_end marked
        let finished =
            with_outputs (write_piece d.piece_num d.buffer ∷ [])
              (record p { downloads = downloads })
        (if have_current_downloads downloads then send_requests finished else done finished))
      else done (with_outputs (stopping ∷ []) p)

  -- A valid block for the download at the index.
  unfoldable pub receive_block : ℕ → ℕ → List ℕ → Peer → Outcome Peer
  receive_block i begin block p = do
    d ← read p.downloads i
    old ← read p.buffers d.buffer
    piece_data ← copy_at begin block old
    buffers ← write p.buffers d.buffer piece_data
    let received = one_received d
    downloads ← write p.downloads i received
    let next : Peer = record p { downloads = downloads; buffers = buffers }
    (if received.num_blocks_received == received.num_blocks_in_piece
        then finish_piece i received piece_data next
        else send_requests next)

  -- The guards of `MsgBlock`, in their order.
  unfoldable pub on_block : List ℕ → Peer → Outcome Peer
  unfolding receive_block
  on_block payload p =
      if leb 9 (length payload)
      then (do
        piece_num ← field_at 0 payload
        begin ← field_at 4 payload
        let block = drop 8 payload
        (if not (have_current_downloads p.downloads)
            then done p
            else if not (begin % download_block_size == 0)
            then fatal
            else (do
              expected ← expected_length_for_block (sizes p) piece_num (begin / download_block_size)
              (if length block == expected
                  then elim (get_piece_download piece_num p.downloads) [
                    | none ↦ done p
                    | some i ↦ receive_block i begin block p
                  ]
                  else fatal))))
      else fatal

  unfoldable pub decode_body : ℕ → List ℕ → Peer → Outcome Peer
  unfolding on_block on_choke
  decode_body id payload p =
      if id == msg_choke
      then without_payload payload (done (on_choke p))
      else if id == msg_unchoke
      then without_payload payload (done (on_unchoke p))
      else if id == msg_interested
      then without_payload payload (done (send_unchoke (record p { peer_interested = true })))
      else if id == msg_not_interested
      then without_payload payload (done (send_choke (record p { peer_interested = false })))
      else if id == msg_have
      then on_have payload p
      else if id == msg_bitfield
      then on_bitfield payload p
      else if id == msg_request
      then on_request payload p
      else if id == msg_block
      then on_block payload p
      else if id == msg_cancel
      then on_cancel payload p
      else done p

  -- An empty message keeps the connection alive.
  unfoldable pub decode_message : List ℕ → Peer → Outcome Peer
  unfolding decode_body
  decode_message [] p = done p
  decode_message (id ∷ payload) p = decode_body id payload p

-- A download of the piece with no block received or asked for, with its buffer.
abbrev pub fresh_download : ℕ → List ℕ → ℕ → ℕ → PieceDownload
fresh_download piece_num hash buffer num_blocks = record {
  piece_num = piece_num;
  expected_hash = hash;
  buffer = buffer;
  num_blocks_received = 0;
  num_outstanding_blocks = pos 0;
  num_blocks_in_piece = num_blocks;
  is_finished = false;
}

-- A new buffer of zeros.
abbrev pub new_buffer : ℕ → Peer → Peer
new_buffer n p = record p { buffers = p.buffers ++ replicate n 0 ∷ [] }

-- The first finished download is used again, with its buffer if that has the right length; when there is none,
-- a new download goes to the end.
unfoldable pub initialize_piece_download : ℕ → List ℕ → Peer → Outcome Peer
initialize_piece_download piece_num hash p = do
  len ← expected_length_for_piece (sizes p) piece_num
  num_blocks ← expected_num_blocks_for_piece (sizes p) piece_num
  elim (find_index (λ d. d.is_finished) p.downloads) [
    | none ↦ done (record (new_buffer len p) {
      downloads = p.downloads ++ fresh_download piece_num hash (length p.buffers) num_blocks ∷ [];
    })
    | some i ↦ (do
      d ← read p.downloads i
      old ← read p.buffers d.buffer
      (if length old == len
          then done (record p {
            downloads = set p.downloads i (fresh_download piece_num hash d.buffer num_blocks);
          })
          else done (record (new_buffer len p) {
            downloads =
                set p.downloads i (fresh_download piece_num hash (length p.buffers) num_blocks);
          })))
  ]

-- The controller asks for a piece.
unfoldable pub on_request_piece : ℕ → List ℕ → Peer → Outcome Peer
unfolding initialize_piece_download
on_request_piece piece_num hash p = initialize_piece_download piece_num hash p >>= send_requests

-- The controller cancels a piece.
unfoldable pub on_cancel_piece : ℕ → Peer → Peer
on_cancel_piece piece_num p = record p {
  downloads = process_cancel_from_controller piece_num p.downloads;
}

unfoldable pub update_our_bitfield : List ℕ → List Bool → Outcome (List Bool)
update_our_bitfield [] bitfield = done bitfield
update_our_bitfield (i ∷ is) bitfield = write bitfield i true >>= update_our_bitfield is

-- The controller tells of pieces that we have now.
unfoldable pub on_have_pieces_from_controller : List ℕ → Peer → Outcome Peer
unfolding update_our_bitfield
on_have_pieces_from_controller pieces p = do
  bitfield ← update_our_bitfield pieces p.our_bitfield
  let told : Peer =
      with_outputs (map (λ i. peer_message (have_message i)) pieces)
        (record p { our_bitfield = bitfield })
  (if told.am_interested
      then (do
        wanted ← should_be_interested told.our_bitfield told.peer_bitfield
        done (if wanted then told else send_not_interested told))
      else done told)
