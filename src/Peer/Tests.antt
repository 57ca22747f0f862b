-- ===== src/Peer/Tests.antt =====
-- The peer's theorems at concrete inputs, and runs of its functions.
use tulva.Prelude.{
  ℕ, ◌*◌, ◌<◌, ◌≡◌, refl, List, [], ◌∷◌, Bool, true, false, done, ◌>>=◌, Returns, arith, length,
  min, ◌⊎◌, ◌≢◌, suc,
}
use tulva.Prelude.Int.{pos, ◌+ℤ◌, ◌≤ℤ◌}
use tulva.Peer.State.{Sizes, PieceDownload, download_block_size, max_simultaneous_block_downloads}
use tulva.Peer.Geometry.{
  expected_length_for_piece, expected_length_for_block, expected_num_blocks_for_piece,
}
use tulva.Peer.Geometry.Tiling.{blocks_tile, last_block_empty, blocks_fall_short, length_of_blocks}
use tulva.Peer.Requests.{send_one_or_more_requests, left_to_send}
use tulva.Peer.Requests.Fill.{fill, room_left}
use tulva.Peer.Requests.Fill.Rounds.{send_one_or_more_requests_lem}
use tulva.Peer.Downloads.{
  total_outstanding_blocks, have_current_downloads, get_piece_download,
  move_finished_piece_downloads_to_end, process_cancel_from_controller,
}
use tulva.Peer.Requests.Fill.Total.{send_one_or_more_requests-total}
use tulva.Peer.Messages.{Peer}
use tulva.Peer.Messages.Decode.{receive_block}
use tulva.Peer.Healthy.Cancel.{Dropped, process_cancel_from_controller-Dropped}
use tulva.Peer.Healthy.{Healthy, send_one_or_more_requests-Healthy}
use tulva.Peer.Healthy.Blocks.{receive_block-Finished, Sends, Finished, with_block}
use tulva.Peer.Wire.{read_payloads, range_payload, decode_request}
use tulva.Peer.Wire.Framing.{stream, read_payloads-stream}
use tulva.Peer.Wire.Payloads.{decode_request-range_payload}
use tulva.Peer.Bitfield.{convert_byte_slice_to_bool_slice, convert_bool_slice_to_byte_slice}
use tulva.Peer.Bitfield.RoundTrip.{
  convert_byte_slice_to_bool_slice-convert_bool_slice_to_byte_slice,
}

-- Two pieces of two blocks, and a last one of one block and a rest.
abbrev three_pieces : Sizes
three_pieces = record { piece_length = 32768; total_length = 82020; num_pieces = 3 }

blocks_tile_example :
    (expected_num_blocks_for_piece three_pieces 2 >>= λ k. length_of_blocks three_pieces 2 k)
    ≡ expected_length_for_piece three_pieces 2
blocks_tile_example = blocks_tile three_pieces 2 2 (omega arith) refl

-- The last piece is one block.
abbrev even_pieces : Sizes
even_pieces = record { piece_length = 32768; total_length = 81920; num_pieces = 3 }

last_block_empty_example :
    (expected_num_blocks_for_piece even_pieces 2 ≡ done 2)
    × (expected_length_for_block even_pieces 2 1 ≡ done 0)
last_block_empty_example = last_block_empty even_pieces 2 (omega arith) refl (omega arith) refl

abbrev odd_pieces : Sizes
odd_pieces = record { piece_length = 20000; total_length = 50000; num_pieces = 3 }

blocks_fall_short_example :
    Returns (λ k. k * download_block_size < 20000) (expected_num_blocks_for_piece odd_pieces 0)
blocks_fall_short_example = blocks_fall_short odd_pieces 0 (omega arith) refl (omega arith)

abbrev half_done : PieceDownload
half_done = record {
  piece_num = 4;
  expected_hash = 9 ∷ [];
  buffer = 0;
  num_blocks_received = 3;
  num_outstanding_blocks = pos 2;
  num_blocks_in_piece = 6;
  is_finished = false;
}

abbrev just_started : PieceDownload
just_started = record {
  piece_num = 7;
  expected_hash = 8 ∷ [];
  buffer = 1;
  num_blocks_received = 0;
  num_outstanding_blocks = pos 0;
  num_blocks_in_piece = 40;
  is_finished = false;
}

abbrev two_downloads : List PieceDownload
two_downloads = half_done ∷ just_started ∷ []

send_one_or_more_requests_lem_example :
    send_one_or_more_requests two_downloads ≡ done (fill (room_left two_downloads) two_downloads)
unfolding total_outstanding_blocks ◌+ℤ◌
send_one_or_more_requests_lem_example =
    send_one_or_more_requests_lem two_downloads ((λ e. omega arith), ((λ e. omega arith), tt))
      (omega arith)

abbrev two_messages : List (ℕ × List ℕ)
two_messages = (4, 0 ∷ 0 ∷ 1 ∷ 2 ∷ []) ∷ (0, []) ∷ []

read_payloads-stream_example :
    read_payloads (stream two_messages) ≡ (4 ∷ 0 ∷ 0 ∷ 1 ∷ 2 ∷ []) ∷ (0 ∷ []) ∷ []
read_payloads-stream_example =
    read_payloads-stream two_messages ((omega arith, omega arith), ((omega arith, omega arith), tt))

decode_request-range_payload_example :
    decode_request (range_payload 70000 16384 16384)
    ≡ done (record { piece_index = 70000; begin = 16384; length = 16384 })
decode_request-range_payload_example =
    decode_request-range_payload 70000 16384 16384 (omega arith) (omega arith) (omega arith)

abbrev nine_pieces : List Bool
nine_pieces = true ∷ false ∷ false ∷ true ∷ false ∷ false ∷ false ∷ true ∷ true ∷ []

convert_byte_slice_to_bool_slice-convert_bool_slice_to_byte_slice_example :
    convert_byte_slice_to_bool_slice 9 (convert_bool_slice_to_byte_slice nine_pieces)
    ≡ done nine_pieces
convert_byte_slice_to_bool_slice-convert_bool_slice_to_byte_slice_example =
    convert_byte_slice_to_bool_slice-convert_bool_slice_to_byte_slice nine_pieces

nine_pieces_bytes : convert_bool_slice_to_byte_slice nine_pieces ≡ 145 ∷ 128 ∷ []
unfolding convert_bool_slice_to_byte_slice
nine_pieces_bytes = refl

two_downloads-Healthy : Healthy two_downloads
unfolding total_outstanding_blocks ◌+ℤ◌
two_downloads-Healthy = record {
  each = ((λ e. (omega arith, omega arith)), ((λ e. (omega arith, omega arith)), tt));
  within = omega arith;
}

send_one_or_more_requests-total_example :
    Returns
      (λ s.
        (length s.calls ≡ min (room_left two_downloads) (left_to_send two_downloads))
        × (total_outstanding_blocks s.downloads
            ≡ total_outstanding_blocks two_downloads
              +ℤ pos (min (room_left two_downloads) (left_to_send two_downloads)))
        × (total_outstanding_blocks s.downloads ≤ℤ pos max_simultaneous_block_downloads))
      (send_one_or_more_requests two_downloads)
unfolding total_outstanding_blocks ◌+ℤ◌
send_one_or_more_requests-total_example =
    send_one_or_more_requests-total two_downloads ((λ e. omega arith), ((λ e. omega arith), tt))
      (omega arith)

send_one_or_more_requests-Healthy_example :
    Returns (λ s. Healthy s.downloads) (send_one_or_more_requests two_downloads)
send_one_or_more_requests-Healthy_example =
    send_one_or_more_requests-Healthy two_downloads two_downloads-Healthy

process_cancel_from_controller-Dropped_example :
    Dropped 4 two_downloads (process_cancel_from_controller 4 two_downloads)
    × Healthy (process_cancel_from_controller 4 two_downloads)
process_cancel_from_controller-Dropped_example =
    process_cancel_from_controller-Dropped 4 two_downloads two_downloads-Healthy

-- The download of piece 4 is gone, and that of piece 7 is the only work.
cancelled_four :
    process_cancel_from_controller 4 two_downloads
    ≡ just_started ∷ record half_done { is_finished = true } ∷ []
unfolding process_cancel_from_controller have_current_downloads get_piece_download
    move_finished_piece_downloads_to_end
cancelled_four = refl

abbrev connection : Peer
connection = record {
  piece_length = 98304;
  total_length = 983040;
  am_choking = true;
  am_interested = true;
  peer_choking = false;
  peer_interested = false;
  our_bitfield = nine_pieces;
  peer_bitfield = nine_pieces;
  downloads = two_downloads;
  buffers = (0 ∷ 0 ∷ 0 ∷ 0 ∷ []) ∷ [] ∷ [];
  outputs = [];
}

receive_block-Finished_example :
    Returns
      (λ p.
        ((suc half_done.num_blocks_received ≢ half_done.num_blocks_in_piece)
          × Sends [] (with_block 0 half_done (0 ∷ 0 ∷ 7 ∷ 8 ∷ []) connection) p)
        ⊎ ((suc half_done.num_blocks_received ≡ half_done.num_blocks_in_piece)
            × Finished
                (λ bytes. bytes)
                half_done
                (0 ∷ 0 ∷ 7 ∷ 8 ∷ [])
                (with_block 0 half_done (0 ∷ 0 ∷ 7 ∷ 8 ∷ []) connection)
                p))
      (receive_block (λ bytes. bytes) 0 2 (7 ∷ 8 ∷ []) connection)
receive_block-Finished_example =
    receive_block-Finished (λ bytes. bytes) 0 2 (7 ∷ 8 ∷ []) connection half_done
      (0 ∷ 0 ∷ 0 ∷ 0 ∷ []) two_downloads-Healthy (omega arith) refl (omega arith) refl (omega arith)
