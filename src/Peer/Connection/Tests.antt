-- ===== src/Peer/Connection/Tests.antt =====
-- An example of a connection: the controller asks for the only piece, of three bytes, and its block comes in.
use tulva.Prelude.{
  ℕ, zero, suc, ◌≤◌, ◌≡◌, refl, sym, ◌∙◌, ap, subst, List, [], ◌∷◌, true, false, some, inl, inr,
  length, get_elem?, done, done-injective, Returns, arith,
}
use mathlib.Core.Option.{some-injective}
use tulva.Prelude.Int.{pos, ◌≤ℤ◌, ◌+ℤ◌, ◌-ℤ◌}
use tulva.Peer.State.{PieceDownload}
use tulva.Peer.Geometry.{
  expected_length_for_piece, expected_length_for_block, expected_num_blocks_for_piece,
}
use tulva.Peer.Geometry.Tiling.{block_size}
use tulva.Peer.Requests.{send_one_or_more_requests}
use tulva.Peer.Downloads.{total_outstanding_blocks}
use tulva.Peer.Wire.{uint32}
use tulva.Peer.Messages.{Peer, sizes, send_requests}
use tulva.Peer.Messages.Decode.{on_request_piece}
use tulva.Peer.Connection.{
  Input, message, request_piece, handle, handle_all, Inv, BlockFits, MessageFits,
}
use tulva.Peer.Connection.Session.{AllFit, handle_all-Inv}

abbrev start : Peer
start = record {
  piece_length = 16384;
  total_length = 3;
  am_choking = true;
  am_interested = true;
  peer_choking = false;
  peer_interested = false;
  our_bitfield = false ∷ [];
  peer_bitfield = true ∷ [];
  downloads = [];
  buffers = [];
  outputs = [];
}

start-Inv : Inv start
unfolding total_outstanding_blocks
start-Inv = record {
  healthy = record { each = tt; within = omega arith };
  has_buffers = tt;
  positive = omega arith;
  bitfields = refl;
}

-- The block of three bytes.
abbrev block_bytes : List ℕ
block_bytes = 0 ∷ 0 ∷ 0 ∷ 0 ∷ 0 ∷ 0 ∷ 0 ∷ 0 ∷ 9 ∷ 8 ∷ 7 ∷ []

abbrev hash : List ℕ
hash = 1 ∷ 2 ∷ []

abbrev waiting : PieceDownload
waiting = record {
  piece_num = 0;
  expected_hash = hash;
  buffer = 0;
  num_blocks_received = 0;
  num_outstanding_blocks = pos 1;
  num_blocks_in_piece = 1;
  is_finished = false;
}

-- What the request of the controller leads to: one block is outstanding.
after_request :
    (p : Peer)
    → on_request_piece 0 hash start ≡ done p
    → (p.downloads ≡ waiting ∷ [])
      × (p.buffers ≡ (0 ∷ 0 ∷ 0 ∷ []) ∷ [])
      × (sizes p ≡ record { piece_length = 16384; total_length = 3; num_pieces = 1 })
unfolding on_request_piece send_requests expected_length_for_piece expected_num_blocks_for_piece
    send_one_or_more_requests ◌+ℤ◌ ◌-ℤ◌ expected_length_for_block
after_request p e = (
  sym (ap Peer.downloads (done-injective e)),
  sym (ap Peer.buffers (done-injective e)),
  sym (ap sizes (done-injective e)),
)

-- The only download is the one that waits.
only_waiting :
    (i : ℕ) (d : PieceDownload) (bufs : List (List ℕ)) (old : List ℕ)
    → bufs ≡ (0 ∷ 0 ∷ 0 ∷ []) ∷ []
    → get_elem? (waiting ∷ []) i ≡ some d
    → get_elem? bufs d.buffer ≡ some old
    → (pos 1 ≤ℤ d.num_outstanding_blocks) × (0 ≤ length old)
only_waiting zero d bufs old b e f = (
  subst (λ d. pos 1 ≤ℤ d.num_outstanding_blocks) (some-injective _ _ e) (omega arith),
  omega arith,
)
only_waiting (suc i) d bufs old b e f = absurd (ground arith)

block-Fits : (p : Peer) → on_request_piece 0 hash start ≡ done p → BlockFits block_bytes p
unfolding uint32
block-Fits p e =
    let (ds, bufs, same) = after_request p e in
    record {
      piece_num = 0;
      begin = 0;
      long = omega arith;
      piece_field = refl;
      begin_field = refl;
      aligned = refl;
      whole = ap (λ s. block_size s 0 0) (sym same);
      asked = λ i d old g at b.
          only_waiting i d p.buffers old bufs (ap (λ ds. get_elem? ds i) (sym ds) ∙ at) b;
    }

block_message-Fits :
    (p : Peer) → on_request_piece 0 hash start ≡ done p → MessageFits 7 block_bytes p
block_message-Fits p e = record {
  no_payload = λ small. absurd (omega (arith, small));
  have_fits = λ wrong. absurd (omega (arith, wrong));
  bitfield_fits = λ wrong. absurd (omega (arith, wrong));
  range_fits =
      λ wrong. elim wrong [ inl w ↦ absurd (omega (arith, w)) | inr w ↦ absurd (omega (arith, w)) ];
  block_fits = λ _. block-Fits p e;
}

abbrev inputs : List Input
inputs = request_piece 0 hash ∷ message (7 ∷ block_bytes) ∷ []

inputs-Fit : AllFit (λ xs. hash) inputs start
unfolding handle
inputs-Fit = (tt, λ p e. (block_message-Fits p e, λ p' e'. tt))

handle_all-Inv_example : Returns Inv (handle_all (λ xs. hash) inputs start)
handle_all-Inv_example = handle_all-Inv (λ xs. hash) inputs start inputs-Fit start-Inv
