-- ===== src/Peer/Healthy/Blocks.antt =====
-- peer.go, the end of `MsgBlock`: what comes of a block that was asked for.
use mathlib.Core.List.{append_assoc, append-nil}
use tulva.Prelude.{
  equal_bytes, suc, ap, sym, ◌∙◌, ◌≢◌, ◌⊎◌, false, All, ℕ, ◌+◌, ◌-◌, ◌≤◌, ◌<◌, ◌≡◌, refl, List, [],
  ◌∷◌, ◌++◌, true, some, inl, inr, ◌*◌, leb, length, take, drop, All-get_elem?, get_elem?, set,
  get_elem?-set_self, lt-get_elem?, done, Returns, read, write, arith, Bool-cases, ◌==◌, nat_eq,
}
use tulva.Prelude.Int.{pos, ◌≤ℤ◌, int_parts, one_part}
use tulva.Peer.Wire.{request_message}
use tulva.Peer.State.{download_block_size, Sizes, PieceDownload}
use tulva.Peer.Geometry.Tiling.{block_size, expected_length_for_block_lem}
use tulva.Peer.Downloads.{have_current_downloads, move_finished_piece_downloads_to_end}
use tulva.Peer.Requests.{BlockRequested}
use tulva.Peer.Messages.{
  Output, choke_status, have_pieces, block_request, peer_message, write_piece, stopping, Peer,
  sizes, with_outputs, request_outputs, send_requests, copy_at, one_received,
}
use tulva.Peer.Messages.Decode.{finish_piece, receive_block}
use tulva.Peer.Healthy.{
  Sound, Healthy, share, set-Healthy, move_finished_piece_downloads_to_end-Healthy,
  send_one_or_more_requests-Healthy,
}

abbrev pub IsMessage : Output → Type 0
IsMessage (peer_message bytes) = Unit
IsMessage (choke_status c) = ⊥
IsMessage (have_pieces ps) = ⊥
IsMessage (block_request info) = ⊥
IsMessage (write_piece n b) = ⊥
IsMessage stopping = ⊥

-- From `p` to `p'` the peer has put out `first`, and messages to the other side after that; the buffers
-- are the same, and the downloads are healthy.
abbrev pub Sends : List Output → Peer → Peer → Type 0
Sends first p p' =
    Healthy p'.downloads
    × (p'.buffers ≡ p.buffers)
    × ((out : List Output) × All IsMessage out × (p'.outputs ≡ p.outputs ++ (first ++ out)))

-- The requests can be written when the piece length is not 0.
request_outputs_lem :
    (s : Sizes) (cs : List BlockRequested)
    → 0 < s.piece_length
    → Returns (All IsMessage) (request_outputs s cs)
request_outputs_lem s [] h = ([], refl, tt)
request_outputs_lem s (c ∷ cs) h =
    let (out, e, m) = request_outputs_lem s cs h in
    (
      peer_message (
            request_message c.piece_num (download_block_size * c.block_num)
              (block_size s c.piece_num c.block_num))
          ∷ out,
      rw (expected_length_for_block_lem s c.piece_num c.block_num h, e) refl,
      (tt, m),
    )

pub send_requests-Sends :
    (p : Peer) → Healthy p.downloads → 0 < p.piece_length → Returns (Sends [] p) (send_requests p)
unfolding send_requests
send_requests-Sends p v h =
    let (s, e, w) = send_one_or_more_requests-Healthy p.downloads v in
    let (out, e', m) = request_outputs_lem (sizes p) s.calls h in
    (
      with_outputs out (record p { downloads = s.downloads }),
      rw (e, e') refl,
      (w, refl, (out, m, refl)),
    )

Sends-after :
    (first : List Output) (p q p' : Peer)
    → q.outputs ≡ p.outputs ++ first
    → q.buffers ≡ p.buffers
    → Sends [] q p'
    → Sends first p p'
Sends-after first p q p' o b (w, b', (out, m, e)) =
    (w, b' ∙ b, (out, m, e ∙ ap (λ xs. xs ++ out) o ∙ append_assoc p.outputs first out))

-- Nothing follows `first`.
Sends-only :
    (first : List Output) (p p' : Peer)
    → Healthy p'.downloads
    → p'.buffers ≡ p.buffers
    → p'.outputs ≡ p.outputs ++ first
    → Sends first p p'
Sends-only first p p' w b e =
    (w, b, ([], tt, e ∙ ap (λ xs. p.outputs ++ xs) (sym (append-nil first))))

one_received-Sound :
    (d : PieceDownload) → Sound d → pos 1 ≤ℤ d.num_outstanding_blocks → Sound (one_received d)
one_received-Sound d h asked f =
    let (o, r) = h f in
    (
      omega (int_parts, one_part d.num_outstanding_blocks, asked),
      omega (int_parts, one_part d.num_outstanding_blocks, r, asked),
    )

one_received-share :
    (d : PieceDownload) → pos 1 ≤ℤ d.num_outstanding_blocks → share (one_received d) ≤ share d
one_received-share d asked = elim (Bool-cases d.is_finished) [
  | inl f ↦ rw f (omega arith)
  | inr f ↦ rw f (omega (int_parts, one_part d.num_outstanding_blocks, asked))
]

-- The downloads after one more block of the one at the index.
pub one_received-Healthy :
    (ds : List PieceDownload) (i : ℕ) (d : PieceDownload)
    → Healthy ds
    → get_elem? ds i ≡ some d
    → pos 1 ≤ℤ d.num_outstanding_blocks
    → Healthy (set ds i (one_received d))
one_received-Healthy ds i d v e asked =
    set-Healthy ds i d (one_received d) v e
      (one_received-Sound d (All-get_elem? Sound ds i v.each e) asked) (one_received-share d asked)

-- The downloads after the end of the piece at the index.
pub finished-Healthy :
    (ds : List PieceDownload) (i : ℕ) (d : PieceDownload)
    → Healthy ds
    → get_elem? ds i ≡ some d
    → Healthy (move_finished_piece_downloads_to_end (set ds i (record d { is_finished = true })))
finished-Healthy ds i d v e =
    move_finished_piece_downloads_to_end-Healthy (set ds i (record d { is_finished = true })) (
      set-Healthy ds i d (record d { is_finished = true }) v e (λ f. absurd (ground arith))
        (omega arith))

-- A piece whose blocks have all come in goes to the disk if its hash is the expected one, else the peer is
-- stopped.
abbrev pub Finished : (List ℕ → List ℕ) → PieceDownload → List ℕ → Peer → Peer → Type 0
Finished sha1 d piece_data p p' =
    ((equal_bytes (sha1 piece_data) d.expected_hash ≡ true)
      × Sends (write_piece d.piece_num d.buffer ∷ []) p p')
    ⊎ ((equal_bytes (sha1 piece_data) d.expected_hash ≡ false) × Sends (stopping ∷ []) p p')

finish_piece-Finished :
    (sha1 : List ℕ → List ℕ) (i : ℕ) (d : PieceDownload) (piece_data : List ℕ) (p : Peer)
    → Healthy p.downloads
    → get_elem? p.downloads i ≡ some d
    → 0 < p.piece_length
    → Returns (Finished sha1 d piece_data p) (finish_piece sha1 i d piece_data p)
finish_piece-Finished sha1 i d piece_data p v e h =
    elim (Bool-cases (equal_bytes (sha1 piece_data) d.expected_hash)) [
      | inl good ↦
          let marked : List PieceDownload = set p.downloads i (record d { is_finished = true }) in
          let downloads : List PieceDownload = move_finished_piece_downloads_to_end marked in
          let w : Healthy downloads = finished-Healthy p.downloads i d v e in
          let to_disk : List Output = write_piece d.piece_num d.buffer ∷ [] in
          let finished : Peer = with_outputs to_disk (record p { downloads = downloads }) in
          elim (Bool-cases (have_current_downloads downloads)) [
            | inl more ↦
                let (p', e', s) = send_requests-Sends finished w h in
                (
                  p',
                  rw (good, e, write, more) e',
                  inl (good, Sends-after to_disk p finished p' refl refl s),
                )
            | inr idle ↦ (
              finished,
              rw (good, e, write, idle) refl,
              inl (good, Sends-only to_disk p finished w refl refl),
            )
          ]
      | inr bad ↦
          let stopped_ : Peer = with_outputs (stopping ∷ []) p in
          (stopped_, rw bad refl, inr (bad, Sends-only (stopping ∷ []) p stopped_ v refl refl))
    ]

-- The buffer after the block has been copied into it.
abbrev pub written : ℕ → List ℕ → List ℕ → List ℕ
written begin block old =
    take begin old ++ take (length old - begin) block ++ drop (begin + length block) old

pub copy_at_lem :
    (begin : ℕ) (block old : List ℕ)
    → begin ≤ length old
    → copy_at begin block old ≡ done (written begin block old)
copy_at_lem begin block old h =
    let fits : leb begin (length old) ≡ true = ground arith in rw fits refl

-- The peer once the block is in the buffer and counted.
abbrev pub with_block : ℕ → PieceDownload → List ℕ → Peer → Peer
with_block i d piece_data p = record p {
  downloads = set p.downloads i (one_received d);
  buffers = set p.buffers d.buffer piece_data;
}

-- If the downloads are healthy and the piece length is not 0, a block for a download that waits for one
-- block at least, and that begins within the buffer of the download, is handled with no panic and no
-- `log.Fatalf`. The block is in the buffer then, and the downloads are healthy. If it is not the last block of
-- the piece, only messages to the other side are sent. If it is, the piece goes to the disk when the hash of the
-- buffer is the expected one, and the peer is stopped when it is not; never both.
pub receive_block-Finished :
    (sha1 : List ℕ → List ℕ) (i begin : ℕ) (block : List ℕ) (p : Peer) (d : PieceDownload)
    (old : List ℕ)
    → Healthy p.downloads
    → 0 < p.piece_length
    → get_elem? p.downloads i ≡ some d
    → pos 1 ≤ℤ d.num_outstanding_blocks
    → get_elem? p.buffers d.buffer ≡ some old
    → begin ≤ length old
    → Returns
        (λ p'.
          ((suc d.num_blocks_received ≢ d.num_blocks_in_piece)
            × Sends [] (with_block i d (written begin block old) p) p')
          ⊎ ((suc d.num_blocks_received ≡ d.num_blocks_in_piece)
              × Finished sha1 d
                  (written begin block old)
                  (with_block i d (written begin block old) p)
                  p'))
        (receive_block sha1 i begin block p)
unfolding receive_block
receive_block-Finished sha1 i begin block p d old v h e asked b fits =
    let c = copy_at_lem begin block old fits in
    let received : PieceDownload = one_received d in
    let next : Peer = with_block i d (written begin block old) p in
    let w : Healthy next.downloads = one_received-Healthy p.downloads i d v e asked in
    elim (Bool-cases (suc d.num_blocks_received == d.num_blocks_in_piece)) [
      | inl full ↦
          let (p', e', s) =
            finish_piece-Finished sha1 i received (written begin block old) next w
              (get_elem?-set_self p.downloads i received (lt-get_elem? p.downloads i e)) h in
          (p', rw (e, b, read, write, c, full) e', inr (ground arith, s))
      | inr more ↦
          let (p', e', s) = send_requests-Sends next w h in
          (p', rw (e, b, read, write, c, more) e', inl (ground arith, s))
    ]
