-- ===== src/Peer/Connection/Kept.antt =====
-- What the handlers leave as it is: the sizes, the bitfields, and that each download has a buffer.
use tulva.Prelude.{
  equal_bytes, ℕ, suc, ◌-◌, ◌≤◌, ◌<◌, ◌≡◌, refl, sym, ◌∙◌, subst, List, [], ◌∷◌, true, not, some,
  inl, inr, length, length-set, get_elem?, get_elem?-set_self, lt-get_elem?, set, All, All-append,
  All-set, All-get_elem?, done, done-injective, Outcome-cases, read, write, Bool-cases,
  Option-cases, ◌==◌, nat_eq, filterb,
}
use tulva.Prelude.Int.{pos, ◌≤ℤ◌}
use tulva.Peer.State.{PieceDownload}
use tulva.Peer.Downloads.{
  have_current_downloads, move_finished_piece_downloads_to_end, clear_downloads, finish_at,
  process_cancel_from_controller, get_piece_download,
}
use tulva.Peer.Requests.Fill.{fill, room_left, granted}
use tulva.Peer.Requests.Fill.Rounds.{send_one_or_more_requests_lem}
use tulva.Peer.Messages.{
  Peer, sizes, with_outputs, request_outputs, send_requests, one_received, write_piece, stopping,
}
use tulva.Peer.Messages.Decode.{finish_piece, receive_block}
use tulva.Peer.Healthy.{Healthy, All-filterb, Counted-of_Sound}
use tulva.Peer.Healthy.Blocks.{
  finished-Healthy, one_received-Healthy, with_block, written, copy_at_lem,
}
use tulva.Peer.Healthy.Start.{HasBuffers}

abbrev pub Kept : Peer → Peer → Type 0
Kept p p' =
    (p'.piece_length ≡ p.piece_length)
    × (p'.our_bitfield ≡ p.our_bitfield)
    × (p'.peer_bitfield ≡ p.peer_bitfield)
    × (HasBuffers p → HasBuffers p')

pub Kept-trans : (p q r : Peer) → Kept p q → Kept q r → Kept p r
Kept-trans p q r (a, b, c, d) (a', b', c', d') = (a' ∙ a, b' ∙ b, c' ∙ c, λ h. d' (d h))

module _ (n : ℕ) where
  -- The number of the buffer is below `n`.
  Below : PieceDownload → Type 0
  Below d = d.buffer < n

  fill-Below : (b : ℕ) (ds : List PieceDownload) → All Below ds → All Below (fill b ds).downloads
  unfolding fill Below
  fill-Below b [] h = tt
  fill-Below b (d ∷ ds) h = (h.0, fill-Below (b - granted b d) ds h.1)

  pub clear_downloads-below :
      (ds : List PieceDownload)
      → All (λ d. d.buffer < n) ds
      → All (λ d. d.buffer < n) (clear_downloads ds)
  unfolding clear_downloads
  clear_downloads-below [] h = tt
  clear_downloads-below (d ∷ ds) h = (h.0, clear_downloads-below ds h.1)

  pub moved-below :
      (ds : List PieceDownload)
      → All (λ d. d.buffer < n) ds
      → All (λ d. d.buffer < n) (move_finished_piece_downloads_to_end ds)
  unfolding move_finished_piece_downloads_to_end
  moved-below ds h =
      All-append (λ d. d.buffer < n) (filterb (λ d. not d.is_finished) ds)
        (filterb (λ d. d.is_finished) ds)
        (All-filterb (λ d. d.buffer < n) (λ d. not d.is_finished) ds h)
        (All-filterb (λ d. d.buffer < n) (λ d. d.is_finished) ds h)

-- The requests.
pub send_requests-Kept : (p p' : Peer) → Healthy p.downloads → send_requests p ≡ done p' → Kept p p'
unfolding send_requests Below
send_requests-Kept p p' v e =
    let filled = fill (room_left p.downloads) p.downloads in
    let lem =
      send_one_or_more_requests_lem p.downloads (Counted-of_Sound p.downloads v.each) v.within in
    elim (Outcome-cases (request_outputs (sizes p) filled.calls)
      (λ out. done (with_outputs out (record p { downloads = filled.downloads })))) [
        | inl (out, f) ↦
            let next : Peer = with_outputs out (record p { downloads = filled.downloads }) in
            let it : next ≡ p' = done-injective (sym (rw (lem, f) refl) ∙ e) in
            subst (Kept p) it (
              refl,
              refl,
              refl,
              λ h. fill-Below (length p.buffers) (room_left p.downloads) p.downloads h,
            )
        | inr failed ↦ absurd (failed p' (sym (rw lem refl) ∙ e))
      ]

-- One download is replaced by another with the same buffer.
pub set-below :
    (n : ℕ) (ds : List PieceDownload) (i : ℕ) (d d' : PieceDownload)
    → get_elem? ds i ≡ some d
    → d'.buffer ≡ d.buffer
    → All (λ d. d.buffer < n) ds
    → All (λ d. d.buffer < n) (set ds i d')
set-below n ds i d d' e same h =
    All-set (λ d. d.buffer < n) ds i d' h (rw same (All-get_elem? (λ d. d.buffer < n) ds i h e))

-- A cancel of the controller.
pub process_cancel-below :
    (n piece_num : ℕ) (ds : List PieceDownload)
    → All (λ d. d.buffer < n) ds
    → All (λ d. d.buffer < n) (process_cancel_from_controller piece_num ds)
unfolding process_cancel_from_controller
process_cancel-below n piece_num ds h = elim (Bool-cases (have_current_downloads ds)) [
  | inr idle ↦ rw idle h
  | inl work ↦ elim (Option-cases (get_piece_download piece_num ds)) [
    | inl other ↦ rw (work, other) h
    | inr (i, e) ↦
        let finished : All (λ d. d.buffer < n) (finish_at i ds) =
          elim (Option-cases (get_elem? ds i)) [
            | inl gone ↦ rw (finish_at, gone) h
            | inr (d, at) ↦
                rw (finish_at, at) (set-below n ds i d (record d { is_finished = true }) at refl h)
          ] in
        rw (work, e) (moved-below n (finish_at i ds) finished)
  ]
]

module _ (sha1 : List ℕ → List ℕ) where
  -- The end of a piece.
  finish_piece-Kept :
      (i : ℕ) (d : PieceDownload) (piece_data : List ℕ) (p p' : Peer)
      → get_elem? p.downloads i ≡ some d
      → Healthy p.downloads
      → finish_piece sha1 i d piece_data p ≡ done p'
      → Kept p p'
  finish_piece-Kept i d piece_data p p' e v h =
      let marked : List PieceDownload = set p.downloads i (record d { is_finished = true }) in
      let downloads : List PieceDownload = move_finished_piece_downloads_to_end marked in
      let finished : Peer =
        with_outputs (write_piece d.piece_num d.buffer ∷ []) (record p { downloads = downloads }) in
      let kept : Kept p finished = (
        refl,
        refl,
        refl,
        λ b.
            moved-below (length p.buffers) marked
              (set-below (length p.buffers) p.downloads i d _ e refl b),
      ) in
      elim (Bool-cases (equal_bytes (sha1 piece_data) d.expected_hash)) [
        | inl good ↦ elim (Bool-cases (have_current_downloads downloads)) [
          | inl more ↦ Kept-trans p finished p' kept (
              send_requests-Kept finished p' (finished-Healthy p.downloads i d v e)
                (sym (rw (good, e, write, more) refl) ∙ h))
          | inr idle ↦
              let it : finished ≡ p' = done-injective (sym (rw (good, e, write, idle) refl) ∙ h) in
              subst (Kept p) it kept
        ]
        | inr bad ↦
            let stopped_ : Peer = with_outputs (stopping ∷ []) p in
            let it : stopped_ ≡ p' = done-injective (sym (rw bad refl) ∙ h) in
            subst (Kept p) it (refl, refl, refl, λ b. b)
      ]

  -- A block that was asked for.
  pub receive_block-Kept :
      (i begin : ℕ) (block : List ℕ) (p p' : Peer) (d : PieceDownload) (old : List ℕ)
      → Healthy p.downloads
      → get_elem? p.downloads i ≡ some d
      → pos 1 ≤ℤ d.num_outstanding_blocks
      → get_elem? p.buffers d.buffer ≡ some old
      → begin ≤ length old
      → receive_block sha1 i begin block p ≡ done p'
      → Kept p p'
  unfolding receive_block
  receive_block-Kept i begin block p p' d old v e asked b fits h =
      let c = copy_at_lem begin block old fits in
      let next : Peer = with_block i d (written begin block old) p in
      let w : Healthy next.downloads = one_received-Healthy p.downloads i d v e asked in
      let kept : Kept p next = (
        refl,
        refl,
        refl,
        λ hb.
            subst (λ n. All (λ d. d.buffer < n) next.downloads)
              (sym (length-set p.buffers d.buffer (written begin block old)))
              (set-below (length p.buffers) p.downloads i d (one_received d) e refl hb),
      ) in
      elim (Bool-cases (suc d.num_blocks_received == d.num_blocks_in_piece)) [
        | inl full ↦ Kept-trans p next p' kept (
            finish_piece-Kept i (one_received d) (written begin block old) next p'
              (get_elem?-set_self p.downloads i (one_received d) (lt-get_elem? p.downloads i e)) w
              (sym (rw (e, b, read, write, c, full) refl) ∙ h))
        | inr more ↦
            Kept-trans p next p' kept
              (send_requests-Kept next p' w (sym (rw (e, b, read, write, c, more) refl) ∙ h))
      ]
