-- ===== src/Peer/Healthy.antt =====
-- peer.go: what holds of the downloads as long as each block that comes in has been asked for, and that the
-- operations on the list keep it.
pub mod Blocks
pub mod Start
pub mod Taken
pub mod Cancel
use tulva.Prelude.{
  ℕ, zero, suc, ◌+◌, ◌-◌, ◌≤◌, ◌<◌, ◌≡◌, refl, ap, sym, ◌∙◌, subst, List, [], ◌∷◌, ◌++◌, Bool, true,
  false, not, ◌&&◌, some, none, inl, inr, min, length, get_elem?, set, filterb, All, All-append,
  All-set, All-get_elem?, sum_map, sum_map-append, sum_map-set, SameItems, Outcome, done, Returns,
  arith, Bool-cases, Option-cases, if◌then◌else◌,
}
use tulva.Prelude.Int.{ℤ, pos, pos_part, neg_part, ◌+ℤ◌, ◌-ℤ◌, ◌≤ℤ◌, int_laws, int_parts, one_part}
use tulva.Peer.State.{
  PieceDownload, max_simultaneous_block_downloads, requested, remaining_requests_to_send,
}
use tulva.Peer.Downloads.{
  total_outstanding_blocks, have_current_downloads, get_piece_download,
  move_finished_piece_downloads_to_end, finish_at, process_cancel_from_controller, clear_downloads,
}
use tulva.Peer.Requests.{Sending, send_one_or_more_requests}
use tulva.Peer.Requests.Fill.{granted, with_more, fill, Counted, room_left}
use tulva.Peer.Requests.Fill.Rounds.{send_one_or_more_requests_lem}
use tulva.Peer.Requests.Fill.Total.{fill-within}

-- An unfinished download waits for at least 0 blocks, and has not asked for more blocks than the piece has.
abbrev pub Sound : PieceDownload → Type 0
Sound d =
    (d.is_finished ≡ false)
    → (pos 0 ≤ℤ d.num_outstanding_blocks) × (requested d ≤ℤ pos d.num_blocks_in_piece)

pub record Healthy (ds : List PieceDownload) : Type 0 where
  pub each : All Sound ds
  pub within : total_outstanding_blocks ds ≤ℤ pos max_simultaneous_block_downloads

-- What a download adds to the total.
abbrev pub share : PieceDownload → ℕ
share d = if d.is_finished then 0 else pos_part d.num_outstanding_blocks

share_step :
    (fin : Bool) (o rest : ℤ) (n : ℕ)
    → ((fin ≡ false) → pos 0 ≤ℤ o)
    → rest ≡ pos n
    → (if fin then rest else o +ℤ rest) ≡ pos ((if fin then 0 else pos_part o) + n)
share_step true o rest n h e = e ∙ ap pos (omega arith)
share_step false o rest n h e = rw e (omega (int_laws, one_part o, h refl))

pub total-share :
    (ds : List PieceDownload) → All Sound ds → total_outstanding_blocks ds ≡ pos (sum_map share ds)
unfolding total_outstanding_blocks
total-share [] h = refl
total-share (d ∷ ds) h =
    share_step d.is_finished d.num_outstanding_blocks (total_outstanding_blocks ds)
      (sum_map share ds) (λ f. (h.0 f).0) (total-share ds h.1)

pub Healthy-of_sum :
    (ds : List PieceDownload)
    → All Sound ds
    → sum_map share ds ≤ max_simultaneous_block_downloads
    → Healthy ds
Healthy-of_sum ds h l = record { each = h; within = rw (total-share ds h) (omega (arith, l)) }

pub shares :
    (ds : List PieceDownload) → Healthy ds → sum_map share ds ≤ max_simultaneous_block_downloads
shares ds v =
    let e = total-share ds v.each in
    omega (arith, subst (λ t. t ≤ℤ pos max_simultaneous_block_downloads) e v.within)

-- What passes a test and what fails it add up to the whole.
filterb-sums :
    (p : PieceDownload → Bool) (g : PieceDownload → ℕ) (xs : List PieceDownload)
    → sum_map g (filterb (λ d. not (p d)) xs) + sum_map g (filterb p xs) ≡ sum_map g xs
filterb-sums p g [] = omega arith
filterb-sums p g (x ∷ xs) = ground (arith, filterb-sums p g xs)

pub move_finished_piece_downloads_to_end-SameItems :
    (ds : List PieceDownload) → SameItems (move_finished_piece_downloads_to_end ds) ds
unfolding move_finished_piece_downloads_to_end
move_finished_piece_downloads_to_end-SameItems ds g =
    sum_map-append g (filterb (λ d. not d.is_finished) ds) (filterb (λ d. d.is_finished) ds)
    ∙ filterb-sums (λ d. d.is_finished) g ds

pub All-filterb :
    (P : PieceDownload → Type 0) (p : PieceDownload → Bool) (xs : List PieceDownload)
    → All P xs
    → All P (filterb p xs)
All-filterb P p [] h = tt
All-filterb P p (x ∷ xs) h = elim (Bool-cases (p x)) [
  | inl e ↦ rw e (h.0, All-filterb P p xs h.1)
  | inr e ↦ rw e (All-filterb P p xs h.1)
]

-- The finished downloads go to the end: every download stays in the list, as often, and the downloads
-- stay healthy.
pub move_finished_piece_downloads_to_end-Healthy :
    (ds : List PieceDownload) → Healthy ds → Healthy (move_finished_piece_downloads_to_end ds)
unfolding move_finished_piece_downloads_to_end
move_finished_piece_downloads_to_end-Healthy ds v =
    Healthy-of_sum (move_finished_piece_downloads_to_end ds)
      (All-append Sound (filterb (λ d. not d.is_finished) ds) (filterb (λ d. d.is_finished) ds)
        (All-filterb Sound (λ d. not d.is_finished) ds v.each)
        (All-filterb Sound (λ d. d.is_finished) ds v.each))
      (omega (arith, move_finished_piece_downloads_to_end-SameItems ds share, shares ds v))

-- The download at an index is replaced by one that waits for no more blocks.
pub set-Healthy :
    (ds : List PieceDownload) (i : ℕ) (d d' : PieceDownload)
    → Healthy ds
    → get_elem? ds i ≡ some d
    → Sound d'
    → share d' ≤ share d
    → Healthy (set ds i d')
set-Healthy ds i d d' v e s l =
    Healthy-of_sum (set ds i d') (All-set Sound ds i d' v.each s)
      (omega (arith, sum_map-set share ds i d' e, shares ds v, l))

clear_downloads-share :
    (ds : List PieceDownload)
    → All Sound (clear_downloads ds) × (sum_map share (clear_downloads ds) ≡ 0)
unfolding clear_downloads
clear_downloads-share [] = (tt, refl)
clear_downloads-share (d ∷ ds) =
    let (h, e) = clear_downloads-share ds in ((λ f. absurd (ground arith), h), omega (arith, e))

pub clear_downloads-Healthy : (ds : List PieceDownload) → Healthy (clear_downloads ds)
clear_downloads-Healthy ds =
    let (h, e) = clear_downloads-share ds in
    Healthy-of_sum (clear_downloads ds) h (omega (arith, e))

-- The downloads are healthy when the controller has cancelled a piece.
pub process_cancel_from_controller-Healthy :
    (piece_num : ℕ) (ds : List PieceDownload)
    → Healthy ds
    → Healthy (process_cancel_from_controller piece_num ds)
unfolding process_cancel_from_controller
process_cancel_from_controller-Healthy piece_num ds v =
    elim (Bool-cases (have_current_downloads ds)) [
      | inl work ↦ elim (Option-cases (get_piece_download piece_num ds)) [
        | inl n ↦ rw (work, n) v
        | inr (i, e) ↦ rw (work, e) (move_finished_piece_downloads_to_end-Healthy _ (finished i))
      ]
      | inr idle ↦ rw idle v
    ]
  where
    finished : (i : ℕ) → Healthy (finish_at i ds)
    finished i = elim (Option-cases (get_elem? ds i)) [
      | inl n ↦ rw (finish_at, n) v
      | inr (d, e) ↦
          rw (finish_at, e)
            (set-Healthy ds i d (record d { is_finished = true }) v e (λ f. absurd (ground arith))
              (omega arith))
    ]

pub Counted-of_Sound : (ds : List PieceDownload) → All Sound ds → Counted ds
Counted-of_Sound [] h = tt
Counted-of_Sound (d ∷ ds) h = (
  λ f. let (o, r) = h.0 f in omega (int_parts, one_part d.num_outstanding_blocks, o),
  Counted-of_Sound ds h.1,
)

with_more-Sound : (b : ℕ) (d : PieceDownload) → Sound d → Sound (with_more (granted b d) d)
unfolding remaining_requests_to_send
with_more-Sound b d h f =
    let (o, r) = h f in
    let given : granted b d ≤ pos_part (remaining_requests_to_send d) = ground arith in
    (
      omega (int_parts, one_part d.num_outstanding_blocks, o),
      omega (int_parts, one_part d.num_outstanding_blocks, o, r, given),
    )

fill-Sound : (b : ℕ) (ds : List PieceDownload) → All Sound ds → All Sound (fill b ds).downloads
unfolding fill
fill-Sound b [] h = tt
fill-Sound b (d ∷ ds) h = (with_more-Sound b d h.0, fill-Sound (b - granted b d) ds h.1)

-- If the downloads are healthy, `sendOneOrMoreRequests` returns, with no `log.Fatalf`, and the downloads
-- are healthy then.
pub send_one_or_more_requests-Healthy :
    (ds : List PieceDownload)
    → Healthy ds
    → Returns (λ s. Healthy s.downloads) (send_one_or_more_requests ds)
send_one_or_more_requests-Healthy ds v =
    let c = Counted-of_Sound ds v.each in
    (
      fill (room_left ds) ds,
      send_one_or_more_requests_lem ds c v.within,
      record { each = fill-Sound (room_left ds) ds v.each; within = fill-within ds v.within },
    )
