-- ===== src/Peer/Requests/Fill/Total.antt =====
-- What `sendOneOrMoreRequests` leaves: the outstanding blocks, and the requests that are left.
use tulva.Prelude.{
  ℕ, zero, suc, ◌+◌, ◌-◌, ◌≡◌, refl, ap, ◌∙◌, List, [], ◌∷◌, Bool, true, false, min, length,
  length-append, Returns, arith, if◌then◌else◌,
}
use tulva.Prelude.Int.{ℤ, pos, pos_part, ◌+ℤ◌, ◌-ℤ◌, ◌≤ℤ◌, int_laws, int_parts, one_part}
use tulva.Peer.State.{PieceDownload, max_simultaneous_block_downloads, remaining_requests_to_send}
use tulva.Peer.Downloads.{total_outstanding_blocks}
use tulva.Peer.Requests.{BlockRequested, left_to_send, next_block, send_one_or_more_requests}
use tulva.Peer.Requests.Fill.{calls_from, granted, fill, Counted, room_left}
use tulva.Peer.Requests.Fill.Rounds.{send_one_or_more_requests_lem}

length-calls_from : (n b k : ℕ) → length (calls_from n b k) ≡ k
length-calls_from n b zero = refl
length-calls_from n b (suc k) = ap (λ m. suc m) (length-calls_from n (suc b) k)

-- One download and the rest, on numbers: `g` is what the download is given, `l` what it has left.
total_step :
    (fin : Bool) (rest_total rest o : ℤ) (g b l left : ℕ)
    → g ≡ (if fin then 0 else min b l)
    → rest_total ≡ rest +ℤ pos (min (b - g) left)
    → (if fin then rest_total else o +ℤ pos g +ℤ rest_total)
      ≡ (if fin then rest else o +ℤ rest) +ℤ pos (min b (if fin then left else l + left))
total_step true rest_total rest o g b l left e t = t ∙ ap (λ m. rest +ℤ pos m) (omega (arith, e))
total_step false rest_total rest o g b l left e t =
    let all_given : g + min (b - g) left ≡ min b (l + left) = omega (arith, e) in
    rw (t, ← all_given) (omega int_laws)

length_step :
    (fin : Bool) (g b l left : ℕ)
    → g ≡ (if fin then 0 else min b l)
    → g + min (b - g) left ≡ min b (if fin then left else l + left)
length_step true g b l left e = omega (arith, e)
length_step false g b l left e = omega (arith, e)

-- Each request that goes out is one block more outstanding and one less left.
fill-total :
    (b : ℕ) (ds : List PieceDownload)
    → (total_outstanding_blocks (fill b ds).downloads
        ≡ total_outstanding_blocks ds +ℤ pos (min b (left_to_send ds)))
      × (length (fill b ds).calls ≡ min b (left_to_send ds))
unfolding fill total_outstanding_blocks
fill-total b [] = (omega int_laws, omega arith)
fill-total b (d ∷ ds) =
    let (t, l) = fill-total (b - granted b d) ds in
    let rest : List BlockRequested = (fill (b - granted b d) ds).calls in
    (
      total_step d.is_finished _ _ d.num_outstanding_blocks (granted b d) b
          (pos_part (remaining_requests_to_send d)) (left_to_send ds) refl t,
      length-append (calls_from d.piece_num (next_block d) (granted b d)) rest
          ∙ ap (λ m. m + length rest) (length-calls_from d.piece_num (next_block d) (granted b d))
          ∙ ap (λ m. granted b d + m) l
          ∙ length_step d.is_finished (granted b d) b (pos_part (remaining_requests_to_send d))
              (left_to_send ds) refl,
    )

within : (t : ℤ) (left : ℕ) → t ≤ℤ pos 20 → (t +ℤ pos (min (pos_part (pos 20 -ℤ t)) left)) ≤ℤ pos 20
within t left h = omega (int_parts, one_part t, h)

pub fill-within :
    (ds : List PieceDownload)
    → total_outstanding_blocks ds ≤ℤ pos max_simultaneous_block_downloads
    → total_outstanding_blocks (fill (room_left ds) ds).downloads
      ≤ℤ pos max_simultaneous_block_downloads
fill-within ds h =
    rw ((fill-total (room_left ds) ds).0) (within (total_outstanding_blocks ds) (left_to_send ds) h)

-- If each unfinished download has asked for at least 0 blocks and at most 20 blocks are outstanding,
-- `sendOneOrMoreRequests` sends as many requests as there are left to send, or as there is room for up to 20
-- outstanding blocks, whichever is less; each of them is one block more outstanding; and at most 20
-- blocks are outstanding then.
pub send_one_or_more_requests-total :
    (ds : List PieceDownload)
    → Counted ds
    → total_outstanding_blocks ds ≤ℤ pos max_simultaneous_block_downloads
    → Returns
        (λ s.
          (length s.calls ≡ min (room_left ds) (left_to_send ds))
          × (total_outstanding_blocks s.downloads
              ≡ total_outstanding_blocks ds +ℤ pos (min (room_left ds) (left_to_send ds)))
          × (total_outstanding_blocks s.downloads ≤ℤ pos max_simultaneous_block_downloads))
        (send_one_or_more_requests ds)
send_one_or_more_requests-total ds c h =
    let (t, l) = fill-total (room_left ds) ds in
    (fill (room_left ds) ds, send_one_or_more_requests_lem ds c h, (l, t, fill-within ds h))
