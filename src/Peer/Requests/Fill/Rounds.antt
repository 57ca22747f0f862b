-- ===== src/Peer/Requests/Fill/Rounds.antt =====
-- All the rounds of `sendOneOrMoreRequests` against the description.
use tulva.Prelude.{
  ℕ, zero, suc, ◌<◌, ◌≡◌, refl, ap, ◌∙◌, List, [], ◌∷◌, true, false, done, arith, Option-cases, inl,
  inr,
}
use tulva.Prelude.Int.{
  ℤ, pos, pos_part, neg_part, ◌+ℤ◌, ◌-ℤ◌, ◌≤ℤ◌, leb_ℤ, ◌==ℤ◌, int_parts, one_part, +ℤ_parts,
}
use tulva.Peer.State.{PieceDownload, max_simultaneous_block_downloads}
use tulva.Peer.Downloads.{total_outstanding_blocks}
use tulva.Peer.Requests.{send_next, send_rounds, left_to_send, send_one_or_more_requests}
use tulva.Peer.Requests.Fill.{fill, Counted, room_left}
use tulva.Peer.Requests.Fill.Take.{passed, fill_skip, fill-none, send_next_lem}

-- Without room nothing is sent.
fill_zero : (ds : List PieceDownload) → fill 0 ds ≡ record { downloads = ds; calls = [] }
unfolding fill
fill_zero [] = refl
fill_zero (d ∷ ds) = fill_skip 0 d ds (ground arith) ∙ ap (passed d) (fill_zero ds)

-- The tests of a round, on the total.
full_lem : (t : ℤ) → t +ℤ pos 0 ≡ pos 20 → (t ==ℤ pos 20) ≡ true
full_lem t h = ground (arith, +ℤ_parts t (pos 0), one_part t, ap pos_part h, ap neg_part h)

below_lem : (t : ℤ) (b : ℕ) → t +ℤ pos (suc b) ≡ pos 20 → leb_ℤ t (pos 20) ≡ true
below_lem t b h = ground (arith, +ℤ_parts t (pos (suc b)), one_part t, ap pos_part h, ap neg_part h)

not_full_lem : (t : ℤ) (b : ℕ) → t +ℤ pos (suc b) ≡ pos 20 → (t ==ℤ pos 20) ≡ false
not_full_lem t b h =
    ground (arith, +ℤ_parts t (pos (suc b)), one_part t, ap pos_part h, ap neg_part h)

one_on_lem : (t : ℤ) (b : ℕ) → t +ℤ pos (suc b) ≡ pos 20 → t +ℤ pos 1 +ℤ pos b ≡ pos 20
one_on_lem t b h = omega (int_parts, one_part t, ap pos_part h, ap neg_part h)

-- The rounds, with `b` blocks of room.
rounds_lem :
    (fuel : ℕ) (b : ℕ) (ds : List PieceDownload)
    → left_to_send ds < fuel
    → total_outstanding_blocks ds +ℤ pos b ≡ pos max_simultaneous_block_downloads
    → Counted ds
    → send_rounds fuel ds ≡ done (fill b ds)
unfolding send_rounds
rounds_lem zero b ds lt t c = absurd (omega (arith, lt))
rounds_lem (suc fuel) zero ds lt t c =
    rw (send_rounds, full_lem (total_outstanding_blocks ds) t, fill_zero ds) refl
rounds_lem (suc fuel) (suc b) ds lt t c = elim (Option-cases (send_next ds)) [
  | inl n ↦
      rw
        (
          send_rounds,
          not_full_lem (total_outstanding_blocks ds) b t,
          below_lem (total_outstanding_blocks ds) b t,
          n,
          fill-none ds n (suc b),
        )
        refl
  | inr (s, m) ↦
      let (f, l, u, k) = send_next_lem ds s m c in
      rw
        (
          send_rounds,
          not_full_lem (total_outstanding_blocks ds) b t,
          below_lem (total_outstanding_blocks ds) b t,
          m,
          rounds_lem fuel b s.downloads (omega (arith, l, lt))
              (rw u (one_on_lem (total_outstanding_blocks ds) b t)) k,
          f b,
        )
        refl
]

room_lem : (t : ℤ) → t ≤ℤ pos 20 → t +ℤ pos (pos_part (pos 20 -ℤ t)) ≡ pos 20
room_lem t h = omega (int_parts, one_part t, h)

-- If each unfinished download has asked for at least 0 blocks and at most 20 blocks are outstanding,
-- `sendOneOrMoreRequests` ends, without a `log.Fatal`, and gives each unfinished download in the
-- order of the list as many requests as it has left to send and as the room up to 20 allows, for
-- successive block numbers from the next one on.
pub send_one_or_more_requests_lem :
    (ds : List PieceDownload)
    → Counted ds
    → total_outstanding_blocks ds ≤ℤ pos max_simultaneous_block_downloads
    → send_one_or_more_requests ds ≡ done (fill (room_left ds) ds)
unfolding send_one_or_more_requests
send_one_or_more_requests_lem ds c h =
    rounds_lem (suc (left_to_send ds)) (room_left ds) ds (omega arith)
      (room_lem (total_outstanding_blocks ds) h) c
