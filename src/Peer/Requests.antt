-- ===== src/Peer/Requests.antt =====
-- peer.go, `sendOneOrMoreRequests`: requests go out until 20 blocks are outstanding or none is left to
-- ask for.
pub mod Fill
use tulva.Prelude.{
  ℕ, zero, suc, ◌+◌, List, [], ◌∷◌, ◌++◌, Bool, true, false, not, ◌&&◌, some, none, Option,
  if◌then◌else◌, Outcome, done, fatal, out_of_fuel, ◌>>=◌,
}
use tulva.Prelude.Int.{ℤ, pos, pos_part, ◌+ℤ◌, ◌-ℤ◌, leb_ℤ, ◌==ℤ◌}
use tulva.Peer.State.{
  PieceDownload, max_simultaneous_block_downloads, requested, remaining_requests_to_send,
}
use tulva.Peer.Downloads.{total_outstanding_blocks}

-- A call of `sendRequestByBlockNum`.
pub record BlockRequested : Type 0 where
  pub piece_num : ℕ
  pub block_num : ℕ

-- The downloads, and the calls made so far, the first one first.
pub record Sending : Type 0 where
  pub downloads : List PieceDownload
  pub calls : List BlockRequested

-- `!piece.isFinished && piece.remainingRequestsToSend() > 0`.
abbrev pub has_requests_to_send : PieceDownload → Bool
has_requests_to_send d = not d.is_finished && not (leb_ℤ (remaining_requests_to_send d) (pos 0))

-- The number of blocks that were asked for, which is never negative.
abbrev pub next_block : PieceDownload → ℕ
next_block d = pos_part (requested d)

-- The `range` loop: the first download that has requests to send gets one more.
unfoldable pub send_next : List PieceDownload → Option Sending
unfolding remaining_requests_to_send
send_next [] = none
send_next (d ∷ ds) =
    if has_requests_to_send d
    then some (record {
      downloads = record d { num_outstanding_blocks = d.num_outstanding_blocks +ℤ pos 1 } ∷ ds;
      calls = record { piece_num = d.piece_num; block_num = next_block d } ∷ [];
    })
    else elim (send_next ds) [
      | none ↦ none
      | some s ↦ some (record s { downloads = d ∷ s.downloads })
    ]

-- The function calls itself after each request.
unfoldable pub send_rounds : ℕ → List PieceDownload → Outcome Sending
unfolding send_next total_outstanding_blocks
send_rounds zero ds = out_of_fuel
send_rounds (suc fuel) ds =
    elim (total_outstanding_blocks ds ==ℤ pos max_simultaneous_block_downloads) [
      | true ↦ done (record { downloads = ds; calls = [] })
      | false ↦ elim (leb_ℤ (total_outstanding_blocks ds) (pos max_simultaneous_block_downloads)) [
        | false ↦ fatal
        | true ↦ elim (send_next ds) [
          | none ↦ done (record { downloads = ds; calls = [] })
          | some s ↦
              (send_rounds fuel s.downloads >>= λ t. done (record t { calls = s.calls ++ t.calls }))
        ]
      ]
    ]

-- How many requests all the unfinished downloads have left to send.
abbrev pub left_to_send : List PieceDownload → ℕ
left_to_send [] = 0
left_to_send (d ∷ ds) =
    let rest = left_to_send ds in
    if d.is_finished then rest else pos_part (remaining_requests_to_send d) + rest

-- Each round sends one of them, so one round more than that is enough.
unfoldable pub send_one_or_more_requests : List PieceDownload → Outcome Sending
unfolding send_rounds remaining_requests_to_send
send_one_or_more_requests ds = send_rounds (suc (left_to_send ds)) ds
