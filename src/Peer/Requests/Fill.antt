-- ===== src/Peer/Requests/Fill.antt =====
-- `sendOneOrMoreRequests` described without a loop: each unfinished download in turn is given as many
-- of the next blocks as it has left and as there is room for.
pub mod Take
pub mod Rounds
pub mod Total
use tulva.Prelude.{
  ℕ, zero, suc, ◌+◌, ◌-◌, ◌≤◌, ◌<◌, ◌≡◌, refl, ap, sym, ◌∙◌, subst, List, [], ◌∷◌, ◌++◌, Bool, true,
  false, not, ◌&&◌, some, none, if◌then◌else◌, if_true, if_false, min, length, length-append,
  Outcome, done, fatal, Returns, ◌>>=◌, All, arith, Bool-cases, Option-cases, inl, inr, ◌⊎◌,
}
use mathlib.Core.List.{append_assoc}
use tulva.Prelude.Int.{
  ℤ, pos, negsuc, pos_part, neg_part, ◌+ℤ◌, ◌-ℤ◌, ◌≤ℤ◌, leb_ℤ, ◌==ℤ◌, int_laws, int_parts, one_part,
  +ℤ_parts,
}
use tulva.Peer.State.{
  PieceDownload, max_simultaneous_block_downloads, requested, remaining_requests_to_send,
}
use tulva.Peer.Downloads.{total_outstanding_blocks}
use tulva.Peer.Requests.{
  BlockRequested, Sending, has_requests_to_send, next_block, send_next, send_rounds, left_to_send,
  send_one_or_more_requests,
}

-- The requests for `k` blocks of the piece from block `b` on.
abbrev pub calls_from : ℕ → ℕ → ℕ → List BlockRequested
calls_from n b zero = []
calls_from n b (suc k) = record { piece_num = n; block_num = b } ∷ calls_from n (suc b) k

-- How many requests a download is given out of `budget`.
abbrev pub granted : ℕ → PieceDownload → ℕ
granted budget d = if d.is_finished then 0 else min budget (pos_part (remaining_requests_to_send d))

abbrev pub with_more : ℕ → PieceDownload → PieceDownload
with_more k d = record d { num_outstanding_blocks = d.num_outstanding_blocks +ℤ pos k }

unfoldable pub fill : ℕ → List PieceDownload → Sending
fill budget [] = record { downloads = []; calls = [] }
fill budget (d ∷ ds) =
    let rest : Sending = fill (budget - granted budget d) ds in
    record {
      downloads = with_more (granted budget d) d ∷ rest.downloads;
      calls = calls_from d.piece_num (next_block d) (granted budget d) ++ rest.calls;
    }

-- Every unfinished download has asked for at least 0 blocks.
abbrev pub Counted : List PieceDownload → Type 0
Counted ds = All (λ d. (d.is_finished ≡ false) → pos 0 ≤ℤ requested d) ds

-- The room that is left.
abbrev pub room_left : List PieceDownload → ℕ
room_left ds = pos_part (pos max_simultaneous_block_downloads -ℤ total_outstanding_blocks ds)
