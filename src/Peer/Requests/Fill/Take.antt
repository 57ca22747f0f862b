-- ===== src/Peer/Requests/Fill/Take.antt =====
-- One round of `sendOneOrMoreRequests` against the description.
use tulva.Prelude.{
  ℕ, suc, ◌+◌, ◌-◌, ◌≤◌, ◌≡◌, refl, ap, sym, ◌∙◌, subst, List, [], ◌∷◌, ◌++◌, true, false, some,
  none, arith, Bool-cases, Option-cases, inl, inr,
}
use tulva.Prelude.Int.{ℤ, pos, pos_part, ◌+ℤ◌, ◌≤ℤ◌, int_laws, int_parts, one_part}
use tulva.Peer.State.{PieceDownload, requested, remaining_requests_to_send}
use tulva.Peer.Downloads.{total_outstanding_blocks}
use tulva.Peer.Requests.{Sending, has_requests_to_send, next_block, send_next, left_to_send}
use tulva.Peer.Requests.Fill.{calls_from, granted, with_more, fill, Counted}

-- A round gives the first download that has requests to send one more.
abbrev pub one_more : Sending → Sending → Sending
one_more s t = record { downloads = t.downloads; calls = s.calls ++ t.calls }

with_more_none : (d : PieceDownload) → with_more 0 d ≡ d
with_more_none d =
    ap (λ (z : ℤ). let r : PieceDownload = record d { num_outstanding_blocks = z } in r)
      (omega int_laws)

-- One more request leaves one less to send, and moves the next block up by one.
more_lem :
    (d : PieceDownload)
    → has_requests_to_send d ≡ true
    → pos 0 ≤ℤ requested d
    → (pos_part (remaining_requests_to_send (with_more 1 d)) + 1
        ≡ pos_part (remaining_requests_to_send d))
      × (next_block (with_more 1 d) ≡ suc (next_block d))
      × (pos 0 ≤ℤ requested (with_more 1 d))
      × (d.is_finished ≡ false)
unfolding remaining_requests_to_send
more_lem d h c =
    let p = d.num_outstanding_blocks in
    let open_ : d.is_finished ≡ false = ground arith in
    let positive : 1 ≤ pos_part (remaining_requests_to_send d) =
      ground (arith, one_part (remaining_requests_to_send d)) in
    (
      omega (int_parts, positive, one_part p),
      omega (int_parts, c, one_part p),
      omega (int_parts, c, one_part p),
      open_,
    )

pub granted_none : (b : ℕ) (d : PieceDownload) → has_requests_to_send d ≡ false → granted b d ≡ 0
granted_none b d h = elim (Bool-cases d.is_finished) [
  | inl f ↦ rw f
  | inr f ↦ ground (arith, one_part (remaining_requests_to_send d))
]

with_more_add : (j k : ℕ) (d : PieceDownload) → with_more j (with_more k d) ≡ with_more (j + k) d
with_more_add j k d =
    ap (λ (z : ℤ). let r : PieceDownload = record d { num_outstanding_blocks = z } in r)
      (omega int_parts)

abbrev pub passed : PieceDownload → Sending → Sending
passed d s = record s { downloads = d ∷ s.downloads }

-- The first download, and the rest, after `k` requests to it.
abbrev fill_with : ℕ → ℕ → PieceDownload → List PieceDownload → Sending
fill_with k budget d ds =
    let rest : Sending = fill budget ds in
    record {
      downloads = with_more k d ∷ rest.downloads;
      calls = calls_from d.piece_num (next_block d) k ++ rest.calls;
    }

pub fill_skip :
    (b : ℕ) (d : PieceDownload) (ds : List PieceDownload)
    → granted b d ≡ 0
    → fill b (d ∷ ds) ≡ passed d (fill b ds)
unfolding fill
fill_skip b d ds h =
    ap (λ k. fill_with k (b - k) d ds) h
    ∙ ap (λ m. fill_with 0 m d ds) (sub-zero b)
    ∙ ap (λ e. passed e (fill b ds)) (with_more_none d)
  where
    sub-zero : (m : ℕ) → m - 0 ≡ m
    sub-zero m = omega arith

granted_step :
    (b : ℕ) (d : PieceDownload)
    → has_requests_to_send d ≡ true
    → pos 0 ≤ℤ requested d
    → granted (suc b) d ≡ suc (granted b (with_more 1 d))
unfolding remaining_requests_to_send
granted_step b d h c = let (r, _, _, f) = more_lem d h c in rw (f, ← r) (omega arith)

-- The first download that has requests to send takes one unit of the budget first.
fill_take :
    (b : ℕ) (d : PieceDownload) (ds : List PieceDownload)
    → has_requests_to_send d ≡ true
    → pos 0 ≤ℤ requested d
    → fill (suc b) (d ∷ ds)
      ≡ one_more
          (record {
            downloads = with_more 1 d ∷ ds;
            calls = record { piece_num = d.piece_num; block_num = next_block d } ∷ [];
          })
          (fill b (with_more 1 d ∷ ds))
unfolding fill
fill_take b d ds h c =
    let (_, n, _, _) = more_lem d h c in
    let k : ℕ = granted b (with_more 1 d) in
    let one_less : suc b - suc k ≡ b - k = omega arith in
    let next : suc k ≡ k + 1 = omega arith in
    let one_by_one : with_more (suc k) d ≡ with_more k (with_more 1 d) =
      ap (λ m. with_more m d) next ∙ sym (with_more_add k 1 d) in
    let rest : Sending = fill (b - k) ds in
    ap (λ k. fill_with k (suc b - k) d ds) (granted_step b d h c)
    ∙ ap (λ m. fill_with (suc k) m d ds) one_less
    ∙ ap
        (λ e.
          let r : Sending = record {
            downloads = e ∷ rest.downloads;
            calls = calls_from d.piece_num (next_block d) (suc k) ++ rest.calls;
          } in
          r)
        one_by_one
    ∙ ap
        (λ m.
          let r : Sending = record {
            downloads = with_more k (with_more 1 d) ∷ rest.downloads;
            calls =
                record { piece_num = d.piece_num; block_num = next_block d }
                ∷ (calls_from d.piece_num m k ++ rest.calls);
          } in
          r)
        (sym n)

pub fill-none :
    (ds : List PieceDownload)
    → send_next ds ≡ none
    → (b : ℕ) → fill b ds ≡ record { downloads = ds; calls = [] }
unfolding fill send_next remaining_requests_to_send
fill-none [] e b = refl
fill-none (d ∷ ds) e b = elim (Bool-cases (has_requests_to_send d)) [
  | inl h ↦ ground arith
  | inr h ↦ elim (Option-cases (send_next ds)) [
    | inl n ↦ fill_skip b d ds (granted_none b d h) ∙ ap (passed d) (fill-none ds n b)
    | inr (s, m) ↦ ground arith
  ]
]

-- What a round does, when it sends a request.
abbrev pub Took : List PieceDownload → Sending → Type 0
Took ds s =
    ((b : ℕ) → fill (suc b) ds ≡ one_more s (fill b s.downloads))
    × (left_to_send ds ≡ suc (left_to_send s.downloads))
    × (total_outstanding_blocks s.downloads ≡ total_outstanding_blocks ds +ℤ pos 1)
    × Counted s.downloads

first_lem :
    (d : PieceDownload) (ds : List PieceDownload)
    → has_requests_to_send d ≡ true
    → Counted (d ∷ ds)
    → Took (d ∷ ds) (record {
      downloads = with_more 1 d ∷ ds;
      calls = record { piece_num = d.piece_num; block_num = next_block d } ∷ [];
    })
unfolding total_outstanding_blocks remaining_requests_to_send
first_lem d ds h c =
    let open_ : d.is_finished ≡ false = ground arith in
    let (r, _, q, _) = more_lem d h (c.0 open_) in
    (
      λ b. fill_take b d ds h (c.0 open_),
      rw open_ (omega (arith, r)),
      rw open_ (omega int_laws),
      (λ _. q, c.1),
    )

later_lem :
    (d : PieceDownload) (ds : List PieceDownload) (s : Sending)
    → has_requests_to_send d ≡ false
    → Counted (d ∷ ds)
    → Took ds s
    → Took (d ∷ ds) (passed d s)
unfolding total_outstanding_blocks
later_lem d ds s h c (f, l, t, k) = (
  λ b.
      fill_skip (suc b) d ds (granted_none (suc b) d h)
      ∙ ap (passed d) (f b)
      ∙ sym (ap (one_more (passed d s)) (fill_skip b d s.downloads (granted_none b d h))),
  ground (arith, l),
  elim (Bool-cases d.is_finished) [ inl e ↦ rw e t | inr e ↦ rw (e, t) (omega int_laws) ],
  (c.0, k),
)

pub send_next_lem :
    (ds : List PieceDownload) (s : Sending) → send_next ds ≡ some s → Counted ds → Took ds s
unfolding send_next remaining_requests_to_send
send_next_lem [] s e c = absurd (ground arith)
send_next_lem (d ∷ ds) s e c = elim (Bool-cases (has_requests_to_send d)) [
  | inl h ↦
      let first : Sending = record {
        downloads = with_more 1 d ∷ ds;
        calls = record { piece_num = d.piece_num; block_num = next_block d } ∷ [];
      } in
      let same : first ≡ s = ground arith in subst (Took (d ∷ ds)) same (first_lem d ds h c)
  | inr h ↦ elim (Option-cases (send_next ds)) [
    | inl n ↦ absurd (ground arith)
    | inr (t, m) ↦
        let same : passed d t ≡ s = ground arith in
        subst (Took (d ∷ ds)) same (later_lem d ds t h c (send_next_lem ds t m c.1))
  ]
]
