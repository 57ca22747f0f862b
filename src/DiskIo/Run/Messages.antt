-- ===== src/DiskIo/Run/Messages.antt =====
-- What the controller and the statistics have taken from the goroutines of `DiskIO.Run`: the message of each goroutine
-- that is past it, once.
use tulva.Prelude.{
  ℕ, ◌≡◌, refl, ap, sym, ◌∙◌, subst, List, [], ◌∷◌, ◌++◌, Bool, true, false, some, none, Option,
  if◌then◌else◌, length, get_elem?, set, sum_map, sum_map-append, sum_map-set, done, done-injective,
  Option-cases, Outcome-cases, arith, Bool-cases, inl, inr,
}
use tulva.Pieces.{Piece, BlockInfo, BlockResponse, ReceivedPiece}
use tulva.Torrent.{Info}
use tulva.DiskIo.Write.{write_piece}
use tulva.DiskIo.Read.{request_block}
use tulva.DiskIo.Run.{
  Stage, to_write, to_report, to_count, returned, Writer, Reader, DiskIo, Event, write_piece_sent,
  block_request_sent, quit_closed, writer_turn, report_taken, count_taken, reader_turn, write_turn,
  report_turn, count_turn, read_turn, step, sent_piece, Reached, start, after,
}
use tulva.DiskIo.Run.Stored.{pieces_of, pieces_of-all, pieces_of-set, pieces_of-snoc}

abbrev pub is_reported : Stage → Bool
is_reported to_write = false
is_reported to_report = false
is_reported to_count = true
is_reported returned = true

abbrev pub is_counted : Stage → Bool
is_counted to_write = false
is_counted to_report = false
is_counted to_count = false
is_counted returned = true

-- What a goroutine adds to a sum over the messages to the controller, and to one over those to the statistics.
abbrev pub report_share : (ReceivedPiece → ℕ) → Writer → ℕ
report_share g w =
    if is_reported w.stage
    then g (record { piece_num = w.piece.index; peer_name = w.piece.peer_name })
    else 0

abbrev pub count_share : (ℕ → ℕ) → Writer → ℕ
count_share g w = if is_counted w.stage then g (length w.piece.bytes) else 0

-- The messages that were taken are those of the goroutines that are past them, each as often as there are such
-- goroutines: every sum over the ones is the sum over the others.
abbrev pub Delivered : DiskIo → Type 0
Delivered d =
    ((g : ReceivedPiece → ℕ) → sum_map g d.received_piece ≡ sum_map (report_share g) d.writers)
    × ((g : ℕ → ℕ) → sum_map g d.stats ≡ sum_map (count_share g) d.writers)

module _ (info : Info) where
  -- What a step from `d` that brings the pieces of a list does.
  Moved : List Piece → DiskIo → DiskIo → Type 0
  Moved sent d d' =
      (pieces_of d'.writers ≡ pieces_of d.writers ++ sent) × (Delivered d → Delivered d')

  write_turn-Moved :
      (d d' : DiskIo) (i : ℕ) (p : Piece) (stage : Stage)
      → get_elem? d.writers i ≡ some (record { piece = p; stage = stage })
      → write_turn info d i p stage ≡ done d'
      → Moved [] d d'
  unfolding write_turn Moved
  write_turn-Moved d d' i p to_write e h =
      let new : Writer = record { piece = p; stage = to_report } in
      elim (Outcome-cases (write_piece info d.files p)
        (λ files. done (record d { files = files; writers = set d.writers i new }))) [
          | inl (files, f) ↦
              let next : DiskIo = record d { files = files; writers = set d.writers i new } in
              let it : next ≡ d' = done-injective (sym (rw f refl) ∙ h) in
              subst (Moved [] d) it (
                pieces_of-set d.writers i _ new e refl,
                λ (r, c). (
                  λ g. omega (arith, r g, sum_map-set (report_share g) d.writers i new e),
                  λ g. omega (arith, c g, sum_map-set (count_share g) d.writers i new e),
                ),
              )
          | inr failed ↦ absurd (failed d' h)
        ]
  write_turn-Moved d d' i p to_report e h = absurd (ground arith)
  write_turn-Moved d d' i p to_count e h = absurd (ground arith)
  write_turn-Moved d d' i p returned e h = absurd (ground arith)

  report_turn-Moved :
      (d d' : DiskIo) (i : ℕ) (p : Piece) (stage : Stage)
      → get_elem? d.writers i ≡ some (record { piece = p; stage = stage })
      → report_turn d i p stage ≡ done d'
      → Moved [] d d'
  unfolding report_turn Moved
  report_turn-Moved d d' i p to_write e h = absurd (ground arith)
  report_turn-Moved d d' i p to_report e h =
      let new : Writer = record { piece = p; stage = to_count } in
      let m : ReceivedPiece = record { piece_num = p.index; peer_name = p.peer_name } in
      subst (Moved [] d) (done-injective h) (
        pieces_of-set d.writers i _ new e refl,
        λ (r, c). (
          λ g. omega (
            arith,
            r g,
            sum_map-set (report_share g) d.writers i new e,
            sum_map-append g d.received_piece (m ∷ []),
          ),
          λ g. omega (arith, c g, sum_map-set (count_share g) d.writers i new e),
        ),
      )
  report_turn-Moved d d' i p to_count e h = absurd (ground arith)
  report_turn-Moved d d' i p returned e h = absurd (ground arith)

  count_turn-Moved :
      (d d' : DiskIo) (i : ℕ) (p : Piece) (stage : Stage)
      → get_elem? d.writers i ≡ some (record { piece = p; stage = stage })
      → count_turn d i p stage ≡ done d'
      → Moved [] d d'
  unfolding count_turn Moved
  count_turn-Moved d d' i p to_write e h = absurd (ground arith)
  count_turn-Moved d d' i p to_report e h = absurd (ground arith)
  count_turn-Moved d d' i p to_count e h =
      let new : Writer = record { piece = p; stage = returned } in
      subst (Moved [] d) (done-injective h) (
        pieces_of-set d.writers i _ new e refl,
        λ (r, c). (
          λ g. omega (arith, r g, sum_map-set (report_share g) d.writers i new e),
          λ g. omega (
            arith,
            c g,
            sum_map-set (count_share g) d.writers i new e,
            sum_map-append g d.stats (length p.bytes ∷ []),
          ),
        ),
      )
  count_turn-Moved d d' i p returned e h = absurd (ground arith)

  -- Neither a goroutine of a piece nor a message of one.
  same-Moved :
      (d : DiskIo) (running : Bool) (readers : List Reader)
      → Moved [] d (record d { running = running; readers = readers })
  unfolding Moved
  same-Moved d running readers = (pieces_of-all d.writers, λ (r, c). (r, c))

  sent-Moved :
      (d : DiskIo) (p : Piece)
      → Moved
          (p ∷ [])
          d
          (record d { writers = d.writers ++ (record { piece = p; stage = to_write } ∷ []) })
  unfolding Moved
  sent-Moved d p =
      let new : Writer = record { piece = p; stage = to_write } in
      (
        pieces_of-snoc d.writers new,
        λ (r, c). (
          λ g. omega (arith, r g, sum_map-append (report_share g) d.writers (new ∷ [])),
          λ g. omega (arith, c g, sum_map-append (count_share g) d.writers (new ∷ [])),
        ),
      )

  read_turn-Moved :
      (d d' : DiskIo) (i : ℕ) (block : BlockInfo) (response : Option BlockResponse)
      → read_turn info d i block response ≡ done d'
      → Moved [] d d'
  unfolding read_turn
  read_turn-Moved d d' i block none h =
      elim (Outcome-cases (request_block info d.files block) (λ r.
        done (record d {
          readers = set d.readers i (record { request = block; response = some r });
        }))) [
          | inl (r, e) ↦ subst (Moved [] d) (done-injective (sym (rw e refl) ∙ h)) (
              same-Moved d d.running
                (set d.readers i (record { request = block; response = some r })))
          | inr failed ↦ absurd (failed d' h)
        ]
  read_turn-Moved d d' i block (some response) h = absurd (ground arith)

  step-Moved :
      (d d' : DiskIo) (event : Event) → step info d event ≡ done d' → Moved (sent_piece event) d d'
  unfolding step
  step-Moved d d' (write_piece_sent p) h = elim (Bool-cases d.running) [
    | inl runs ↦ subst (Moved (p ∷ []) d) (done-injective (sym (rw runs refl) ∙ h)) (sent-Moved d p)
    | inr ended ↦ absurd (ground arith)
  ]
  step-Moved d d' (block_request_sent block) h = elim (Bool-cases d.running) [
    | inl runs ↦
        subst (Moved [] d) (done-injective (sym (rw runs refl) ∙ h))
          (same-Moved d d.running (d.readers ++ (record { request = block; response = none } ∷ [])))
    | inr ended ↦ absurd (ground arith)
  ]
  step-Moved d d' quit_closed h =
      subst (Moved [] d) (done-injective h) (same-Moved d false d.readers)
  step-Moved d d' (writer_turn i) h = elim (Option-cases (get_elem? d.writers i)) [
    | inl missing ↦ absurd (ground arith)
    | inr (w, found) ↦
        write_turn-Moved d d' i w.piece w.stage found (sym (rw (found, step) refl) ∙ h)
  ]
  step-Moved d d' (report_taken i) h = elim (Option-cases (get_elem? d.writers i)) [
    | inl missing ↦ absurd (ground arith)
    | inr (w, found) ↦
        report_turn-Moved d d' i w.piece w.stage found (sym (rw (found, step) refl) ∙ h)
  ]
  step-Moved d d' (count_taken i) h = elim (Option-cases (get_elem? d.writers i)) [
    | inl missing ↦ absurd (ground arith)
    | inr (w, found) ↦
        count_turn-Moved d d' i w.piece w.stage found (sym (rw (found, step) refl) ∙ h)
  ]
  step-Moved d d' (reader_turn i) h = elim (Option-cases (get_elem? d.readers i)) [
    | inl missing ↦ absurd (ground arith)
    | inr (r, found) ↦ read_turn-Moved d d' i r.request r.response (sym (rw (found, step) refl) ∙ h)
  ]

-- After any events in any order, there is one goroutine for each piece that was sent, in that order; the messages that
-- the controller has taken are those of the goroutines that are past their first send, each once, and the lengths that
-- the statistics have taken are those of the goroutines that have returned, each once.
pub messages-Delivered :
    (info : Info) (files : List (List ℕ)) (sent : List Piece) (d : DiskIo)
    → Reached info files sent d
    → (pieces_of d.writers ≡ sent) × Delivered d
unfolding Moved
messages-Delivered info files _ _ start = (refl, (λ g. refl, λ g. refl))
messages-Delivered info files _ d' (after sent d _ event before e) =
    let (pieces, delivered) = messages-Delivered info files sent d before in
    let (more, next) = step-Moved info d d' event e in
    (more ∙ ap (λ ps. ps ++ sent_piece event) pieces, next delivered)
