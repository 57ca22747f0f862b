-- ===== src/DiskIo/Run/Stored/Steps.antt =====
-- The steps of `Run` and of the goroutines keep the promise.
use tulva.Prelude.{
  ℕ, ◌≡◌, refl, ap, sym, ◌∙◌, subst, List, [], ◌∷◌, ◌++◌, Bool, false, Option, none, some,
  get_elem?, get_elem?-append, get_elem?-set_self, lt-get_elem?, set, All-append, All-map, done,
  done-injective, Option-cases, Outcome-cases, arith, Bool-cases, inl, inr,
}
use tulva.Pieces.{Piece, BlockInfo, BlockResponse}
use tulva.Torrent.{Info}
use tulva.DiskIo.Read.{request_block}
use tulva.DiskIo.Write.Volume.{IsOpen, write_piece-BytesWritten}
use tulva.DiskIo.Run.{
  Stage, to_write, to_report, to_count, returned, Writer, Reader, DiskIo, Event, write_piece_sent,
  block_request_sent, quit_closed, writer_turn, report_taken, count_taken, reader_turn, write_turn,
  report_turn, count_turn, read_turn, step,
}
use tulva.DiskIo.Run.Stored.{
  has_written, Distinct, Reports, Stored, Keeps, Keeps-Reports, Keeps-set, get_elem?-snoc,
}
use tulva.DiskIo.Run.Stored.Turns.{written-Stored, moved-InPlace, moved-reported}

module _ (info : Info) where
  -- What a step from `d` has to show of the state after it.
  abbrev pub Next : DiskIo → DiskIo → Type 0
  Next d d' =
      Keeps d.writers d'.writers
      × IsOpen info.files d'.files
      × (Distinct info d.writers → Stored info d → Stored info d')

  write_turn-Next :
      (d d' : DiskIo) (i : ℕ) (p : Piece) (stage : Stage)
      → IsOpen info.files d.files
      → get_elem? d.writers i ≡ some (record { piece = p; stage = stage })
      → write_turn info d i p stage ≡ done d'
      → Next d d'
  unfolding write_turn
  write_turn-Next d d' i p to_write o e h =
      let (files, e', w) = write_piece-BytesWritten info d.files p o in
      let next : DiskIo = record d {
        files = files;
        writers = set d.writers i (record { piece = p; stage = to_report });
      } in
      let it : next ≡ d' = done-injective (sym (rw e' refl) ∙ h) in
      subst (Next d) it (
        Keeps-set d.writers i _ _ e refl (λ _. refl),
        w.0,
        λ distinct s. written-Stored info d i p files s distinct e w,
      )
  write_turn-Next d d' i p to_report o e h = absurd (ground arith)
  write_turn-Next d d' i p to_count o e h = absurd (ground arith)
  write_turn-Next d d' i p returned o e h = absurd (ground arith)

  report_turn-Next :
      (d d' : DiskIo) (i : ℕ) (p : Piece) (stage : Stage)
      → IsOpen info.files d.files
      → get_elem? d.writers i ≡ some (record { piece = p; stage = stage })
      → report_turn d i p stage ≡ done d'
      → Next d d'
  unfolding report_turn
  report_turn-Next d d' i p to_write o e h = absurd (ground arith)
  report_turn-Next d d' i p to_report o e h = subst (Next d) (done-injective h) (
    Keeps-set d.writers i _ _ e refl (λ _. refl),
    o,
    λ _ s. record {
      in_place = moved-InPlace info d i p to_report to_count s e refl;
      reported =
          All-append _ d.received_piece _ (moved-reported info d i p to_report to_count s e refl) (
            (
              i,
              record { piece = p; stage = to_count },
              get_elem?-set_self d.writers i _ (lt-get_elem? d.writers i e),
              refl,
              refl,
            ),
            tt,
          );
    },
  )
  report_turn-Next d d' i p to_count o e h = absurd (ground arith)
  report_turn-Next d d' i p returned o e h = absurd (ground arith)

  count_turn-Next :
      (d d' : DiskIo) (i : ℕ) (p : Piece) (stage : Stage)
      → IsOpen info.files d.files
      → get_elem? d.writers i ≡ some (record { piece = p; stage = stage })
      → count_turn d i p stage ≡ done d'
      → Next d d'
  unfolding count_turn
  count_turn-Next d d' i p to_write o e h = absurd (ground arith)
  count_turn-Next d d' i p to_report o e h = absurd (ground arith)
  count_turn-Next d d' i p to_count o e h = subst (Next d) (done-injective h) (
    Keeps-set d.writers i _ _ e refl (λ _. refl),
    o,
    λ _ s. record {
      in_place = moved-InPlace info d i p to_count returned s e refl;
      reported = moved-reported info d i p to_count returned s e refl;
    },
  )
  count_turn-Next d d' i p returned o e h = absurd (ground arith)

  Keeps-refl : (ws : List Writer) → Keeps ws ws
  Keeps-refl ws i w e = (w, e, refl, λ h. h)

  -- The steps that add no piece.
  same-Next :
      (d : DiskIo) (running : Bool) (readers : List Reader) (stats : List ℕ)
      → IsOpen info.files d.files
      → Next d (record d { running = running; readers = readers; stats = stats })
  same-Next d running readers stats o =
      (Keeps-refl d.writers, o, λ _ s. record { in_place = s.in_place; reported = s.reported })

  sent-Next :
      (d : DiskIo) (p : Piece)
      → IsOpen info.files d.files
      → Next d (record d { writers = d.writers ++ (record { piece = p; stage = to_write } ∷ []) })
  sent-Next d p o =
      let new : Writer = record { piece = p; stage = to_write } in
      let keeps : Keeps d.writers (d.writers ++ (new ∷ [])) =
        λ i w e. (w, get_elem?-append d.writers (new ∷ []) i e, refl, λ h. h) in
      (
        keeps,
        o,
        λ _ s. record {
          in_place = λ i w e h. elim (get_elem?-snoc d.writers new w i e) [
            | inl old ↦ s.in_place i w old h
            | inr it ↦ absurd (ground (arith, sym h ∙ ap (λ u. has_written u.stage) it))
          ];
          reported =
              All-map (Reports d.writers) _ (Keeps-Reports d.writers _ keeps) d.received_piece
                s.reported;
        },
      )

  read_turn-Next :
      (d d' : DiskIo) (i : ℕ) (block : BlockInfo) (response : Option BlockResponse)
      → IsOpen info.files d.files
      → read_turn info d i block response ≡ done d'
      → Next d d'
  unfolding read_turn
  read_turn-Next d d' i block none o h =
      elim (Outcome-cases (request_block info d.files block) (λ r.
        done (record d {
          readers = set d.readers i (record { request = block; response = some r });
        }))) [
          | inl (r, e) ↦ subst (Next d) (done-injective (sym (rw e refl) ∙ h)) (
              same-Next d d.running
                (set d.readers i (record { request = block; response = some r })) d.stats o)
          | inr failed ↦ absurd (failed d' h)
        ]
  read_turn-Next d d' i block (some response) o h = absurd (ground arith)

  pub step-Next :
      (d d' : DiskIo) (event : Event)
      → IsOpen info.files d.files
      → step info d event ≡ done d'
      → Next d d'
  unfolding step
  step-Next d d' (write_piece_sent p) o h = elim (Bool-cases d.running) [
    | inl runs ↦ subst (Next d) (done-injective (sym (rw runs refl) ∙ h)) (sent-Next d p o)
    | inr ended ↦ absurd (ground arith)
  ]
  step-Next d d' (block_request_sent block) o h = elim (Bool-cases d.running) [
    | inl runs ↦ subst (Next d) (done-injective (sym (rw runs refl) ∙ h)) (
        same-Next d d.running (d.readers ++ (record { request = block; response = none } ∷ []))
          d.stats o)
    | inr ended ↦ absurd (ground arith)
  ]
  step-Next d d' quit_closed o h =
      subst (Next d) (done-injective h) (same-Next d false d.readers d.stats o)
  step-Next d d' (writer_turn i) o h = elim (Option-cases (get_elem? d.writers i)) [
    | inl missing ↦ absurd (ground arith)
    | inr (w, found) ↦
        write_turn-Next d d' i w.piece w.stage o found (sym (rw (found, step) refl) ∙ h)
  ]
  step-Next d d' (report_taken i) o h = elim (Option-cases (get_elem? d.writers i)) [
    | inl missing ↦ absurd (ground arith)
    | inr (w, found) ↦
        report_turn-Next d d' i w.piece w.stage o found (sym (rw (found, step) refl) ∙ h)
  ]
  step-Next d d' (count_taken i) o h = elim (Option-cases (get_elem? d.writers i)) [
    | inl missing ↦ absurd (ground arith)
    | inr (w, found) ↦
        count_turn-Next d d' i w.piece w.stage o found (sym (rw (found, step) refl) ∙ h)
  ]
  step-Next d d' (reader_turn i) o h = elim (Option-cases (get_elem? d.readers i)) [
    | inl missing ↦ absurd (ground arith)
    | inr (r, found) ↦
        read_turn-Next d d' i r.request r.response o (sym (rw (found, step) refl) ∙ h)
  ]
