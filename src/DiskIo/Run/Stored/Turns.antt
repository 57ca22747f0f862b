-- ===== src/DiskIo/Run/Stored/Turns.antt =====
-- The turns of the goroutines, one by one, against the promise.
use tulva.Prelude.{
  ◌≢◌, ◌⊎◌, ℕ, ◌*◌, ◌≤◌, ◌≡◌, refl, ap, sym, ◌∙◌, subst, List, true, some, ◌==◌, nat_eq, length,
  get_elem?, get_elem?-set_self, get_elem?-set_ne, lt-get_elem?, set, All, All-map, arith,
  Bool-cases, inl, inr,
}
use mathlib.Core.Option.{some-injective}
use tulva.Pieces.{Piece}
use tulva.Torrent.{Info}
use tulva.DiskIo.Write.Volume.{BytesWritten}
use tulva.DiskIo.Write.Order.{apart_either}
use tulva.DiskIo.Run.{Stage, to_write, to_report, Writer, DiskIo}
use tulva.DiskIo.Run.Stored.{
  has_written, InPlace, Distinct, Reports, Stored, Keeps-Reports, Keeps-set,
}

module _ (info : Info) where
  -- What is written later does not touch a piece that is in place.
  InPlace-kept :
      (files files' : List (List ℕ)) (p q : Piece)
      → p.index ≢ q.index
      → length p.bytes ≤ info.piece_length
      → length q.bytes ≤ info.piece_length
      → BytesWritten info.files (q.index * info.piece_length) q.bytes files files'
      → InPlace info files p
      → InPlace info files' p
  InPlace-kept files files' p q ne lp lq w h k v here =
      let apart =
        apart_either p.index q.index info.piece_length (length p.bytes) (length q.bytes) k ne lp
          lq in
      ground (arith, w.1 k v, h k v here, apart)

  InPlace-new :
      (files files' : List (List ℕ)) (p : Piece)
      → BytesWritten info.files (p.index * info.piece_length) p.bytes files files'
      → InPlace info files' p
  InPlace-new files files' p w k v here = ground (arith, w.1 k v)

  -- The goroutine at an index goes on with its piece, and the others stay as they are.
  at_set :
      (ws : List Writer) (i j : ℕ) (w w' v : Writer)
      → get_elem? ws i ≡ some w
      → get_elem? (set ws i w') j ≡ some v
      → ((i ≡ j) × (v ≡ w')) ⊎ ((i ≢ j) × (get_elem? ws j ≡ some v))
  at_set ws i j w w' v e f = elim (Bool-cases (i == j)) [
    | inl same ↦
        let at : i ≡ j = ground arith in
        inl (
          at,
          some-injective _ _ (
              sym f
              ∙ ap (get_elem? (set ws i w')) (sym at)
              ∙ get_elem?-set_self ws i w' (lt-get_elem? ws i e)),
        )
    | inr other ↦ inr (ground arith, sym (get_elem?-set_ne ws i j w' (ground arith)) ∙ f)
  ]

  pub written-Stored :
      (d : DiskIo) (i : ℕ) (p : Piece) (files : List (List ℕ))
      → Stored info d
      → Distinct info d.writers
      → get_elem? d.writers i ≡ some (record { piece = p; stage = to_write })
      → BytesWritten info.files (p.index * info.piece_length) p.bytes d.files files
      → Stored info (record d {
        files = files;
        writers = set d.writers i (record { piece = p; stage = to_report });
      })
  written-Stored d i p files s distinct e w =
      let new : Writer = record { piece = p; stage = to_report } in
      record {
        in_place = λ j v f h. elim (at_set d.writers i j _ new v e f) [
          | inl (_, it) ↦
              subst (λ u. InPlace info files u.piece) (sym it) (InPlace-new d.files files p w)
          | inr (ne, old) ↦
              InPlace-kept d.files files v.piece p
                (λ same. distinct.apart i j _ v e old ne (sym same)) (distinct.sized j v old)
                (distinct.sized i _ e) w (s.in_place j v old h)
        ];
        reported =
            All-map (Reports d.writers) (Reports (set d.writers i new))
              (Keeps-Reports d.writers (set d.writers i new)
                (Keeps-set d.writers i _ new e refl (λ _. refl)))
              d.received_piece s.reported;
      }

  -- The turns after that change no file.
  pub moved-InPlace :
      (d : DiskIo) (i : ℕ) (p : Piece) (old new : Stage)
      → Stored info d
      → get_elem? d.writers i ≡ some (record { piece = p; stage = old })
      → has_written old ≡ true
      → (j : ℕ) (v : Writer)
      → get_elem? (set d.writers i (record { piece = p; stage = new })) j ≡ some v
      → has_written v.stage ≡ true
      → InPlace info d.files v.piece
  moved-InPlace d i p old new s e h j v f written =
      elim (at_set d.writers i j _ (record { piece = p; stage = new }) v e f) [
        | inl (_, it) ↦ subst (λ u. InPlace info d.files u.piece) (sym it) (s.in_place i _ e h)
        | inr (_, other) ↦ s.in_place j v other written
      ]

  pub moved-reported :
      (d : DiskIo) (i : ℕ) (p : Piece) (old new : Stage)
      → Stored info d
      → get_elem? d.writers i ≡ some (record { piece = p; stage = old })
      → has_written new ≡ true
      → All (Reports (set d.writers i (record { piece = p; stage = new }))) d.received_piece
  moved-reported d i p old new s e h =
      let ws : List Writer = set d.writers i (record { piece = p; stage = new }) in
      All-map (Reports d.writers) (Reports ws)
        (Keeps-Reports d.writers ws (Keeps-set d.writers i _ _ e refl (λ _. h))) d.received_piece
        s.reported
