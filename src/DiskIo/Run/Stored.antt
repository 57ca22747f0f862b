-- ===== src/DiskIo/Run/Stored.antt =====
-- What the messages to the controller promise: a piece is reported when its bytes are in the files, and they stay.
pub mod Turns
pub mod Steps
pub mod Orders
use tulva.Prelude.{
  ◌≢◌, ◌⊎◌, ℕ, zero, suc, ◌+◌, ◌-◌, ◌*◌, ◌≤◌, ◌<◌, ◌≡◌, refl, ap, sym, ◌∙◌, subst, List, [], ◌∷◌,
  ◌++◌, Bool, true, false, ◌&&◌, Option, none, some, if◌then◌else◌, ltb, leb, ◌==◌, nat_eq, length,
  get_elem?, get_elem?-set_self, get_elem?-set_ne, lt-get_elem?, get_or, set, All, All-append,
  All-map, Outcome, done, stopped, ◌>>=◌, Returns, arith, Bool-cases, inl, inr,
}
use mathlib.Core.Option.{some-injective}
use tulva.Pieces.{Piece, ReceivedPiece}
use tulva.Torrent.{Info}
use tulva.DiskIo.Files.{inside}
use tulva.DiskIo.Write.Volume.{byte_of, IsOpen, InVolume}
use tulva.DiskIo.Run.{Stage, to_write, to_report, to_count, returned, Writer, Reader, DiskIo}

-- The call of `writePiece` is over.
abbrev pub has_written : Stage → Bool
has_written to_write = false
has_written to_report = true
has_written to_count = true
has_written returned = true

-- The volume has the bytes of the piece at its place.
abbrev pub InPlace : Info → List (List ℕ) → Piece → Type 0
InPlace info files piece =
    (k : ℕ)
    → InVolume info.files k
    → inside (piece.index * info.piece_length) (length piece.bytes) k ≡ true
    → byte_of info.files files k ≡ get_or piece.bytes (k - piece.index * info.piece_length) 0

-- Each piece was sent once, and none is longer than the piece length.
pub record SentOnce (info : Info) (sent : List Piece) : Type 0 where
  pub apart :
      (i j : ℕ) (p q : Piece)
      → get_elem? sent i ≡ some p
      → get_elem? sent j ≡ some q
      → i ≢ j
      → p.index ≢ q.index
  pub sized : (i : ℕ) (p : Piece) → get_elem? sent i ≡ some p → length p.bytes ≤ info.piece_length

-- The same of the pieces that the goroutines have.
pub record Distinct (info : Info) (writers : List Writer) : Type 0 where
  pub apart :
      (i j : ℕ) (v w : Writer)
      → get_elem? writers i ≡ some v
      → get_elem? writers j ≡ some w
      → i ≢ j
      → v.piece.index ≢ w.piece.index
  pub sized :
      (i : ℕ) (w : Writer) → get_elem? writers i ≡ some w → length w.piece.bytes ≤ info.piece_length

-- The message of a goroutine that has written.
abbrev pub Reports : List Writer → ReceivedPiece → Type 0
Reports writers m =
    (i : ℕ) × (w : Writer) × (get_elem? writers i ≡ some w)
    × (has_written w.stage ≡ true)
    × (m ≡ record { piece_num = w.piece.index; peer_name = w.piece.peer_name })

pub record Stored (info : Info) (d : DiskIo) : Type 0 where
  pub in_place :
      (i : ℕ) (w : Writer)
      → get_elem? d.writers i ≡ some w
      → has_written w.stage ≡ true
      → InPlace info d.files w.piece
  pub reported : All (Reports d.writers) d.received_piece

-- Goroutines keep their pieces, and what is written stays written.
abbrev pub Keeps : List Writer → List Writer → Type 0
Keeps ws ws' =
    (i : ℕ) (w : Writer)
    → get_elem? ws i ≡ some w
    → (w' : Writer) × (get_elem? ws' i ≡ some w')
      × (w'.piece ≡ w.piece)
      × (has_written w.stage ≡ true → has_written w'.stage ≡ true)

pub Keeps-Distinct :
    (info : Info) (ws ws' : List Writer) → Keeps ws ws' → Distinct info ws' → Distinct info ws
Keeps-Distinct info ws ws' keeps d = record {
  apart = λ i j v w e f ne same.
      let (v', e', p, _) = keeps i v e in
      let (w', f', q, _) = keeps j w f in
      d.apart i j v' w' e' f' ne (ap Piece.index p ∙ same ∙ sym (ap Piece.index q));
  sized = λ i w e.
      let (w', e', p, _) = keeps i w e in
      subst (λ piece. length piece.bytes ≤ info.piece_length) p (d.sized i w' e');
}

pub Keeps-Reports :
    (ws ws' : List Writer) → Keeps ws ws' → (m : ReceivedPiece) → Reports ws m → Reports ws' m
Keeps-Reports ws ws' keeps m (i, w, e, h, named) =
    let (w', e', p, h') = keeps i w e in
    (
      i,
      w',
      e',
      h' h,
      subst (λ piece. m ≡ record { piece_num = piece.index; peer_name = piece.peer_name }) (sym p)
          named,
    )

pub Keeps-set :
    (ws : List Writer) (i : ℕ) (w w' : Writer)
    → get_elem? ws i ≡ some w
    → w'.piece ≡ w.piece
    → (has_written w.stage ≡ true → has_written w'.stage ≡ true)
    → Keeps ws (set ws i w')
Keeps-set ws i w w' e p h j v f = elim (Bool-cases (i == j)) [
  | inl same ↦
      let at : i ≡ j = ground arith in
      let it : v ≡ w = some-injective _ _ (sym f ∙ ap (get_elem? ws) (sym at) ∙ e) in
      (
        w',
        ap (get_elem? (set ws i w')) (sym at) ∙ get_elem?-set_self ws i w' (lt-get_elem? ws i e),
        p ∙ ap Writer.piece (sym it),
        λ written. h (ap (λ u. has_written u.stage) (sym it) ∙ written),
      )
  | inr other ↦ (v, get_elem?-set_ne ws i j w' (ground arith) ∙ f, refl, λ written. written)
]

pub get_elem?-snoc :
    (ws : List Writer) (w v : Writer) (i : ℕ)
    → get_elem? (ws ++ (w ∷ [])) i ≡ some v
    → (get_elem? ws i ≡ some v) ⊎ (v ≡ w)
get_elem?-snoc [] w v zero e = inr (some-injective _ _ (sym e))
get_elem?-snoc [] w v (suc i) e = absurd (ground arith)
get_elem?-snoc (u ∷ ws) w v zero e = inl e
get_elem?-snoc (u ∷ ws) w v (suc i) e = get_elem?-snoc ws w v i e

-- The pieces that the goroutines have.
abbrev pub pieces_of : List Writer → List Piece
pieces_of [] = []
pieces_of (w ∷ ws) = w.piece ∷ pieces_of ws

pub get_elem?-pieces_of :
    (ws : List Writer) (i : ℕ) (w : Writer)
    → get_elem? ws i ≡ some w
    → get_elem? (pieces_of ws) i ≡ some w.piece
get_elem?-pieces_of [] i w e = absurd (ground arith)
get_elem?-pieces_of (v ∷ ws) zero w e = ap (λ u. some u.piece) (some-injective _ _ e)
get_elem?-pieces_of (v ∷ ws) (suc i) w e = get_elem?-pieces_of ws i w e

pub pieces_of-all : (ws : List Writer) → pieces_of ws ≡ pieces_of ws ++ []
pieces_of-all [] = refl
pieces_of-all (v ∷ ws) = ap (λ ps. v.piece ∷ ps) (pieces_of-all ws)

pub pieces_of-set :
    (ws : List Writer) (i : ℕ) (w w' : Writer)
    → get_elem? ws i ≡ some w
    → w'.piece ≡ w.piece
    → pieces_of (set ws i w') ≡ pieces_of ws ++ []
pieces_of-set [] i w w' e p = absurd (ground arith)
pieces_of-set (v ∷ ws) zero w w' e p =
    let same : w'.piece ≡ v.piece = p ∙ sym (ap Writer.piece (some-injective _ _ e)) in
    ap (λ q. q ∷ pieces_of ws) same ∙ ap (λ ps. v.piece ∷ ps) (pieces_of-all ws)
pieces_of-set (v ∷ ws) (suc i) w w' e p = ap (λ ps. v.piece ∷ ps) (pieces_of-set ws i w w' e p)

pub pieces_of-snoc :
    (ws : List Writer) (w : Writer) → pieces_of (ws ++ (w ∷ [])) ≡ pieces_of ws ++ (w.piece ∷ [])
pieces_of-snoc [] w = refl
pieces_of-snoc (v ∷ ws) w = ap (λ ps. v.piece ∷ ps) (pieces_of-snoc ws w)

pub SentOnce-Distinct :
    (info : Info) (sent : List Piece) (ws : List Writer)
    → pieces_of ws ≡ sent
    → SentOnce info sent
    → Distinct info ws
SentOnce-Distinct info sent ws e s = record {
  apart = λ i j v w f g. s.apart i j v.piece w.piece (sent_at i v f) (sent_at j w g);
  sized = λ i w f. s.sized i w.piece (sent_at i w f);
}
  where
    sent_at : (i : ℕ) (w : Writer) → get_elem? ws i ≡ some w → get_elem? sent i ≡ some w.piece
    sent_at i w f = ap (λ ps. get_elem? ps i) (sym e) ∙ get_elem?-pieces_of ws i w f
