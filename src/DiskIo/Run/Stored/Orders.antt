-- ===== src/DiskIo/Run/Stored/Orders.antt =====
-- Every order of the events keeps the promise.
use tulva.Prelude.{ℕ, ◌≡◌, ap, sym, ◌∙◌, List, some, get_elem?, All, All-map, arith}
use tulva.Pieces.{Piece, ReceivedPiece}
use tulva.Torrent.{Info}
use tulva.DiskIo.Write.Volume.{IsOpen}
use tulva.DiskIo.Run.{DiskIo, Reached, start, after}
use tulva.DiskIo.Run.Messages.{messages-Delivered}
use tulva.DiskIo.Run.Stored.{
  InPlace, Distinct, Reports, Stored, Keeps-Distinct, SentOnce, SentOnce-Distinct, pieces_of,
  get_elem?-pieces_of,
}
use tulva.DiskIo.Run.Stored.Steps.{step-Next}

module _ (info : Info) where
  -- The promise, under the condition on the pieces, which holds of an earlier state when it holds of a later one.
  Reached-Promise :
      (files : List (List ℕ)) (sent : List Piece) (d : DiskIo)
      → IsOpen info.files files
      → Reached info files sent d
      → IsOpen info.files d.files × (Distinct info d.writers → Stored info d)
  Reached-Promise files _ _ o start =
      (o, λ _. record { in_place = λ i w e h. absurd (ground arith); reported = tt })
  Reached-Promise files _ d' o (after sent d _ event before e) =
      let (o1, stored) = Reached-Promise files sent d o before in
      let (keeps, o2, next) = step-Next info d d' event o1 e in
      (
        o2,
        λ distinct.
            let earlier : Distinct info d.writers =
              Keeps-Distinct info d.writers d'.writers keeps distinct in
            next earlier (stored earlier),
      )

  -- The message names one of the pieces that were sent and the peer that it came from, and the piece is in place.
  abbrev pub Truthful : List Piece → DiskIo → ReceivedPiece → Type 0
  Truthful sent d m =
      (i : ℕ) × (p : Piece) × (get_elem? sent i ≡ some p)
      × (m ≡ record { piece_num = p.index; peer_name = p.peer_name })
      × InPlace info d.files p

-- After any events in any order, if the files were open at the start, each piece was sent once and none is longer than
-- the piece length, every message that the controller has taken names one of the pieces that were sent and its peer, and
-- the bytes of that piece are at its place in the volume.
pub received_piece-InPlace :
    (info : Info) (files : List (List ℕ)) (sent : List Piece) (d : DiskIo)
    → IsOpen info.files files
    → Reached info files sent d
    → SentOnce info sent
    → All (Truthful info sent d) d.received_piece
received_piece-InPlace info files sent d o reached once =
    let pieces : pieces_of d.writers ≡ sent = (messages-Delivered info files sent d reached).0 in
    let stored = (Reached-Promise info files sent d o reached).1 in
    let s : Stored info d = stored (SentOnce-Distinct info sent d.writers pieces once) in
    All-map (Reports d.writers) (Truthful info sent d)
      (λ m (i, w, e, h, named). (
        i,
        w.piece,
        ap (λ ps. get_elem? ps i) (sym pieces) ∙ get_elem?-pieces_of d.writers i w e,
        named,
        s.in_place i w e h,
      ))
      d.received_piece s.reported
