-- ===== src/Peer/Healthy/Taken.antt =====
-- peer.go: a piece that the controller asks for is taken on, and the other work goes on.
use tulva.Prelude.{ℕ, ◌≡◌, List, false, some, length, get_elem?}
use tulva.Peer.State.{PieceDownload}
use tulva.Peer.Geometry.Tiling.{piece_size, num_blocks}
use tulva.Peer.Requests.Fill.{with_more}
use tulva.Peer.Messages.{Peer, sizes}
use tulva.Peer.Messages.Decode.{fresh_download}
use tulva.Peer.Healthy.{Healthy}

-- The download stands at the index, with some more requests sent.
abbrev pub Asked : Peer → ℕ → PieceDownload → Type 0
Asked p i d = (k : ℕ) × (get_elem? p.downloads i ≡ some (with_more k d))

-- A new download of the piece stands at some index, with the hash and the number of blocks of the piece, no block
-- received, some requests sent, and a buffer of the length of the piece; and every unfinished download is where it was,
-- as it was but for requests sent.
abbrev pub TakenOn : ℕ → List ℕ → Peer → Peer → Type 0
TakenOn piece_num hash p p' =
    ((i b : ℕ) × (buffer : List ℕ) × Asked p' i
        (fresh_download piece_num hash b (num_blocks (sizes p) piece_num))
      × (get_elem? p'.buffers b ≡ some buffer)
      × (length buffer ≡ piece_size (sizes p) piece_num))
    × ((j : ℕ) (d : PieceDownload)
        → get_elem? p.downloads j ≡ some d
        → d.is_finished ≡ false
        → Asked p' j d)
