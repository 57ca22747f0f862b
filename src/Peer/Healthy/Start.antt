-- ===== src/Peer/Healthy/Start.antt =====
-- peer.go: a piece that the controller asks for is put among the downloads, and its first requests go out.
use tulva.Prelude.{
  ℕ, suc, ◌<◌, ◌≡◌, refl, List, [], ◌∷◌, ◌++◌, Bool, some, inl, inr, length, get_elem?,
  get_elem?-lt, get_elem?-append, get_elem?-length, get_elem?-set_self, get_elem?-set_ne,
  lt-get_elem?, ap, sym, ◌∙◌, true, false, length-replicate, set, replicate, length-append, All,
  All-append, All-map, All-set, All-get_elem?, sum_map-append, Returns, read, arith, Bool-cases,
  Option-cases, ◌==◌, nat_eq,
}
use mathlib.Core.Option.{some-injective}
use tulva.Prelude.Int.{int_parts}
use tulva.Peer.State.{PieceDownload}
use tulva.Peer.Geometry.Tiling.{
  piece_size, num_blocks, expected_length_for_piece_lem, expected_num_blocks_for_piece_lem,
}
use tulva.Peer.Downloads.{find_index}
use tulva.Peer.Messages.{Peer, sizes}
use tulva.Peer.Messages.Decode.{fresh_download, initialize_piece_download}
use tulva.Peer.Healthy.{Sound, Healthy, share, shares, set-Healthy, Healthy-of_sum}

pub find_index_lem :
    (p : PieceDownload → Bool) (ds : List PieceDownload) (i : ℕ)
    → find_index p ds ≡ some i
    → (d : PieceDownload) × (get_elem? ds i ≡ some d) × (p d ≡ true)
find_index_lem p [] i e = absurd (ground arith)
find_index_lem p (d ∷ ds) i e = elim (Bool-cases (p d)) [
  | inl hit ↦ let first : 0 ≡ i = ground arith in (d, rw (← first) refl, hit)
  | inr miss ↦ elim (Option-cases (find_index p ds)) [
    | inl n ↦ absurd (ground arith)
    | inr (j, m) ↦
        let (a, g, h) = find_index_lem p ds j m in
        let next : suc j ≡ i = ground arith in (a, rw (← next) g, h)
  ]
]

fresh-Sound : (n : ℕ) (hash : List ℕ) (b k : ℕ) → Sound (fresh_download n hash b k)
fresh-Sound n hash b k f = (omega arith, omega int_parts)

append-Healthy :
    (ds : List PieceDownload) (n : ℕ) (hash : List ℕ) (b k : ℕ)
    → Healthy ds
    → Healthy (ds ++ fresh_download n hash b k ∷ [])
append-Healthy ds n hash b k v =
    Healthy-of_sum (ds ++ fresh_download n hash b k ∷ [])
      (All-append Sound ds (fresh_download n hash b k ∷ []) v.each (fresh-Sound n hash b k, tt))
      (omega (arith, sum_map-append share ds (fresh_download n hash b k ∷ []), shares ds v))

-- Each download has a buffer.
abbrev pub HasBuffers : Peer → Type 0
HasBuffers p = All (λ d. d.buffer < length p.buffers) p.downloads

-- A download of the piece stands at some index, new, with a buffer of the length of the piece, and every unfinished
-- download is where it was, as it was.
abbrev pub Taken : ℕ → List ℕ → Peer → Peer → Type 0
Taken piece_num hash p p' =
    ((i b : ℕ) × (old : List ℕ) × (get_elem? p'.downloads i
        ≡ some (fresh_download piece_num hash b (num_blocks (sizes p) piece_num)))
      × (get_elem? p'.buffers b ≡ some old)
      × (length old ≡ piece_size (sizes p) piece_num))
    × ((j : ℕ) (d : PieceDownload)
        → get_elem? p.downloads j ≡ some d
        → d.is_finished ≡ false
        → get_elem? p'.downloads j ≡ some d)

-- The piece is taken on, nothing is put out, the downloads are healthy and have their buffers, and the bitfields are
-- the same.
abbrev pub Placed : ℕ → List ℕ → Peer → Peer → Type 0
Placed piece_num hash p p' =
    Healthy p'.downloads
    × (p'.outputs ≡ p.outputs)
    × (p'.piece_length ≡ p.piece_length)
    × (p'.our_bitfield ≡ p.our_bitfield)
    × (p'.peer_bitfield ≡ p.peer_bitfield)
    × HasBuffers p'
    × Taken piece_num hash p p'

-- The finished download at the index makes room for the piece.
set-kept :
    (ds : List PieceDownload) (i : ℕ) (old new : PieceDownload)
    → get_elem? ds i ≡ some old
    → old.is_finished ≡ true
    → (j : ℕ) (d : PieceDownload) → get_elem? ds j ≡ some d
    → d.is_finished ≡ false
    → get_elem? (set ds i new) j ≡ some d
set-kept ds i old new e f j d g h = elim (Bool-cases (i == j)) [
  | inl same ↦
      let at : i ≡ j = ground arith in
      let it : old ≡ d = some-injective _ _ (sym e ∙ ap (get_elem? ds) at ∙ g) in
      absurd (ground (arith, sym f ∙ ap PieceDownload.is_finished it))
  | inr other ↦ get_elem?-set_ne ds i j new (ground arith) ∙ g
]

-- With one buffer more, the downloads have theirs, and the new one is there.
one_more :
    (bufs : List (List ℕ)) (b : List ℕ) (ds : List PieceDownload)
    → All (λ d. d.buffer < length bufs) ds
    → All (λ d. d.buffer < length (bufs ++ b ∷ [])) ds × (length bufs < length (bufs ++ b ∷ []))
one_more bufs b ds h = (
  All-map (λ d. d.buffer < length bufs) (λ d. d.buffer < length (bufs ++ b ∷ []))
      (λ d lt. omega (arith, lt, length-append bufs (b ∷ []))) ds h,
  omega (arith, length-append bufs (b ∷ [])),
)

-- The peer with a new download at the end, and with one in the place of another.
abbrev appended : ℕ → List ℕ → List ℕ → Peer → Peer
appended n hash buffer p = record p {
  downloads = p.downloads ++ fresh_download n hash (length p.buffers) (num_blocks (sizes p) n) ∷ [];
  buffers = p.buffers ++ buffer ∷ [];
}

abbrev reused : ℕ → List ℕ → ℕ → List (List ℕ) → ℕ → Peer → Peer
reused n hash i bufs b p = record p {
  downloads = set p.downloads i (fresh_download n hash b (num_blocks (sizes p) n));
  buffers = bufs;
}

-- There is no finished download.
appended-Placed :
    (n : ℕ) (hash : List ℕ) (p : Peer) (buffer : List ℕ)
    → Healthy p.downloads
    → HasBuffers p
    → length buffer ≡ piece_size (sizes p) n
    → Placed n hash p (appended n hash buffer p)
appended-Placed n hash p buffer v w len =
    let bufs : List (List ℕ) = p.buffers ++ buffer ∷ [] in
    let new : PieceDownload = fresh_download n hash (length p.buffers) (num_blocks (sizes p) n) in
    let (old, here) = one_more p.buffers buffer p.downloads w in
    (
      append-Healthy p.downloads n hash (length p.buffers) (num_blocks (sizes p) n) v,
      refl,
      refl,
      refl,
      refl,
      All-append (λ d. d.buffer < length bufs) p.downloads (new ∷ []) old (here, tt),
      (
        (
          length p.downloads,
          length p.buffers,
          buffer,
          get_elem?-length p.downloads new,
          get_elem?-length p.buffers buffer,
          len,
        ),
        λ j d e _. get_elem?-append p.downloads (new ∷ []) j e,
      ),
    )

-- The finished download at the index is used again, with the buffer at `b` of those that there are then.
reused-Placed :
    (n : ℕ) (hash : List ℕ) (p : Peer) (i : ℕ) (d : PieceDownload) (bufs : List (List ℕ)) (b : ℕ)
    (buffer : List ℕ)
    → Healthy p.downloads
    → get_elem? p.downloads i ≡ some d
    → d.is_finished ≡ true
    → All (λ d. d.buffer < length bufs) p.downloads
    → get_elem? bufs b ≡ some buffer
    → length buffer ≡ piece_size (sizes p) n
    → Placed n hash p (reused n hash i bufs b p)
reused-Placed n hash p i d bufs b buffer v e closed w at len =
    let new : PieceDownload = fresh_download n hash b (num_blocks (sizes p) n) in
    (
      set-Healthy p.downloads i d new v e (fresh-Sound n hash b (num_blocks (sizes p) n))
          (omega arith),
      refl,
      refl,
      refl,
      refl,
      All-set (λ d. d.buffer < length bufs) p.downloads i new w (lt-get_elem? bufs b at),
      (
        (
          i,
          b,
          buffer,
          get_elem?-set_self p.downloads i new (lt-get_elem? p.downloads i e),
          at,
          len,
        ),
        set-kept p.downloads i d new e closed,
      ),
    )

pub initialize_piece_download-Placed :
    (piece_num : ℕ) (hash : List ℕ) (p : Peer)
    → Healthy p.downloads
    → HasBuffers p
    → 0 < p.piece_length
    → Returns (Placed piece_num hash p) (initialize_piece_download piece_num hash p)
unfolding initialize_piece_download
initialize_piece_download-Placed n hash p v w h =
    let len = expected_length_for_piece_lem (sizes p) n h in
    let blocks = expected_num_blocks_for_piece_lem (sizes p) n h in
    let size : ℕ = piece_size (sizes p) n in
    let zeros : List ℕ = replicate size 0 in
    elim (Option-cases (find_index (λ d. d.is_finished) p.downloads)) [
      | inl none_ ↦ (
        appended n hash zeros p,
        rw (len, blocks, none_) refl,
        appended-Placed n hash p zeros v w (length-replicate size 0),
      )
      | inr (i, f) ↦
          let (d, e, closed) = find_index_lem (λ d. d.is_finished) p.downloads i f in
          let (old, b) =
            get_elem?-lt p.buffers d.buffer
              (All-get_elem? (λ d. d.buffer < length p.buffers) p.downloads i w e) in
          elim (Bool-cases (length old == size)) [
            | inl same ↦ (
              reused n hash i p.buffers d.buffer p,
              rw (len, blocks, f, e, b, read, same) refl,
              reused-Placed n hash p i d p.buffers d.buffer old v e closed w b (ground arith),
            )
            | inr other ↦ (
              reused n hash i (p.buffers ++ zeros ∷ []) (length p.buffers) p,
              rw (len, blocks, f, e, b, read, other) refl,
              reused-Placed n hash p i d (p.buffers ++ zeros ∷ []) (length p.buffers) zeros v e
                  closed (one_more p.buffers zeros p.downloads w).0
                  (get_elem?-length p.buffers zeros) (length-replicate size 0),
            )
          ]
    ]
