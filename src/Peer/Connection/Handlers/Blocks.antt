-- ===== src/Peer/Connection/Handlers/Blocks.antt =====
-- A block that fits, and the choice among the messages.
use tulva.Prelude.{
  ℕ, ◌/◌, ◌%◌, ◌<◌, ◌≡◌, refl, ap, sym, ◌∙◌, List, true, false, not, ◌&&◌, some, inl, inr, length,
  drop, get_elem?-lt, All-get_elem?, Returns, arith, Bool-cases, Option-cases, ◌==◌, nat_eq, leb,
}
use tulva.Peer.State.{download_block_size}
use tulva.Peer.Geometry.Tiling.{block_size, expected_length_for_block_lem}
use tulva.Peer.Downloads.{have_current_downloads, get_piece_download}
use tulva.Peer.Wire.{
  msg_choke, msg_unchoke, msg_interested, msg_not_interested, msg_have, msg_bitfield, msg_request,
  msg_block, msg_cancel,
}
use tulva.Peer.Messages.{Peer, sizes, send_choke, send_unchoke}
use tulva.Peer.Messages.Decode.{receive_block, on_block, on_choke, on_unchoke, decode_body}
use tulva.Peer.Healthy.{Healthy}
use tulva.Peer.Healthy.Blocks.{receive_block-Finished}
use tulva.Peer.Healthy.Start.{find_index_lem}
use tulva.Peer.Connection.{Inv, BlockFits, MessageFits}
use tulva.Peer.Connection.Kept.{Kept, receive_block-Kept}
use tulva.Peer.Connection.Handlers.{
  Inv-same, on_choke-Inv, on_unchoke-Inv, on_have-Inv, on_bitfield-Inv, on_request-Inv,
  on_cancel-Inv, without_payload-Inv,
}

pub Inv-of_Kept : (p p' : Peer) → Inv p → Kept p p' → Healthy p'.downloads → Inv p'
Inv-of_Kept p p' v (l, o, t, b) h = record {
  healthy = h;
  has_buffers = b v.has_buffers;
  positive = rw l v.positive;
  bitfields = ap length o ∙ v.bitfields ∙ sym (ap length t);
}

module _ (sha1 : List ℕ → List ℕ) where
  receive_block-Inv :
      (payload : List ℕ) (p : Peer) (i : ℕ) (f : BlockFits payload p)
      → Inv p
      → get_piece_download f.piece_num p.downloads ≡ some i
      → Returns Inv (receive_block sha1 i f.begin (drop 8 payload) p)
  unfolding get_piece_download
  receive_block-Inv payload p i f v e =
      let (d, at, _) =
        find_index_lem (λ d. not d.is_finished && d.piece_num == f.piece_num) p.downloads i e in
      let (old, b) =
        get_elem?-lt p.buffers d.buffer
          (All-get_elem? (λ d. d.buffer < length p.buffers) p.downloads i v.has_buffers at) in
      let (asked, fits) = f.asked i d old e at b in
      let (p', h, r) =
        receive_block-Finished sha1 i f.begin (drop 8 payload) p d old v.healthy v.positive at asked
          b fits in
      let kept =
        receive_block-Kept sha1 i f.begin (drop 8 payload) p p' d old v.healthy at asked b fits h in
      (
        p',
        h,
        Inv-of_Kept p p' v kept
            (elim r [ inl (_, s) ↦ s.0 | inr (_, inl (_, s)) ↦ s.0 | inr (_, inr (_, s)) ↦ s.0 ]),
      )

  on_block-Inv :
      (payload : List ℕ) (p : Peer)
      → BlockFits payload p
      → Inv p
      → Returns Inv (on_block sha1 payload p)
  unfolding on_block
  on_block-Inv payload p f v =
      let long : leb 9 (length payload) ≡ true = ground (arith, f.long) in
      let aligned : (f.begin % download_block_size == 0) ≡ true = ground (arith, f.aligned) in
      let expected =
        expected_length_for_block_lem (sizes p) f.piece_num (f.begin / download_block_size)
          v.positive in
      let whole : (length (drop 8 payload)
            == block_size (sizes p) f.piece_num (f.begin / download_block_size))
          ≡ true =
        ground (arith, f.whole) in
      elim (Bool-cases (have_current_downloads p.downloads)) [
        | inr idle ↦ (p, rw (long, f.piece_field, f.begin_field, idle) refl, v)
        | inl work ↦ elim (Option-cases (get_piece_download f.piece_num p.downloads)) [
          | inl other ↦ (
            p,
            rw (long, f.piece_field, f.begin_field, work, aligned, expected, whole, other) refl,
            v,
          )
          | inr (i, e) ↦
              let (p', h, w) = receive_block-Inv payload p i f v e in
              (p', rw (long, f.piece_field, f.begin_field, work, aligned, expected, whole, e) h, w)
        ]
      ]

  -- Any message that fits.
  pub decode_body-Inv :
      (id : ℕ) (payload : List ℕ) (p : Peer)
      → MessageFits id payload p
      → Inv p
      → Returns Inv (decode_body sha1 id payload p)
  unfolding decode_body
  decode_body-Inv id payload p f v = elim (Bool-cases (id == msg_choke)) [
    | inl here ↦
        rw here (
          without_payload-Inv payload (on_choke p) (f.no_payload (ground arith)) (on_choke-Inv p v))
    | inr n0 ↦ elim (Bool-cases (id == msg_unchoke)) [
      | inl here ↦
          rw (n0, here)
            (without_payload-Inv payload (on_unchoke p) (f.no_payload (ground arith))
              (on_unchoke-Inv p v))
      | inr n1 ↦ elim (Bool-cases (id == msg_interested)) [
        | inl here ↦
            let next : Peer = send_unchoke (record p { peer_interested = true }) in
            rw (n0, n1, here)
              (without_payload-Inv payload next (f.no_payload (ground arith))
                (Inv-same p next refl refl refl refl refl v))
        | inr n2 ↦ elim (Bool-cases (id == msg_not_interested)) [
          | inl here ↦
              let next : Peer = send_choke (record p { peer_interested = false }) in
              rw (n0, n1, n2, here)
                (without_payload-Inv payload next (f.no_payload (ground arith))
                  (Inv-same p next refl refl refl refl refl v))
          | inr n3 ↦ elim (Bool-cases (id == msg_have)) [
            | inl here ↦
                let (l, n) = f.have_fits (ground arith) in
                rw (n0, n1, n2, n3, here) (on_have-Inv payload p v l n)
            | inr n4 ↦ elim (Bool-cases (id == msg_bitfield)) [
              | inl here ↦
                  rw (n0, n1, n2, n3, n4, here)
                    (on_bitfield-Inv payload p v (f.bitfield_fits (ground arith)))
              | inr n5 ↦ elim (Bool-cases (id == msg_request)) [
                | inl here ↦
                    rw (n0, n1, n2, n3, n4, n5, here)
                      (on_request-Inv payload p v (f.range_fits (inl (ground arith))))
                | inr n6 ↦ elim (Bool-cases (id == msg_block)) [
                  | inl here ↦
                      rw (n0, n1, n2, n3, n4, n5, n6, here)
                        (on_block-Inv payload p (f.block_fits (ground arith)) v)
                  | inr n7 ↦ elim (Bool-cases (id == msg_cancel)) [
                    | inl here ↦
                        rw (n0, n1, n2, n3, n4, n5, n6, n7, here)
                          (on_cancel-Inv payload p v (f.range_fits (inr (ground arith))))
                    | inr n8 ↦ (p, rw (n0, n1, n2, n3, n4, n5, n6, n7, n8) refl, v)
                  ]
                ]
              ]
            ]
          ]
        ]
      ]
    ]
  ]
