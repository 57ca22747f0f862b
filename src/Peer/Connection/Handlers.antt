-- ===== src/Peer/Connection/Handlers.antt =====
-- Each message of the other side that fits is handled to its end, and the invariant of the connection holds then.
pub mod Blocks
use tulva.Prelude.{
  ℕ, zero, suc, ◌+◌, ◌/◌, ◌%◌, ◌≤◌, ◌<◌, ◌≡◌, refl, ap, sym, ◌∙◌, subst, List, [], ◌∷◌, ◌++◌, Bool,
  true, false, not, ◌&&◌, some, none, inl, inr, length, length-set, drop, get_elem?, get_elem?-lt,
  set, All, if◌then◌else◌, Outcome, done, fatal, panicked, ◌>>=◌, Returns, read, write, arith,
  Bool-cases, Option-cases, ◌==◌, nat_eq, leb,
}
use tulva.Pieces.{BlockInfo}
use tulva.Peer.Downloads.{clear_downloads}
use tulva.Peer.Bitfield.{convert_byte_slice_to_bool_slice}
use tulva.Peer.Wire.{
  msg_choke, msg_unchoke, msg_interested, msg_not_interested, msg_have, msg_bitfield, msg_request,
  msg_block, msg_cancel, field_at, decode_request,
}
use tulva.Peer.Messages.{
  Output, choke_status, have_pieces, block_request, Peer, with_outputs, send_choke, send_unchoke,
  send_interested, should_be_interested, show_interest, send_bitfield_to_controller,
}
use tulva.Peer.Messages.Decode.{
  without_payload, on_choke, on_unchoke, on_have, on_bitfield, on_request, on_cancel, on_block,
  decode_body, decode_message,
}
use tulva.Peer.Healthy.{Healthy, clear_downloads-Healthy}
use tulva.Peer.Connection.{Inv, MessageFits}
use tulva.Peer.Connection.Kept.{clear_downloads-below}

-- With bitfields of one length, the loop stays within them.
pub should_be_interested-ends :
    (ours theirs : List Bool)
    → length ours ≡ length theirs
    → Returns (λ _. Unit {0}) (should_be_interested ours theirs)
unfolding should_be_interested
should_be_interested-ends [] theirs e = (false, refl, tt)
should_be_interested-ends (mine ∷ ours) [] e = absurd (omega (arith, e))
should_be_interested-ends (true ∷ ours) (its ∷ theirs) e =
    should_be_interested-ends ours theirs (omega (arith, e))
should_be_interested-ends (false ∷ ours) (true ∷ theirs) e = (true, refl, tt)
should_be_interested-ends (false ∷ ours) (false ∷ theirs) e =
    should_be_interested-ends ours theirs (omega (arith, e))

-- The invariant does not speak of the interest, the chokes and what is put out.
pub Inv-same :
    (p q : Peer)
    → q.downloads ≡ p.downloads
    → length q.buffers ≡ length p.buffers
    → q.piece_length ≡ p.piece_length
    → length q.our_bitfield ≡ length p.our_bitfield
    → length q.peer_bitfield ≡ length p.peer_bitfield
    → Inv p
    → Inv q
Inv-same p q d b l o t v = record {
  healthy = rw d v.healthy;
  has_buffers = rw (d, b) v.has_buffers;
  positive = rw l v.positive;
  bitfields = o ∙ v.bitfields ∙ sym t;
}

pub show_interest-Inv : (p : Peer) → Inv p → Returns Inv (show_interest p)
show_interest-Inv p v = elim (Bool-cases p.am_interested) [
  | inl shown ↦ (p, rw shown refl, v)
  | inr hidden ↦
      let (wanted, e, _) = should_be_interested-ends p.our_bitfield p.peer_bitfield v.bitfields in
      elim (Bool-cases wanted) [
        | inl y ↦ (
          send_interested p,
          rw (hidden, e, y) refl,
          Inv-same p (send_interested p) refl refl refl refl refl v,
        )
        | inr n ↦ (p, rw (hidden, e, n) refl, v)
      ]
]

Inv-if : (b : Bool) (p q : Peer) → Inv p → Inv q → Inv (if b then p else q)
Inv-if true p q v w = v
Inv-if false p q v w = w

pub on_choke-Inv : (p : Peer) → Inv p → Inv (on_choke p)
unfolding on_choke
on_choke-Inv p v = Inv-if p.peer_choking p _ v (record {
  healthy = clear_downloads-Healthy p.downloads;
  has_buffers = clear_downloads-below (length p.buffers) p.downloads v.has_buffers;
  positive = v.positive;
  bitfields = v.bitfields;
})

pub on_unchoke-Inv : (p : Peer) → Inv p → Inv (on_unchoke p)
on_unchoke-Inv p v =
    let next : Peer = with_outputs (choke_status false ∷ []) (record p { peer_choking = false }) in
    Inv-if p.peer_choking next p (Inv-same p next refl refl refl refl refl v) v

pub on_have-Inv :
    (payload : List ℕ) (p : Peer)
    → Inv p
    → length payload ≡ 4
    → Returns (λ n. n < length p.peer_bitfield) (field_at 0 payload)
    → Returns Inv (on_have payload p)
on_have-Inv payload p v l (n, f, lt) =
    let size : (length payload == 4) ≡ true = ground (arith, l) in
    let (old, g) = get_elem?-lt p.peer_bitfield n lt in
    let next : Peer =
      with_outputs (have_pieces (n ∷ []) ∷ [])
        (record p { peer_bitfield = set p.peer_bitfield n true }) in
    let (p', e, v') =
      show_interest-Inv next
        (Inv-same p next refl refl refl refl (length-set p.peer_bitfield n true) v) in
    (p', rw (size, f, write, g) e, v')

pub on_bitfield-Inv :
    (payload : List ℕ) (p : Peer)
    → Inv p
    → Returns
        (λ bits. length bits ≡ length p.peer_bitfield)
        (convert_byte_slice_to_bool_slice (length p.peer_bitfield) payload)
    → Returns Inv (on_bitfield payload p)
on_bitfield-Inv payload p v (bits, f, l) =
    let next : Peer =
      with_outputs (send_bitfield_to_controller bits) (record p { peer_bitfield = bits }) in
    let (p', e, v') = show_interest-Inv next (Inv-same p next refl refl refl refl l v) in
    (p', rw f e, v')

pub on_request-Inv :
    (payload : List ℕ) (p : Peer)
    → Inv p
    → (info : BlockInfo) × (decode_request payload ≡ done info)
    → Returns Inv (on_request payload p)
on_request-Inv payload p v (info, e) =
    let next : Peer = with_outputs (block_request info ∷ []) p in
    (next, rw e refl, Inv-same p next refl refl refl refl refl v)

pub on_cancel-Inv :
    (payload : List ℕ) (p : Peer)
    → Inv p
    → (info : BlockInfo) × (decode_request payload ≡ done info)
    → Returns Inv (on_cancel payload p)
on_cancel-Inv payload p v (info, e) = (p, rw e refl, v)

pub without_payload-Inv :
    (payload : List ℕ) (q : Peer)
    → payload ≡ []
    → Inv q
    → Returns Inv (without_payload payload (done q))
without_payload-Inv payload q e v = (q, rw e refl, v)
