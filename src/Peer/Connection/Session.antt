-- ===== src/Peer/Connection/Session.antt =====
-- A connection over any run of messages that fit.
use tulva.Prelude.{
  ℕ, ◌<◌, ◌≡◌, refl, ap, sym, ◌∙◌, subst, List, [], ◌∷◌, Bool, true, inl, inr, length, length-set,
  map, get_elem?-lt, set, All, done, Returns, write, Bool-cases, nat_eq,
}
use tulva.Peer.Messages.{Peer, with_outputs, peer_message, send_not_interested}
use tulva.Peer.Wire.{have_message, block_message}
use tulva.Peer.Messages.Decode.{
  decode_message, on_request_piece, on_cancel_piece, on_have_pieces_from_controller,
  update_our_bitfield,
}
use tulva.Peer.Healthy.{process_cancel_from_controller-Healthy}
use tulva.Peer.Connection.{
  Input, message, block_response, request_piece, cancel_piece, have_pieces_told, handle, handle_all,
  Inv, InputFits,
}
use tulva.Peer.Connection.Handlers.{Inv-same, should_be_interested-ends}
use tulva.Peer.Connection.Handlers.Blocks.{decode_body-Inv, Inv-of_Kept}
use tulva.Peer.Healthy.Blocks.{send_requests-Sends}
use tulva.Peer.Healthy.Start.{initialize_piece_download-Placed}
use tulva.Peer.Connection.Kept.{send_requests-Kept, process_cancel-below}

update_our_bitfield-ends :
    (pieces : List ℕ) (bits : List Bool)
    → All (λ i. i < length bits) pieces
    → Returns (λ bits'. length bits' ≡ length bits) (update_our_bitfield pieces bits)
unfolding update_our_bitfield
update_our_bitfield-ends [] bits h = (bits, refl, refl)
update_our_bitfield-ends (i ∷ pieces) bits (lt, h) =
    let (old, g) = get_elem?-lt bits i lt in
    let same = length-set bits i true in
    let (bits', e, l) =
      update_our_bitfield-ends pieces (set bits i true)
        (subst (λ n. All (λ i. i < n) pieces) (sym same) h) in
    (bits', rw (write, g) e, l ∙ same)

told-Inv :
    (pieces : List ℕ) (p : Peer)
    → Inv p
    → All (λ i. i < length p.our_bitfield) pieces
    → Returns Inv (on_have_pieces_from_controller pieces p)
unfolding on_have_pieces_from_controller
told-Inv pieces p v h =
    let (bits, e, l) = update_our_bitfield-ends pieces p.our_bitfield h in
    let told : Peer =
      with_outputs (map (λ i. peer_message (have_message i)) pieces)
        (record p { our_bitfield = bits }) in
    let w : Inv told = Inv-same p told refl refl refl l refl v in
    elim (Bool-cases p.am_interested) [
      | inr n ↦ (told, rw (e, n) refl, w)
      | inl y ↦
          let (wanted, f, _) = should_be_interested-ends bits p.peer_bitfield (l ∙ v.bitfields) in
          elim (Bool-cases wanted) [
            | inl y1 ↦ (told, rw (e, y, f, y1) refl, w)
            | inr n1 ↦ (
              send_not_interested told,
              rw (e, y, f, n1) refl,
              Inv-same told (send_not_interested told) refl refl refl refl refl w,
            )
          ]
    ]

requested-Inv :
    (piece_num : ℕ) (hash : List ℕ) (p : Peer)
    → Inv p
    → Returns Inv (on_request_piece piece_num hash p)
unfolding on_request_piece
requested-Inv piece_num hash p v =
    let (q, e, (healthy, _, l, o, t, b, _)) =
      initialize_piece_download-Placed piece_num hash p v.healthy v.has_buffers v.positive in
    let w : Inv q = record {
      healthy = healthy;
      has_buffers = b;
      positive = rw l v.positive;
      bitfields = ap length o ∙ v.bitfields ∙ sym (ap length t);
    } in
    let (p', e', s) = send_requests-Sends q healthy w.positive in
    (p', rw e e', Inv-of_Kept q p' w (send_requests-Kept q p' healthy e') s.0)

cancelled-Inv : (piece_num : ℕ) (p : Peer) → Inv p → Inv (on_cancel_piece piece_num p)
unfolding on_cancel_piece
cancelled-Inv piece_num p v = record {
  healthy = process_cancel_from_controller-Healthy piece_num p.downloads v.healthy;
  has_buffers = process_cancel-below (length p.buffers) piece_num p.downloads v.has_buffers;
  positive = v.positive;
  bitfields = v.bitfields;
}

module _ (sha1 : List ℕ → List ℕ) where
  handle-Inv :
      (input : Input) (p : Peer) → InputFits p input → Inv p → Returns Inv (handle sha1 input p)
  unfolding handle decode_message
  handle-Inv (message []) p f v = (p, refl, v)
  handle-Inv (message (id ∷ payload)) p f v = decode_body-Inv sha1 id payload p f v
  handle-Inv (block_response r) p f v = (
    _,
    refl,
    Inv-same p
        (with_outputs (peer_message (block_message r.info.piece_index r.info.begin r.bytes) ∷ []) p)
        refl refl refl refl refl v,
  )
  handle-Inv (request_piece piece_num hash) p f v = requested-Inv piece_num hash p v
  handle-Inv (cancel_piece piece_num) p f v =
      (on_cancel_piece piece_num p, refl, cancelled-Inv piece_num p v)
  handle-Inv (have_pieces_told pieces) p f v = told-Inv pieces p v f

  -- Each input fits the state in which it comes.
  abbrev pub AllFit : List Input → Peer → Type 0
  AllFit [] p = Unit
  AllFit (input ∷ inputs) p =
      InputFits p input × ((p' : Peer) → handle sha1 input p ≡ done p' → AllFit inputs p')

  -- From a state with the invariant, the connection handles every run of inputs, each of which fits the state in which
  -- it comes, to its end, with no panic and no `log.Fatalf`, and the invariant holds there.
  pub handle_all-Inv :
      (inputs : List Input) (p : Peer)
      → AllFit inputs p
      → Inv p
      → Returns Inv (handle_all sha1 inputs p)
  unfolding handle_all
  handle_all-Inv [] p f v = (p, refl, v)
  handle_all-Inv (input ∷ inputs) p (f, fs) v =
      let (q, e, w) = handle-Inv input p f v in
      let (p', e', w') = handle_all-Inv inputs q (fs q e) w in (p', rw e e', w')
