-- ===== src/Tracker/Udp/Announce/Peers.antt =====
-- The peers of a tracker over UDP are those that the same bytes give over HTTP.
use tulva.Prelude.{
  ℕ, zero, suc, ◌+◌, ◌-◌, ◌*◌, ◌/◌, ◌≤◌, ◌<◌, ◌≡◌, refl, ap, sym, ◌∙◌, List, [], ◌∷◌, true, some,
  if◌then◌else◌, ltb, leb, length, take, drop, All, done, arith, Bool-cases, inl, inr,
}
use tulva.Prelude.Slices.{length-drop}
use tulva.Tracker.{Event, PeerTuple}
use tulva.Tracker.Bytes.{read_number-enough, read_number_at, value_from}
use tulva.Tracker.Http.{parse_peers, port_of}
use tulva.Tracker.Udp.Packets.{AnnounceResponse, read_peers, unmarshal_announce}
use tulva.Tracker.Udp.Announce.{announced, announce_answer}

-- One peer is read as over HTTP.
read_one :
    (n a b c d e f : ℕ) (bytes : List ℕ) (peers : List PeerTuple)
    → e < 256
    → read_peers n bytes ≡ some peers
    → read_peers (suc n) (a ∷ b ∷ c ∷ d ∷ e ∷ f ∷ bytes)
      ≡ some (record { ip = a ∷ b ∷ c ∷ d ∷ []; port = port_of e f } ∷ peers)
unfolding read_peers
read_one n a b c d e f bytes peers h r =
    let enough : leb 4 (length (a ∷ b ∷ c ∷ d ∷ e ∷ f ∷ bytes)) ≡ true = ground arith in
    let port = read_number-enough 2 (e ∷ f ∷ bytes) (omega arith) in
    let read : read_peers (suc n) (a ∷ b ∷ c ∷ d ∷ e ∷ f ∷ bytes)
        ≡ some (record { ip = a ∷ b ∷ c ∷ d ∷ []; port = (0 * 256 + e) * 256 + f } ∷ peers) =
      rw (enough, port, r) refl in
    read ∙ ap (λ p. some (record { ip = a ∷ b ∷ c ∷ d ∷ []; port = p } ∷ peers)) (omega (arith, h))

six_more : (n : ℕ) → suc (suc (suc (suc (suc (suc (n * 6)))))) ≡ suc n * 6
six_more n = omega arith

Same : ℕ → List ℕ → Type 0
Same n bytes =
    (peers : List PeerTuple) × (read_peers n bytes ≡ some peers)
    × (parse_peers (take (n * 6) bytes) ≡ done peers)

parse_one :
    (n a b c d e f : ℕ) (bytes : List ℕ) (peers : List PeerTuple)
    → parse_peers (take (n * 6) bytes) ≡ done peers
    → parse_peers (take (suc n * 6) (a ∷ b ∷ c ∷ d ∷ e ∷ f ∷ bytes))
      ≡ done (record { ip = a ∷ b ∷ c ∷ d ∷ []; port = port_of e f } ∷ peers)
unfolding parse_peers
parse_one n a b c d e f bytes peers p =
    ap (λ k. parse_peers (take k (a ∷ b ∷ c ∷ d ∷ e ∷ f ∷ bytes))) (sym (six_more n)) ∙ (rw p refl)

-- The bytes of that many peers are read over either way as the same.
read_peers-parse_peers :
    (n : ℕ) (bytes : List ℕ) → n * 6 ≤ length bytes → All (λ b. b < 256) bytes → Same n bytes
unfolding read_peers parse_peers Same
read_peers-parse_peers zero bytes h v = (
  [],
  refl,
  ap (λ k. parse_peers (take k bytes)) (let zero_times : 0 * 6 ≡ 0 = omega arith in zero_times),
)
read_peers-parse_peers (suc n) [] h v = absurd (omega (arith, h))
read_peers-parse_peers (suc n) (a ∷ []) h v = absurd (omega (arith, h))
read_peers-parse_peers (suc n) (a ∷ b ∷ []) h v = absurd (omega (arith, h))
read_peers-parse_peers (suc n) (a ∷ b ∷ c ∷ []) h v = absurd (omega (arith, h))
read_peers-parse_peers (suc n) (a ∷ b ∷ c ∷ d ∷ []) h v = absurd (omega (arith, h))
read_peers-parse_peers (suc n) (a ∷ b ∷ c ∷ d ∷ e ∷ []) h v = absurd (omega (arith, h))
read_peers-parse_peers (suc n) (a ∷ b ∷ c ∷ d ∷ e ∷ f ∷ bytes) h (_, (_, (_, (_, (ve, (_, v)))))) =
    let (peers, r, p) = read_peers-parse_peers n bytes (omega (arith, h)) v in
    (
      record { ip = a ∷ b ∷ c ∷ d ∷ []; port = port_of e f } ∷ peers,
      read_one n a b c d e f bytes peers ve r,
      parse_one n a b c d e f bytes peers p,
    )

All-drop : (n : ℕ) (bytes : List ℕ) → All (λ b. b < 256) bytes → All (λ b. b < 256) (drop n bytes)
All-drop zero bytes v = v
All-drop (suc n) [] v = v
All-drop (suc n) (b ∷ bytes) v = All-drop n bytes v.1

-- Without a byte behind the first 20 there is no loop.
peers_part :
    (packet : List ℕ) (peers : List PeerTuple)
    → 20 ≤ length packet
    → read_peers ((length packet - 20) / 6) (drop 20 packet) ≡ some peers
    → (if ltb 20 (length packet)
        then read_peers ((length packet - 20) / 6) (drop 20 packet)
        else some [])
      ≡ some peers
unfolding read_peers
peers_part packet peers h r = elim (Bool-cases (ltb 20 (length packet))) [
  | inl more ↦ rw more r
  | inr just ↦
      let none_ : 0 ≡ (length packet - 20) / 6 = ground (arith, h) in
      rw just (ap (λ n. read_peers n (drop 20 packet)) none_ ∙ r)
]

-- An answer of at least 20 bytes never ends the program, and its peers are those that the loop over HTTP reads from
-- the bytes behind the first 20, less those after the last full six; with a time to the next announce only when the
-- interval is not 0. A session that stops takes neither.
pub announce_answer-parse_peers :
    (event : Event) (packet : List ℕ)
    → 20 ≤ length packet
    → All (λ b. b < 256) packet
    → (response : AnnounceResponse) × (response.interval ≡ value_from 0 (take 4 (drop 8 packet)))
      × (parse_peers (take ((length packet - 20) / 6 * 6) (drop 20 packet)) ≡ done response.peers)
      × (announce_answer event packet ≡ done (announced event response))
unfolding announce_answer unmarshal_announce Same
announce_answer-parse_peers event packet h v =
    let n : ℕ = (length packet - 20) / 6 in
    let (peers, r, p) =
      read_peers-parse_peers n (drop 20 packet) (omega (arith, h, length-drop 20 packet))
        (All-drop 20 packet v) in
    let enough : leb 20 (length packet) ≡ true = ground (arith, h) in
    (
      record {
        action = value_from 0 (take 4 packet);
        transaction_id = value_from 0 (take 4 (drop 4 packet));
        interval = value_from 0 (take 4 (drop 8 packet));
        leechers = value_from 0 (take 4 (drop 12 packet));
        seeders = value_from 0 (take 4 (drop 16 packet));
        peers = peers;
      },
      refl,
      p,
      rw
          (
            enough,
            read_number_at 4 0 packet (omega (arith, h)),
            read_number_at 4 4 packet (omega (arith, h)),
            read_number_at 4 8 packet (omega (arith, h)),
            read_number_at 4 12 packet (omega (arith, h)),
            read_number_at 4 16 packet (omega (arith, h)),
            peers_part packet peers h r,
          )
          refl,
    )
