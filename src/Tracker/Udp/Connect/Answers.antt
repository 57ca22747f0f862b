-- ===== src/Tracker/Udp/Connect/Answers.antt =====
-- What `connect` makes of the answers that a tracker gives.
use tulva.Prelude.{
  ℕ, ◌+◌, ◌-◌, ◌^◌, ◌≤◌, ◌<◌, ◌≡◌, ◌≢◌, ◌⊎◌, inl, inr, refl, List, [], ◌∷◌, ◌++◌, true, false, none,
  some, ap, ◌∙◌, take, not, ◌||◌, ◌==◌, nat_eq, leb, length, length-append, drop, replicate, arith,
}
use tulva.Prelude.Slices.{length-drop}
use tulva.Tracker.Bytes.{be, length-be, read_number-be, read_number-enough}
use tulva.Tracker.Udp.Packets.{action_error, ConnectResponse, unmarshal_connect, unmarshal_error}
use tulva.Tracker.Udp.Connect.{
  UdpTracker, connect_buffer_size, error_answer, read_answer, connect_answer,
}

-- The packet of BEP 15: the action, the transaction, and eight bytes more, with others behind them.
abbrev pub answer_packet : ConnectResponse → List ℕ → List ℕ
answer_packet r rest = be 4 r.action ++ (be 4 r.transaction_id ++ (be 8 r.connection_id ++ rest))

-- The numbers fit in their fields.
pub record Fits (r : ConnectResponse) : Type 0 where
  pub action : r.action < 256 ^ 4
  pub transaction_id : r.transaction_id < 256 ^ 4
  pub connection_id : r.connection_id < 256 ^ 8

-- Such a packet is read as its numbers.
pub unmarshal_connect-answer_packet :
    (r : ConnectResponse) (rest : List ℕ)
    → Fits r
    → unmarshal_connect (answer_packet r rest) ≡ some r
unfolding unmarshal_connect
unmarshal_connect-answer_packet r rest f =
    rw
      (
        read_number-be 4 r.action (be 4 r.transaction_id ++ (be 8 r.connection_id ++ rest))
            f.action,
        read_number-be 4 r.transaction_id (be 8 r.connection_id ++ rest) f.transaction_id,
        read_number-be 8 r.connection_id rest f.connection_id,
      )
      refl

length-answer_packet :
    (r : ConnectResponse) (rest : List ℕ) → length (answer_packet r rest) ≡ 16 + length rest
length-answer_packet r rest = omega (
  arith,
  length-append (be 4 r.action) (be 4 r.transaction_id ++ (be 8 r.connection_id ++ rest)),
  length-append (be 4 r.transaction_id) (be 8 r.connection_id ++ rest),
  length-append (be 8 r.connection_id) rest,
  length-be 4 r.action,
  length-be 4 r.transaction_id,
  length-be 8 r.connection_id,
)

-- The buffer has at least 8 bytes, and is always read as an error packet.
error_answer-none : (packet : List ℕ) → 16 ≤ length packet → error_answer packet ≡ none
unfolding unmarshal_error
error_answer-none [] h = absurd (omega (arith, h))
error_answer-none (b ∷ bytes) h =
    let zeros = replicate (connect_buffer_size - length (b ∷ bytes)) 0 in
    let first = read_number-enough 4 (0 ∷ 0 ∷ 0 ∷ b ∷ drop 3 (bytes ++ zeros)) (omega arith) in
    let second =
      read_number-enough 4 (drop 3 (bytes ++ zeros))
        (omega (arith, h, length-drop 3 (bytes ++ zeros), length-append bytes zeros)) in
    rw (first, second, error_answer, unmarshal_error) refl

-- The numbers are within the buffer.
take-answer_packet :
    (r : ConnectResponse) (rest : List ℕ)
    → take connect_buffer_size (answer_packet r rest) ≡ answer_packet r (take 134 rest)
unfolding be
take-answer_packet r rest = refl

-- An answer with the transaction of the tracker and another action than `Error` gives the tracker its connection, with
-- no error, whatever comes behind the numbers.
pub connect_answer-accepts :
    (tr : UdpTracker) (r : ConnectResponse) (rest : List ℕ)
    → Fits r
    → r.action ≢ action_error
    → r.transaction_id ≡ tr.transaction_id
    → connect_answer tr (answer_packet r rest)
      ≡ (none, record tr { connection_id = r.connection_id })
unfolding connect_answer read_answer
connect_answer-accepts tr r rest f ne same =
    let got : List ℕ = take 134 rest in
    let enough : leb 16 (length (answer_packet r got)) ≡ true =
      ground (arith, length-answer_packet r got) in
    let test : (r.action == action_error || not (tr.transaction_id == r.transaction_id)) ≡ false =
      ground (arith, ne, same) in
    ap (read_answer tr) (take-answer_packet r rest)
    ∙ rw (enough, unmarshal_connect-answer_packet r got f, test) refl

-- When a tracker answers with the action `Error`, or with another transaction, in a packet of the action, the
-- transaction and at least eight bytes more, `connect` returns no error, and the tracker keeps the connection that it
-- had.
pub connect_answer-refused :
    (tr : UdpTracker) (r : ConnectResponse) (rest : List ℕ)
    → Fits r
    → (r.action ≡ action_error) ⊎ (r.transaction_id ≢ tr.transaction_id)
    → connect_answer tr (answer_packet r rest) ≡ (none, tr)
unfolding connect_answer read_answer
connect_answer-refused tr r rest f refused =
    let got : List ℕ = take 134 rest in
    let packet = answer_packet r got in
    let enough : leb 16 (length packet) ≡ true = ground (arith, length-answer_packet r got) in
    let test : (r.action == action_error || not (tr.transaction_id == r.transaction_id)) ≡ true =
      elim refused [ inl e ↦ ground (arith, e) | inr ne ↦ ground (arith, ne) ] in
    let none_ = error_answer-none packet (omega (arith, length-answer_packet r got)) in
    ap (read_answer tr) (take-answer_packet r rest)
    ∙ rw (enough, unmarshal_connect-answer_packet r got f, test, none_) refl
