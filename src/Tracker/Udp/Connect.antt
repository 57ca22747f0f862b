-- ===== src/Tracker/Udp/Connect.antt =====
-- `connect`: the first exchange with a tracker.
pub mod Answers
use tulva.Prelude.{
  ℕ, zero, suc, ◌+◌, ◌-◌, List, [], ◌∷◌, ◌++◌, Bool, true, false, Option, none, some, if◌then◌else◌,
  not, ◌||◌, ◌==◌, nat_eq, leb, length, replicate, take,
}
use tulva.Tracker.Udp.Packets.{
  action_connect, action_error, initial_connection_id, ConnectRequest, ConnectResponse,
  ErrorResponse, marshal_connect, unmarshal_connect, unmarshal_error,
}

-- The numbers of a tracker that the packets have.
pub record UdpTracker : Type 0 where
  pub connection_id : ℕ
  pub transaction_id : ℕ
  pub info_hash : List ℕ

abbrev pub connect_buffer_size : ℕ
connect_buffer_size = 150

-- What `connect` returns as an error.
pub data ConnectError : Type 0 where
  invalid_response : ConnectError
  tracker_error : List ℕ → ConnectError
  invalid_length : ConnectError

-- The packet that is sent.
unfoldable pub connect_packet : UdpTracker → List ℕ
connect_packet tr = marshal_connect (record {
  connection_id = initial_connection_id;
  action = action_connect;
  transaction_id = tr.transaction_id;
})

-- The buffer after the bytes were read into it.
abbrev pub buffer_with : List ℕ → List ℕ
buffer_with packet = packet ++ replicate (connect_buffer_size - length packet) 0

-- The case of an error packet, with `error.Message` in the error.
abbrev pub error_answer : List ℕ → Option ConnectError
error_answer packet = elim (unmarshal_error (buffer_with packet)) [
  | none ↦ some (tracker_error [])
  | some e ↦ none
]

-- What `connect` makes of the bytes that were read into the buffer: the error, none for `nil`, and the tracker.
unfoldable pub read_answer : UdpTracker → List ℕ → Option ConnectError × UdpTracker
read_answer tr packet =
    if leb 16 (length packet)
    then elim (unmarshal_connect packet) [
      | none ↦ (some invalid_response, tr)
      | some response ↦
          if response.action == action_error || not (tr.transaction_id == response.transaction_id)
          then (error_answer packet, tr)
          else (none, record tr { connection_id = response.connection_id })
    ]
    else (some invalid_length, tr)

-- The answer to a packet that comes in: `request` reads as much of it as the buffer takes.
unfoldable pub connect_answer : UdpTracker → List ℕ → Option ConnectError × UdpTracker
unfolding read_answer
connect_answer tr packet = read_answer tr (take connect_buffer_size packet)
