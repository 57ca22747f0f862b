-- ===== src/Tracker/Udp/Packets.antt =====
-- The packets of the tracker protocol, and their bytes.
use tulva.Prelude.{
  ℕ, zero, suc, ◌-◌, ◌/◌, List, [], ◌∷◌, ◌++◌, Option, none, some, if◌then◌else◌, leb, ltb, length,
  take, drop,
}
use tulva.Tracker.{PeerTuple}
use tulva.Tracker.Bytes.{be, read_number, ◌>>=◌}

-- The actions: `Connect`, `Announce`, `Scrape` and `Error`.
abbrev pub action_connect : ℕ
action_connect = 0

abbrev pub action_announce : ℕ
action_announce = 1

abbrev pub action_error : ℕ
action_error = 3

-- 0x41727101980.
abbrev pub initial_connection_id : ℕ
initial_connection_id = 4497486125440

pub record ConnectRequest : Type 0 where
  pub connection_id : ℕ
  pub action : ℕ
  pub transaction_id : ℕ

pub record ConnectResponse : Type 0 where
  pub action : ℕ
  pub transaction_id : ℕ
  pub connection_id : ℕ

pub record ErrorResponse : Type 0 where
  pub action : ℕ
  pub transaction_id : ℕ
  pub message : List ℕ

unfoldable pub marshal_connect : ConnectRequest → List ℕ
marshal_connect r = be 8 r.connection_id ++ be 4 r.action ++ be 4 r.transaction_id

-- Bytes behind the three numbers are not read.
unfoldable pub unmarshal_connect : List ℕ → Option ConnectResponse
unmarshal_connect bytes = do
  action ← read_number 4 bytes
  transaction_id ← read_number 4 action.1
  connection_id ← read_number 8 transaction_id.1
  some (record {
    action = action.0;
    transaction_id = transaction_id.0;
    connection_id = connection_id.0;
  })

-- The first byte of the action is taken for its last. With fewer than 8 bytes a slice is out of range, which `none` does
-- not tell from an error: `connect` gives it the whole of its buffer.
unfoldable pub unmarshal_error : List ℕ → Option ErrorResponse
unmarshal_error [] = none
unmarshal_error (b ∷ bytes) = do
  action ← read_number 4 (0 ∷ 0 ∷ 0 ∷ b ∷ drop 3 bytes)
  transaction_id ← read_number 4 action.1
  some (record { action = action.0; transaction_id = transaction_id.0; message = drop 7 bytes })

pub record AnnounceRequest : Type 0 where
  pub connection_id : ℕ
  pub action : ℕ
  pub transaction_id : ℕ
  pub info_hash : List ℕ
  pub peer_id : List ℕ
  pub downloaded : ℕ
  pub left : ℕ
  pub uploaded : ℕ
  pub event : ℕ
  pub ip_addr : ℕ
  pub key : ℕ
  pub num_want : ℕ
  pub port : ℕ

-- The two hashes have 20 bytes; `num_want` is an int32 as its 32 bits.
unfoldable pub marshal_announce : AnnounceRequest → List ℕ
marshal_announce r =
    be 8 r.connection_id
    ++ be 4 r.action
    ++ be 4 r.transaction_id
    ++ r.info_hash
    ++ r.peer_id
    ++ be 8 r.downloaded
    ++ be 8 r.left
    ++ be 8 r.uploaded
    ++ be 4 r.event
    ++ be 4 r.ip_addr
    ++ be 4 r.key
    ++ be 4 r.num_want
    ++ be 2 r.port

pub record AnnounceResponse : Type 0 where
  pub action : ℕ
  pub transaction_id : ℕ
  pub interval : ℕ
  pub leechers : ℕ
  pub seeders : ℕ
  pub peers : List PeerTuple

-- The loop over as many peers as there are full six bytes; each round reads the address and the port.
unfoldable pub read_peers : ℕ → List ℕ → Option (List PeerTuple)
read_peers zero bytes = some []
read_peers (suc n) bytes =
    let address : Option (List ℕ × List ℕ) =
      if leb 4 (length bytes) then some (take 4 bytes, drop 4 bytes) else none in
    address >>= λ ip. read_number 2 ip.1 >>= λ port.
    read_peers n port.1 >>= λ peers. some (record { ip = ip.0; port = port.0 } ∷ peers)

unfoldable pub unmarshal_announce : List ℕ → Option AnnounceResponse
unfolding read_peers
unmarshal_announce bytes = do
  action ← read_number 4 bytes
  transaction_id ← read_number 4 action.1
  interval ← read_number 4 transaction_id.1
  leechers ← read_number 4 interval.1
  seeders ← read_number 4 leechers.1
  peers ←
      (if ltb 20 (length bytes)
        then read_peers ((length bytes - 20) / 6) (drop 20 bytes)
        else some [])
  some (record {
    action = action.0;
    transaction_id = transaction_id.0;
    interval = interval.0;
    leechers = leechers.0;
    seeders = seeders.0;
    peers = peers;
  })
