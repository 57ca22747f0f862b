-- ===== src/Pieces.antt =====
-- piece.go: the messages about pieces and blocks that the goroutines exchange. A byte slice is a list
-- of numbers; the channel that carries an answer is left out.
use tulva.Prelude.{ℕ, List, String}

pub record Piece : Type 0 where
  pub index : ℕ
  pub bytes : List ℕ
  pub peer_name : String

-- The three numbers are uint32.
pub record BlockInfo : Type 0 where
  pub piece_index : ℕ
  pub begin : ℕ
  pub length : ℕ

pub record BlockResponse : Type 0 where
  pub info : BlockInfo
  pub bytes : List ℕ

pub record RequestPiece : Type 0 where
  pub piece_num : ℕ
  pub expected_hash : List ℕ

pub record HavePiece : Type 0 where
  pub piece_num : ℕ
  pub peer_name : String

pub record CancelPiece : Type 0 where
  pub piece_num : ℕ

pub record ReceivedPiece : Type 0 where
  pub piece_num : ℕ
  pub peer_name : String
