-- ===== src/Structs/Block.antt =====
-- structs/block.go. `Time` is time.Time, `Tx` the type of transactions; a header's hash is sha256 of
-- its encoding, which is a parameter. `height` is the 64-bit pattern of an int64.
use blockchain_simulator.Base.{ℕ, List, Bytes}
use blockchain_simulator.Base.Int.{ℤ}

pub record BlockHeader (Time : Type 0) : Type 0 where
  pub prev_block_hash : Bytes
  pub height : ℕ
  pub nonce : ℤ
  pub time_stamp : Time
  pub tx_root : Bytes
  pub miner : ℤ
  pub state_root : Bytes

pub record Block (Time Tx : Type 0) : Type 0 where
  pub header : BlockHeader Time
  pub transactions : List Tx
  pub hash : Bytes

module _ {Time Tx : Type 0} (header_hash : BlockHeader Time → Bytes) where
  abbrev pub new_block_of : BlockHeader Time → List Tx → Block Time Tx
  new_block_of header txs = record {
    header = header;
    transactions = txs;
    hash = header_hash header;
  }
