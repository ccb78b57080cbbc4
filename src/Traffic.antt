-- ===== src/Traffic.antt =====
-- node/runningMod/clientMod: sendMimicAccountTxs.go, sendMimicContractTxs.go, sendTxTest.go and
-- stopSystem.go, the clients that send without being asked. The wait for the nodes' ports and the
-- tickers are left out: a turn is what one tick does. Random bytes are given; encoding/hex writes
-- a byte as two of the digits 0-9 and a-f.
pub mod Shards
pub mod Addresses
use blockchain_simulator.Base.{
  ℕ, zero, suc, ◌+◌, ◌/◌, ◌%◌, Bool, false, List, [], ◌∷◌, ◌++◌, Option, none, some, Bytes, Map,
  lookup, insert, Eq, ltb, nat_eq, if◌then◌else◌, ◌>>=◌,
}
use blockchain_simulator.Base.Int.{ℤ, pos, negsuc, ℤ-eq}
use blockchain_simulator.Message.{Message, msg_inject, msg_stop}
use blockchain_simulator.P2p.{Effect, sends}
use blockchain_simulator.Utils.Shard.{ShardConfig, addr_2_shard}
use blockchain_simulator.Structs.Transaction.{
  Tx, AccountTransaction, ContractTransaction, to, new_account_transaction,
  new_contract_transaction, account_tx, contract_tx,
}
use blockchain_simulator.Config.{IpMap, node_ip}

abbrev pub digit : ℕ → ℕ
digit n = if ltb n 10 then 48 + n else 87 + n

unfoldable pub hex_encode : Bytes → Bytes
hex_encode [] = []
hex_encode (b ∷ bs) = digit (b / 16) ∷ digit (b % 16) ∷ hex_encode bs

-- A message to every node of every shard, one after the other. The address of a node that the map
-- does not have is the empty text.
module _ {Addr : Type 0} (no_addr : Addr) (ips : IpMap Addr) where
  abbrev pub ip_of : ℕ → ℕ → Addr
  ip_of i j = elim (node_ip ips i j) [ none ↦ no_addr | some ip ↦ ip ]

  unfoldable pub to_shard : (count i j : ℕ) → Message → List (Effect Addr)
  to_shard zero i j m = []
  to_shard (suc n) i j m = sends (ip_of i j) m ∷ to_shard n i (suc j) m

  unfoldable pub to_shards : (node_num count i : ℕ) → Message → List (Effect Addr)
  to_shards node_num zero i m = []
  to_shards node_num (suc n) i m = to_shard node_num i 0 m ++ to_shards node_num n (suc i) m

  -- Run of StopSystemAuxiliaryMod, when its context is done.
  abbrev pub stop_system : (shard_num node_num : ℕ) → List (Effect Addr)
  stop_system shard_num node_num =
      to_shards node_num shard_num 0 (record { msg_type = msg_stop; content = [] })

  -- A tick of sendTxTestMod, with its two transactions encoded.
  abbrev pub send_tx_test : (txs : Bytes) (shard_num node_num : ℕ) → List (Effect Addr)
  send_tx_test txs shard_num node_num =
      to_shards node_num shard_num 0 (record { msg_type = msg_inject; content = txs })

-- `txsToSend[sid] = append(txsToSend[sid], tx)`, where a missing entry is made empty first.
module _ {T : Type 0} where
  unfoldable pub append_tx : ℤ → T → Map ℤ (List T) → Map ℤ (List T)
  append_tx sid tx m =
      insert sid ((elim (lookup sid m) [ none ↦ [] | some txs ↦ txs ]) ++ (tx ∷ [])) m

  -- Each transaction with its shard; `none` is a panic in Addr2Shard.
  unfoldable pub group_txs : (T → Option ℤ) → List T → Map ℤ (List T) → Option (Map ℤ (List T))
  group_txs shard [] m = some m
  group_txs shard (tx ∷ txs) m = shard tx >>= λ sid. group_txs shard txs (append_tx sid tx m)

  -- One message for an entry of the map, to the first node of its shard.
  unfoldable pub inject_all :
      {Addr : Type 0} → (List T → Bytes) → (ℤ → Addr) → Map ℤ (List T) → List (Effect Addr)
  inject_all encode ip [] = []
  inject_all encode ip ((sid, txs) ∷ m) =
      sends (ip sid) (record { msg_type = msg_inject; content = encode txs })
      ∷ inject_all encode ip m

-- What is drawn for a transaction: 20 bytes for each address, the time, and whether it crosses
-- shards, which happens if the random number is below 0.5.
pub record Draw (Time : Type 0) : Type 0 where
  pub sender : Bytes
  pub recipient : Bytes
  pub now : Time
  pub crosses : Bool

abbrev pub random_addr : Bytes → Bytes
random_addr raw = hex_encode raw

abbrev pub first_ip : {Addr : Type 0} → Addr → IpMap Addr → ℤ → Addr
first_ip no_addr ips (pos i) = ip_of no_addr ips i 0
first_ip no_addr ips (negsuc i) = no_addr

module _ {Time Float : Type 0} where
  unfoldable pub generate_mimic_account_txs :
      (sum : AccountTransaction Time → Bytes) → List (Draw Time) → List (Tx Time Float)
  generate_mimic_account_txs sum [] = []
  generate_mimic_account_txs sum (d ∷ ds) =
      account_tx (
        new_account_transaction sum d.now (random_addr d.sender) (random_addr d.recipient) (pos 0)
          (pos 0))
      ∷ generate_mimic_account_txs sum ds

  -- The code of a mimic contract is the text `code..`.
  unfoldable pub generate_mimic_contract_txs :
      (sum : ContractTransaction Time → Bytes) → List (Draw Time) → List (Tx Time Float)
  generate_mimic_contract_txs sum [] = []
  generate_mimic_contract_txs sum (d ∷ ds) =
      contract_tx (
        new_contract_transaction sum (random_addr d.sender) (random_addr d.recipient) (pos 0) d.now
          (99 ∷ 111 ∷ 100 ∷ 101 ∷ 46 ∷ 46 ∷ []) [] d.crosses)
      ∷ generate_mimic_contract_txs sum ds

  -- Addr2Shard of the first recipient; a transaction without one is a panic.
  unfoldable pub shard_of : ShardConfig → Tx Time Float → Option ℤ
  shard_of c tx = elim (to tx) [ [] ↦ none | addr ∷ _ ↦ addr_2_shard c addr ]

  -- A tick of the two clients that send mimic transactions.
  unfoldable pub mimic_turn :
      {Addr : Type 0}
      → ShardConfig
      → (List (Tx Time Float) → Bytes)
      → Addr
      → IpMap Addr
      → List (Tx Time Float)
      → Option (List (Effect Addr))
  mimic_turn c encode no_addr ips txs =
      group_txs (shard_of c) txs [] >>= λ m. some (inject_all encode (first_ip no_addr ips) m)
