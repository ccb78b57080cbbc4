-- ===== src/Propose/Txs.antt =====
-- proposeTxs.go and proposeBlock.go of node/runningMod/consensusMod: a pool that a client fills, and
-- a loop that takes transactions out and hands a propose message to the node's own handler. `turn`
-- is one pass of the loop; its sleeps are not modelled.
use blockchain_simulator.Base.{ℕ, List, [], ◌∷◌, Option, none, some, Bytes, ◌>>=◌}
use blockchain_simulator.Message.{Codec, Message, Request, msg_propose, req_verify_txs, new_request}
use blockchain_simulator.Structs.TxPool.{
  Transaction, TxPool, new_tx_pool, add_txs, get_batch_of_txs, get_enough_txs,
}
use blockchain_simulator.Structs.Transaction.{Tx, get_time, set_time}
use blockchain_simulator.Blockchain.Chain.{ChainEnv, BlockChain, new_block}

pub record ProposeEnv (S T : Type 0) : Type 0 where
  pub sid : ℕ
  pub block_size : ℕ
  pub transaction : Transaction T
  pub txs_codec : Codec (List T)
  pub request_codec : Codec (Request S)
  pub sum256 : Request S → Bytes

module _ {S T : Type 0} (env : ProposeEnv S T) where
  unfoldable pub new_pool : TxPool T
  new_pool = new_tx_pool env.block_size

  unfoldable pub handle_inject : (now : ℕ) (content : Bytes) → TxPool T → TxPool T
  handle_inject now content p = elim (env.txs_codec.decode content) [
    | none ↦ p
    | some txs ↦ elim txs [ [] ↦ p | x ∷ xs ↦ add_txs env.transaction now (x ∷ xs) p ]
  ]

  abbrev pub propose_message : (now : ℕ) (content : Bytes) → Message
  propose_message now content = record {
    msg_type = msg_propose;
    content = env.request_codec.encode (new_request env.sum256 env.sid req_verify_txs content now);
  }

  unfoldable pub propose_answer : (now : ℕ) → Option (List T) × TxPool T → List Message × TxPool T
  propose_answer now (none, p) = ([], p)
  propose_answer now (some txs, p) = (propose_message now (env.txs_codec.encode txs) ∷ [], p)

  unfoldable pub propose_turn : (now : ℕ) → TxPool T → List Message × TxPool T
  propose_turn now p = propose_answer now (get_batch_of_txs p)

-- The interface of the pool for the transactions of package structs.
abbrev pub pool_transaction : {Float : Type 0} → Transaction (Tx ℕ Float)
pool_transaction = record { get_time = get_time; set_time = set_time }

module _ {S Float Db TrieDb Tr : Type 0} (env : ProposeEnv S (Tx ℕ Float))
    (chain_env : ChainEnv ℕ Float Db TrieDb Tr) where
  -- `none` is the panic of `NewBlock` behind a block without a header.
  unfoldable pub propose_block_answer :
      (now : ℕ)
      → BlockChain ℕ Float Db TrieDb
      → Option (List (Tx ℕ Float)) × TxPool (Tx ℕ Float)
      → Option (List Message × TxPool (Tx ℕ Float))
  propose_block_answer now bc (none, p) = some ([], p)
  propose_block_answer now bc (some txs, p) = new_block chain_env now txs bc >>= λ b.
      some (propose_message env now (chain_env.blocks.encode b) ∷ [], p)

  unfoldable pub try_propose_block :
      (now : ℕ)
      → BlockChain ℕ Float Db TrieDb
      → TxPool (Tx ℕ Float)
      → Option (List Message × TxPool (Tx ℕ Float))
  try_propose_block now bc p = propose_block_answer now bc (get_enough_txs 100 500 p)
