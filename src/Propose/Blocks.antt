-- ===== src/Propose/Blocks.antt =====
-- node/runningMod/consensusMod/proposeBlock.go: which block is proposed, and when.
use blockchain_simulator.Base.{
  ℕ, ◌≤◌, ◌≡◌, refl, ap, ◌∙◌, true, false, List, [], ◌∷◌, ◌++◌, none, some, length, take, drop, ltb,
  if◌then◌else◌, ◌>>=◌, ◌+◌, ◌<◌, ◌%◌, ◌^◌, ltb→lt, take-append-drop, length-take, arith,
  Bool-cases, inl, inr, ◌⊎◌,
}
use blockchain_simulator.Message.{Message, msg_propose}
use blockchain_simulator.Structs.Block.{Block, new_block_of}
use blockchain_simulator.Structs.TxPool.{TxPool, get_enough_txs, size}
use blockchain_simulator.Structs.Transaction.{Tx}
use blockchain_simulator.Blockchain.Chain.{
  ChainEnv, BlockChain, new_block, next_header, get_tx_tree_root,
}
use blockchain_simulator.Propose.Txs.{
  ProposeEnv, propose_block_answer, propose_message, try_propose_block,
}
use blockchain_simulator.Propose.Order.{content_of, content_of-propose_message}

module _ {S Float Db TrieDb Tr : Type 0} (env : ProposeEnv S (Tx ℕ Float))
    (chain : ChainEnv ℕ Float Db TrieDb Tr) where
  -- What a receiver reads from a message with a block behind the current one: from 100 to 500
  -- transactions, the first of the pool.
  abbrev pub IsProposalOf :
      Message
      → Block ℕ (Tx ℕ Float)
      → (current : Block ℕ (Tx ℕ Float)) → (p q : TxPool (Tx ℕ Float)) → Type 0
  IsProposalOf m b current p q =
      (m.msg_type ≡ msg_propose)
      × (content_of env m ≡ some (chain.blocks.encode b))
      × (chain.blocks.decode (chain.blocks.encode b) ≡ some b)
      × (b.transactions ++ q.txs ≡ p.txs)
      × (100 ≤ length b.transactions)
      × (length b.transactions ≤ 500)
      × (b.header.prev_block_hash ≡ current.hash)
      × (b.header.height ≡ (current.header.height + 1) % 2 ^ 64)
      × (b.header.tx_root ≡ get_tx_tree_root chain b.transactions)
      × (b.hash ≡ chain.header_hash b.header)

  new_block-after :
      (now : ℕ) (txs : List (Tx ℕ Float)) (bc : BlockChain ℕ Float Db TrieDb)
      (current : Block ℕ (Tx ℕ Float))
      → bc.current_block ≡ some current
      → new_block chain now txs bc
        ≡ some (new_block_of chain.header_hash (next_header chain now txs current) txs)
  unfolding new_block
  new_block-after now txs bc current is =
      ap (λ o. o >>= λ z. some (new_block_of chain.header_hash (next_header chain now txs z) txs))
        is

  abbrev taken : TxPool (Tx ℕ Float) → ℕ
  taken p = if ltb (size p) 500 then size p else 500

  get_enough_txs-few :
      (p : TxPool (Tx ℕ Float)) → ltb (size p) 100 ≡ true → get_enough_txs 100 500 p ≡ (none, p)
  unfolding get_enough_txs
  get_enough_txs-few p few = rw few refl

  get_enough_txs-enough :
      (p : TxPool (Tx ℕ Float))
      → ltb (size p) 100 ≡ false
      → get_enough_txs 100 500 p
        ≡ (some (take (taken p) p.txs), record p { txs = drop (taken p) p.txs })
  unfolding get_enough_txs
  get_enough_txs-enough p enough = rw enough refl

  -- On a chain with a current block: below 100 transactions nothing is proposed and the pool is
  -- left alone; from 100 on one message is handed to the node's own handler, with a block behind
  -- the current one that has the first transactions of the pool, at most 500, and these leave the
  -- pool.
  pub try_propose_block_correct :
      (now : ℕ) (bc : BlockChain ℕ Float Db TrieDb) (p : TxPool (Tx ℕ Float))
      (current : Block ℕ (Tx ℕ Float))
      → bc.current_block ≡ some current
      → ((length p.txs < 100) × (try_propose_block env chain now bc p ≡ some ([], p)))
        ⊎ ((m : Message) × (b : Block ℕ (Tx ℕ Float)) × (q : TxPool (Tx ℕ Float))
            × (try_propose_block env chain now bc p ≡ some (m ∷ [], q))
            × IsProposalOf m b current p q)
  unfolding try_propose_block propose_block_answer
  try_propose_block_correct now bc p current is = elim (Bool-cases (ltb (size p) 100)) [
    | inl few ↦ inl (
      ltb→lt (size p) 100 few,
      ap (propose_block_answer env chain now bc) (get_enough_txs-few p few),
    )
    | inr enough ↦
        let txs = take (taken p) p.txs in
        let q : TxPool (Tx ℕ Float) = record p { txs = drop (taken p) p.txs } in
        let b = new_block_of chain.header_hash (next_header chain now txs current) txs in
        let m = propose_message env now (chain.blocks.encode b) in
        inr (
          m,
          b,
          q,
          ap (propose_block_answer env chain now bc) (get_enough_txs-enough p enough)
              ∙ ap (λ o. o >>= λ x. some (propose_message env now (chain.blocks.encode x) ∷ [], q))
                  (new_block-after now txs bc current is),
          (
            refl,
            content_of-propose_message env now (chain.blocks.encode b),
            chain.blocks.decode-encode b,
            take-append-drop (taken p) p.txs,
            ground (arith, length-take (taken p) p.txs, enough),
            ground (arith, length-take (taken p) p.txs),
            refl,
            refl,
            refl,
            refl,
          ),
        )
  ]
