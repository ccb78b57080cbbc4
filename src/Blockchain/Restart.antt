-- ===== src/Blockchain/Restart.antt =====
-- blockchain/blockchain.go: what a node that starts again finds.
use blockchain_simulator.Base.{
  ◌≡◌, refl, Bool, List, [], some, Bytes, bytes_eq, ==_refl, >>=_some, arith,
}
use blockchain_simulator.Structs.Account.{Store}
use blockchain_simulator.Structs.Block.{Block}
use blockchain_simulator.Structs.Transaction.{Tx}
use blockchain_simulator.Storage.Defs.{
  Bucket, bucket_eq, block_bucket, newest_block_hash_bucket, Read, found, unreadable, failed,
  block_not_existed, newest_not_found, newest_key, new_storage, add_block, get_newest_block_hash,
  get_block,
}
use blockchain_simulator.Storage.Reads.{
  get_block-add_block, get_newest_block_hash-add_block, new_storage-keeps,
}
use blockchain_simulator.Blockchain.States.{StateManager, new_state_manager, update_states}
use blockchain_simulator.Blockchain.Updates.{update_states-triedb}
use blockchain_simulator.Blockchain.Chain.{
  ChainEnv, BlockChain, new_genisis_block, add_genesis_block, commit_block, new_block_chain,
  load_block, load_chain, update_chain,
}
use blockchain_simulator.Blockchain.Saved.{
  IsSavedAs, IsSaved, add_block-IsSavedAs, commit_block-IsSaved,
}

module _ {Time Float Db TrieDb Tr : Type 0} (env : ChainEnv Time Float Db TrieDb Tr) where
  -- A storage that names a block, and can open its states, gives the chain at that block.
  new_block_chain-found :
      (now : Time) (db : Db) (triedb : TrieDb) (h : Store) (b : Block Time (Tx Time Float))
      → IsSavedAs env b db triedb
      → (d : Db) × (new_block_chain env now db triedb h
          ≡ some (record {
            current_block = some b;
            storage = d;
            state_manager = new_state_manager triedb h;
          }))
        × ((n : Bucket) (k : Bytes) → env.bolt.get n k d ≡ env.bolt.get n k db)
  unfolding new_block_chain load_chain load_block get_newest_block_hash get_block new_state_manager
  new_block_chain-found now db triedb h b (k, newest, reads, (u, opens)) =
      let (d, e, ready, same) = new_storage-keeps env.bolt db in
      let newest_d : get_newest_block_hash env.bolt d ≡ found k =
        rw (same newest_block_hash_bucket newest_key, get_newest_block_hash) newest in
      let reads_d : get_block env.bolt env.headers env.blocks k d ≡ found b =
        rw (same block_bucket k, get_block) reads in
      (d, rw (e, newest_d, reads_d, opens) refl, same)

  pub add_genesis_block-reads :
      (b : Block Time (Tx Time Float)) (bc : BlockChain Time Float Db TrieDb) (d : Db)
      → add_block env.bolt env.headers env.blocks b bc.storage ≡ some d
      → add_genesis_block env b bc ≡ some (record bc { current_block = some b; storage = d })
  unfolding add_genesis_block
  add_genesis_block-reads b bc d e =
      rw
        (
          e,
          get_newest_block_hash-add_block env.bolt env.headers env.blocks b bc.storage d e,
          get_block-add_block env.bolt env.headers env.blocks b bc.storage d e b.hash,
          ==_refl b.hash,
        )
        refl

  add_genesis_block-IsSaved :
      (b : Block Time (Tx Time Float)) (bc bc' : BlockChain Time Float Db TrieDb)
      → add_genesis_block env b bc ≡ some bc'
      → ((u : Tr) × (env.trie.open_at b.header.state_root bc.state_manager.triedb ≡ some u))
      → IsSaved env bc'
  unfolding add_genesis_block
  add_genesis_block-IsSaved b bc bc' h opened =
      let (d, e, h1) = >>=_some (add_block env.bolt env.headers env.blocks b bc.storage) _ h in
      let is : record bc { current_block = some b; storage = d } ≡ bc' =
        ground (arith, add_genesis_block-reads b bc d e, h) in
      rw⁻¹ is (b, refl, add_block-IsSavedAs env b bc.storage d bc.state_manager.triedb e opened)

  load_block-IsSaved :
      (d : Db) (m : StateManager TrieDb) (k : Bytes) (r : Read (Block Time (Tx Time Float)))
      (bc : BlockChain Time Float Db TrieDb)
      → get_newest_block_hash env.bolt d ≡ found k
      → get_block env.bolt env.headers env.blocks k d ≡ r
      → load_block env d m r ≡ some bc
      → IsSaved env bc
  unfolding load_block
  load_block-IsSaved d m k (found b) bc newest reads h =
      let (u, opens, h1) = >>=_some (env.trie.open_at b.header.state_root m.triedb) _ h in
      let is : record { current_block = some b; storage = d; state_manager = m } ≡ bc =
        ground (arith, h1) in
      rw⁻¹ is (b, refl, (k, newest, reads, (u, opens)))
  load_block-IsSaved d m k unreadable bc newest reads h = ground (arith, h)
  load_block-IsSaved d m k (failed e) bc newest reads h = ground (arith, h)

  load_chain-IsSaved :
      (now : Time) (d : Db) (m : StateManager TrieDb) (r : Read Bytes)
      (bc : BlockChain Time Float Db TrieDb)
      → get_newest_block_hash env.bolt d ≡ r
      → load_chain env now d m r ≡ some bc
      → IsSaved env bc
  unfolding load_chain load_block new_genisis_block
  load_chain-IsSaved now d m (found newest) bc e h =
      load_block-IsSaved d m newest (get_block env.bolt env.headers env.blocks newest d) bc e refl h
  load_chain-IsSaved now d m unreadable bc e h = ground (arith, h)
  load_chain-IsSaved now d m (failed newest_not_found) bc e h =
      add_genesis_block-IsSaved (new_genisis_block env now) _ bc h (env.trie.open_at-empty m.triedb)
  load_chain-IsSaved now d m (failed block_not_existed) bc e h = ground (arith, h)

  update_chain-IsSaved :
      (txs : List (Tx Time Float)) (bc bc' : BlockChain Time Float Db TrieDb) (flag : Bool)
      → update_chain env txs bc ≡ some (bc', flag)
      → IsSaved env bc
      → IsSaved env bc'
  unfolding update_chain
  update_chain-IsSaved txs bc bc' flag h (b, is, (k, newest, reads, (u, opens))) =
      let (current, e, h1) = >>=_some bc.current_block _ h in
      let (r, e1, h2) =
        >>=_some
          (update_states env.trie env.states_config txs current.header.state_root bc.state_manager)
          _ h1 in
      let same : record bc { state_manager = r.0 } ≡ bc' = ground (arith, h2) in
      let kept : r.0.triedb ≡ bc.state_manager.triedb =
        update_states-triedb env.trie env.states_config txs current.header.state_root
          bc.state_manager r e1 in
      rw⁻¹ same (b, is, (k, newest, reads, (u, rw kept opens)))

  -- The chains of a node: the constructor gives one, on any databases, and an update of the states
  -- and `CommitBlock` the next.
  pub data Lives : BlockChain Time Float Db TrieDb → Type 0 where
    started :
        (now : Time) (db : Db) (triedb : TrieDb) (h : Store) {bc : BlockChain Time Float Db TrieDb}
        → new_block_chain env now db triedb h ≡ some bc
        → Lives bc
    updated :
        (txs : List (Tx Time Float)) {bc bc' : BlockChain Time Float Db TrieDb} {flag : Bool}
        → Lives bc
        → update_chain env txs bc ≡ some (bc', flag)
        → Lives bc'
    committed :
        (b : Block Time (Tx Time Float)) {bc bc' : BlockChain Time Float Db TrieDb}
        → Lives bc
        → commit_block env b bc ≡ some bc'
        → Lives bc'

  Lives-IsSaved : {bc : BlockChain Time Float Db TrieDb} → Lives bc → IsSaved env bc
  unfolding new_block_chain
  Lives-IsSaved (started now db triedb h {bc} e) =
      let (d, e1, h1) = >>=_some (new_storage env.bolt db) _ e in
      load_chain-IsSaved now d _ _ bc refl h1
  Lives-IsSaved (updated txs {bc} {bc'} {flag} life e) =
      update_chain-IsSaved txs bc bc' flag e (Lives-IsSaved life)
  Lives-IsSaved (committed b {bc} {bc'} life e) =
      commit_block-IsSaved env b bc bc' e (Lives-IsSaved life)

  -- A node that was started on any databases, updated its states for any
  -- transactions and committed any blocks has a current block, and
  -- when it is started again on its databases, the constructor does not panic, whatever the time
  -- and the integers, and gives a chain with the same current block and with no dirty state.
  pub restart_recovers :
      (now : Time) (h : Store) {bc : BlockChain Time Float Db TrieDb}
      → Lives bc
      → (b : Block Time (Tx Time Float)) × (bc' : BlockChain Time Float Db TrieDb)
        × (bc.current_block ≡ some b)
        × (new_block_chain env now bc.storage bc.state_manager.triedb h ≡ some bc')
        × (bc'.current_block ≡ some b)
        × (bc'.state_manager.dirty_state ≡ [])
  unfolding new_state_manager
  restart_recovers now h {bc} life =
      let (b, is, saved) = Lives-IsSaved life in
      let (d, e, same) = new_block_chain-found now bc.storage bc.state_manager.triedb h b saved in
      (b, _, is, e, refl, refl)
