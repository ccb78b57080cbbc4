-- ===== src/Blockchain/Chain.antt =====
-- blockchain/blockchain.go. The storage is the database of storage/storage.go; `now` is the clock's
-- answer. `none` is a panic, which ends the node.
use blockchain_simulator.Base.{Bool, ◌+◌, ◌%◌, ◌^◌, List, [], ◌∷◌, Option, none, some, Bytes, ◌>>=◌}
use blockchain_simulator.Base.Int.{pos}
use blockchain_simulator.Message.{Codec}
use blockchain_simulator.Structs.Account.{Store}
use blockchain_simulator.Structs.Block.{Block, BlockHeader, new_block_of}
use blockchain_simulator.Structs.Transaction.{Tx}
use blockchain_simulator.Storage.Bolt.{Bolt}
use blockchain_simulator.Storage.Defs.{
  Bucket, bucket_eq, Read, found, unreadable, failed, block_not_existed, newest_not_found,
  new_storage, add_block, get_newest_block_hash, get_block,
}
use blockchain_simulator.Blockchain.Trie.{Trie}
use blockchain_simulator.Blockchain.States.{
  StatesConfig, StateManager, new_state_manager, commit_states, update_states,
}

-- The libraries that the chain calls, sha256 of a header, and gob and the hash of a transaction.
pub record ChainEnv (Time Float Db TrieDb Tr : Type 0) : Type 0 where
  pub states_config : StatesConfig
  pub bolt : Bolt Bucket Db
  pub trie : Trie TrieDb Tr
  pub header_hash : BlockHeader Time → Bytes
  pub headers : Codec (BlockHeader Time)
  pub blocks : Codec (Block Time (Tx Time Float))
  pub tx_hash : Tx Time Float → Bytes
  pub encode_tx : Tx Time Float → Bytes

-- `none` is a block that a failed read left without a header.
pub record BlockChain (Time Float Db TrieDb : Type 0) : Type 0 where
  pub current_block : Option (Block Time (Tx Time Float))
  pub storage : Db
  pub state_manager : StateManager TrieDb

module _ {Time Float Db TrieDb Tr : Type 0} (env : ChainEnv Time Float Db TrieDb Tr) where
  unfoldable pub tx_tree : List (Tx Time Float) → Tr → Tr
  tx_tree [] t = t
  tx_tree (tx ∷ txs) t = tx_tree txs (env.trie.update (env.tx_hash tx) (env.encode_tx tx) t)

  unfoldable pub get_tx_tree_root : List (Tx Time Float) → Bytes
  get_tx_tree_root txs = env.trie.root (tx_tree txs env.trie.empty)

  abbrev pub next_header :
      (now : Time) → List (Tx Time Float) → Block Time (Tx Time Float) → BlockHeader Time
  next_header now txs current = record {
    prev_block_hash = current.hash;
    height = (current.header.height + 1) % 2 ^ 64;
    nonce = pos 0;
    time_stamp = now;
    tx_root = get_tx_tree_root txs;
    miner = pos 0;
    state_root = [];
  }

  -- The hash is computed twice, over the same header.
  unfoldable pub new_block :
      (now : Time)
      → List (Tx Time Float)
      → BlockChain Time Float Db TrieDb
      → Option (Block Time (Tx Time Float))
  new_block now txs bc = bc.current_block >>= λ current.
      some (new_block_of env.header_hash (next_header now txs current) txs)

  unfoldable pub new_genisis_block : (now : Time) → Block Time (Tx Time Float)
  new_genisis_block now =
      new_block_of env.header_hash
        (record {
          prev_block_hash = [];
          height = 0;
          nonce = pos 0;
          time_stamp = now;
          tx_root = get_tx_tree_root [];
          miner = pos 0;
          state_root = env.trie.root env.trie.empty;
        })
        []

  -- The errors of the two reads are only logged; a missing newest hash is the empty one.
  unfoldable pub add_genesis_block :
      Block Time (Tx Time Float)
      → BlockChain Time Float Db TrieDb
      → Option (BlockChain Time Float Db TrieDb)
  add_genesis_block b bc = do
    d ← add_block env.bolt env.headers env.blocks b bc.storage
    let newest : Bytes = elim (get_newest_block_hash env.bolt d) [ found h ↦ h | _ ↦ [] ]
    let current : Option (Block Time (Tx Time Float)) =
        elim (get_block env.bolt env.headers env.blocks newest d) [ found x ↦ some x | _ ↦ none ]
    some (record bc { current_block = current; storage = d })

  -- The block after `b.Header.StateRoot` was set; its hash stays.
  abbrev pub with_root : Bytes → Block Time (Tx Time Float) → Block Time (Tx Time Float)
  with_root root b = record b { header = record b.header { state_root = root } }

  unfoldable pub commit_block :
      Block Time (Tx Time Float)
      → BlockChain Time Float Db TrieDb
      → Option (BlockChain Time Float Db TrieDb)
  commit_block b bc = do
    current ← bc.current_block
    (m, root) ← commit_states env.trie env.states_config current.header.state_root bc.state_manager
    d ← add_block env.bolt env.headers env.blocks (with_root root b) bc.storage
    some (record { current_block = some (with_root root b); storage = d; state_manager = m })

  -- The constructor after the block was read, and before that after the newest hash was.
  unfoldable pub load_block :
      Db
      → StateManager TrieDb
      → Read (Block Time (Tx Time Float))
      → Option (BlockChain Time Float Db TrieDb)
  load_block d m (found b) = env.trie.open_at b.header.state_root m.triedb >>= λ st.
      some (record { current_block = some b; storage = d; state_manager = m })
  load_block d m unreadable = none
  load_block d m (failed e) = none

  unfoldable pub load_chain :
      (now : Time)
      → Db
      → StateManager TrieDb
      → Read Bytes
      → Option (BlockChain Time Float Db TrieDb)
  load_chain now d m (found newest) =
      load_block d m (get_block env.bolt env.headers env.blocks newest d)
  load_chain now d m unreadable = none
  load_chain now d m (failed newest_not_found) =
      add_genesis_block (new_genisis_block now)
        (record { current_block = none; storage = d; state_manager = m })
  load_chain now d m (failed block_not_existed) = none

  -- The databases are those that the libraries opened.
  unfoldable pub new_block_chain :
      (now : Time) → Db → TrieDb → Store → Option (BlockChain Time Float Db TrieDb)
  new_block_chain now db triedb h = do
    d ← new_storage env.bolt db
    load_chain now d (new_state_manager triedb h) (get_newest_block_hash env.bolt d)

  -- The states of a block's transactions are updated over the states of the current block, as the
  -- TBD addon of node/runningMod/consensusMod/pbft calls it.
  unfoldable pub update_chain :
      List (Tx Time Float)
      → BlockChain Time Float Db TrieDb
      → Option (BlockChain Time Float Db TrieDb × Bool)
  update_chain txs bc = do
    current ← bc.current_block
    r ← update_states env.trie env.states_config txs current.header.state_root bc.state_manager
    some (record bc { state_manager = r.0 }, r.1)
