-- ===== src/Tests/Chains.antt =====
-- A node that starts on empty databases, makes a block, commits it and starts again.
use blockchain_simulator.Base.{
  ℕ, ◌≡◌, ◌≢◌, refl, true, false, [], ◌∷◌, none, some, Bytes, Map, bytes_eq, ◌==◌, lookup,
  if◌then◌else◌, arith,
}
use blockchain_simulator.Base.Int.{pos}
use blockchain_simulator.Message.{Request, req_verify_txs}
use blockchain_simulator.Structs.Block.{Block, new_block_of}
use blockchain_simulator.Structs.Transaction.{Tx, account_tx}
use blockchain_simulator.Storage.Defs.{
  Bucket, bucket_eq, block_bucket, block_header_bucket, newest_block_hash_bucket, utxo_bucket,
  coding_schema_bucket, chunk_bucket, newest_key, found, failed, newest_not_found, new_storage,
  put_block, add_block_header, update_newest_block_hash, add_block, get_block, get_block_header,
  get_newest_block_hash, read_block,
}
use blockchain_simulator.Storage.Reads.{IsReady, add_block_correct}
use blockchain_simulator.Blockchain.States.{
  StateManager, new_state_manager, update_states, commit_states,
}
use blockchain_simulator.Blockchain.Updates.{any_stops, stops, ours, update_states_clean}
use blockchain_simulator.Blockchain.Chain.{
  BlockChain, new_block, new_genisis_block, load_chain, new_block_chain, add_genesis_block,
  commit_block, update_chain, get_tx_tree_root, tx_tree,
}
use blockchain_simulator.Blockchain.Linked.{fresh, turn, IsLinked, Grows-IsLinked}
use blockchain_simulator.Blockchain.Roots.{commit_block-hash_differs}
use blockchain_simulator.Blockchain.Node.{
  chain_env, update_node, commit_node, addon_restart_recovers,
}
use blockchain_simulator.Pbft.Addons.{new_tbd_state, tbd_pre_prepare, tbd_commit}
use blockchain_simulator.Pbft.Addons.Turns.{pre_prepares, commits_with, call, calls}
use blockchain_simulator.Utils.Shard.{addr_2_shard, word_of}
use blockchain_simulator.Tests.Blocks.{block_codec, header_codec}
use blockchain_simulator.Tests.Ledger.{
  TestDb, TestTrie, no_db, no_trie, after_put, test_root, test_bolt, test_trie, test_states,
  test_chain, header_no_collision,
}

abbrev pub a_tx : Bytes → Tx ℕ ℕ
a_tx hash = account_tx (record {
  sender = 1 ∷ 2 ∷ 3 ∷ 4 ∷ 5 ∷ 6 ∷ 7 ∷ 8 ∷ [];
  recipient = 8 ∷ 7 ∷ 6 ∷ 5 ∷ 4 ∷ 3 ∷ 2 ∷ 1 ∷ [];
  nounce = pos 0;
  value = pos 9;
  tx_hash = hash;
  time = 3;
  relayed = false;
  original_sender = [];
  final_recipient = [];
  siganature = [];
})

abbrev pub genesis : Block ℕ (Tx ℕ ℕ)
genesis =
    new_block_of header_codec.encode
      (record {
        prev_block_hash = [];
        height = 0;
        nonce = pos 0;
        time_stamp = 5;
        tx_root = test_root no_trie;
        miner = pos 0;
        state_root = test_root no_trie;
      })
      []

abbrev next_block : Block ℕ (Tx ℕ ℕ)
next_block =
    new_block_of header_codec.encode
      (record {
        prev_block_hash = genesis.hash;
        height = 1;
        nonce = pos 0;
        time_stamp = 7;
        tx_root = test_root no_trie;
        miner = pos 0;
        state_root = [];
      })
      []

abbrev next_committed : Block ℕ (Tx ℕ ℕ)
next_committed = record next_block {
  header = record next_block.header { state_root = test_root no_trie };
}

abbrev pub with_bucket : Bucket → TestDb → TestDb
with_bucket n d = record { has = λ m. if n == m then true else d.has m; values = d.values }

abbrev pub empty_storage : TestDb
empty_storage = with_bucket chunk_bucket (
    with_bucket coding_schema_bucket (
      with_bucket utxo_bucket (
        with_bucket newest_block_hash_bucket
          (with_bucket block_header_bucket (with_bucket block_bucket no_db)))))

abbrev pub after_block : Block ℕ (Tx ℕ ℕ) → TestDb → TestDb
after_block b d = after_put newest_block_hash_bucket newest_key b.hash (
    after_put block_header_bucket b.hash (header_codec.encode b.header)
      (after_put block_bucket b.hash (block_codec.encode b) d))

abbrev pub no_states : StateManager (Map Bytes TestTrie)
no_states = record { triedb = []; dirty_state = []; integers = [] }

abbrev pub first_chain : BlockChain ℕ ℕ TestDb (Map Bytes TestTrie)
first_chain = record {
  current_block = some genesis;
  storage = after_block genesis empty_storage;
  state_manager = no_states;
}

abbrev second_chain : BlockChain ℕ ℕ TestDb (Map Bytes TestTrie)
second_chain = record {
  current_block = some next_committed;
  storage = after_block next_committed (after_block genesis empty_storage);
  state_manager = no_states;
}

first_starts : new_block_chain (test_chain true) 5 no_db [] [] ≡ some first_chain
unfolding new_block_chain new_storage load_chain add_genesis_block new_genisis_block
    get_newest_block_hash get_block read_block add_block put_block add_block_header
    update_newest_block_hash new_state_manager get_tx_tree_root tx_tree
first_starts = refl

next_made : new_block (test_chain true) 7 [] first_chain ≡ some next_block
unfolding new_block get_tx_tree_root tx_tree
next_made = refl

next_commits : commit_block (test_chain true) next_block first_chain ≡ some second_chain
unfolding commit_block commit_states add_block put_block add_block_header update_newest_block_hash
next_commits = refl

add_block_correct_example :
    (d' : TestDb) × (add_block test_bolt header_codec block_codec genesis empty_storage ≡ some d')
    × IsReady test_bolt d'
    × (get_newest_block_hash test_bolt d' ≡ found genesis.hash)
    × (get_block test_bolt header_codec block_codec genesis.hash d' ≡ found genesis)
    × (get_block_header test_bolt header_codec block_codec genesis.hash d' ≡ found genesis.header)
    × ((k : Bytes)
        → (genesis.hash == k) ≡ false
        → (get_block test_bolt header_codec block_codec k d'
            ≡ get_block test_bolt header_codec block_codec k empty_storage)
          × (get_block_header test_bolt header_codec block_codec k d'
              ≡ get_block_header test_bolt header_codec block_codec k empty_storage))
add_block_correct_example =
    add_block_correct test_bolt header_codec block_codec genesis empty_storage (refl, refl, refl)
      ((ground arith, ground arith, ground arith), (ground arith, ground arith, ground arith))

empty_newest : get_newest_block_hash test_bolt no_db ≡ failed newest_not_found
unfolding get_newest_block_hash
empty_newest = refl

Grows-IsLinked_example :
    (b : Block ℕ (Tx ℕ ℕ)) × (second_chain.current_block ≡ some b)
    × IsLinked (test_chain true) 1 second_chain.storage b
Grows-IsLinked_example =
    Grows-IsLinked (test_chain true) header_no_collision
      (turn 7 [] (fresh 5 no_db [] [] empty_newest first_starts) next_made next_commits)
      (ground arith)

abbrev next_request : Request ℕ
next_request = record {
  shard_id = 0;
  req_type = req_verify_txs;
  content = block_codec.encode next_block;
  req_time = 0;
  digest = [];
  sig = none;
}

abbrev no_reply : Request ℕ → ℕ → Bytes
no_reply req n = []

next_called :
    (calls
      (chain_env {S = ℕ} {Addr = ℕ} (test_chain true) true 99 no_reply)
      (pre_prepares next_request ∷ commits_with next_request 0 ∷ [])
      (new_tbd_state (some first_chain))).0.chain
    ≡ some second_chain
unfolding calls call tbd_pre_prepare tbd_commit update_node update_chain update_states commit_node
    commit_block commit_states add_block put_block add_block_header update_newest_block_hash
next_called = refl

addon_restart_recovers_example :
    (b : Block ℕ (Tx ℕ ℕ)) × (bc : BlockChain ℕ ℕ TestDb (Map Bytes TestTrie))
    × (second_chain.current_block ≡ some b)
    × (new_block_chain (test_chain true) 8 second_chain.storage [] [] ≡ some bc)
    × (bc.current_block ≡ some b)
addon_restart_recovers_example =
    addon_restart_recovers (test_chain true) true 99 no_reply
      (pre_prepares next_request ∷ commits_with next_request 0 ∷ []) 5 8 no_db [] [] [] first_chain
      second_chain first_starts next_called

update_states_clean_example :
    update_states test_trie (test_states false) (a_tx [] ∷ []) (test_root no_trie) no_states ≡ none
unfolding any_stops stops ours addr_2_shard word_of lookup
update_states_clean_example =
    update_states_clean test_trie (test_states false) (a_tx [] ∷ []) (test_root no_trie) no_states
      no_trie refl refl refl

commit_block-hash_differs_example : header_codec.encode next_committed.header ≢ next_committed.hash
commit_block-hash_differs_example =
    commit_block-hash_differs (test_chain true) header_no_collision 7 [] next_block next_committed
      first_chain second_chain next_made next_commits refl (λ h. ground (arith, h))
