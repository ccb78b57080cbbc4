-- ===== src/Blockchain/Node.antt =====
-- pbft/addon_tbd.go over blockchain/blockchain.go: the addon of a node and its chain.
use blockchain_simulator.Base.{
  ℕ, ◌≡◌, Bool, List, Option, none, some, Bytes, ◌>>=◌, Option-cases, inl, inr,
}
use mathlib.Core.Path.{subst}
use blockchain_simulator.Message.{Request}
use blockchain_simulator.Structs.Account.{Store}
use blockchain_simulator.Structs.Block.{Block}
use blockchain_simulator.Structs.Transaction.{Tx}
use blockchain_simulator.Pbft.Addons.{TbdEnv, new_tbd_state}
use blockchain_simulator.Pbft.Addons.Turns.{Call, calls, calls_keep}
use blockchain_simulator.Blockchain.Chain.{
  ChainEnv, BlockChain, update_chain, commit_block, new_block_chain,
}
use blockchain_simulator.Blockchain.Restart.{Lives, started, updated, committed, restart_recovers}

module _ {Time Float Db TrieDb Tr : Type 0} (chain : ChainEnv Time Float Db TrieDb Tr) where
  -- The chain of a node, `none` when a panic has ended the node.
  abbrev pub NodeChain : Type 0
  NodeChain = Option (BlockChain Time Float Db TrieDb)

  -- The answer of `UpdateStates` is not read.
  unfoldable pub update_node : Block Time (Tx Time Float) → NodeChain → NodeChain
  update_node b c = do bc ← c; r ← update_chain chain b.transactions bc; some r.0

  unfoldable pub commit_node : Block Time (Tx Time Float) → NodeChain → NodeChain
  commit_node b c = c >>= commit_block chain b

  -- The node has stopped, or its chain is one that a node has.
  abbrev pub StoppedOrLives : NodeChain → Type 0
  StoppedOrLives none = Unit
  StoppedOrLives (some bc) = Lives chain bc

  update_node-StoppedOrLives :
      (b : Block Time (Tx Time Float)) (c : NodeChain)
      → StoppedOrLives c
      → StoppedOrLives (update_node b c)
  unfolding update_node
  update_node-StoppedOrLives b none lives = tt
  update_node-StoppedOrLives b (some bc) lives =
      elim (Option-cases (update_chain chain b.transactions bc)) [
        | inl e ↦ rw e tt
        | inr (r, e) ↦ rw e (updated b.transactions lives e)
      ]

  commit_node-StoppedOrLives :
      (b : Block Time (Tx Time Float)) (c : NodeChain)
      → StoppedOrLives c
      → StoppedOrLives (commit_node b c)
  unfolding commit_node
  commit_node-StoppedOrLives b none lives = tt
  commit_node-StoppedOrLives b (some bc) lives = elim (Option-cases (commit_block chain b bc)) [
    | inl e ↦ rw e tt
    | inr (bc', e) ↦ rw e (committed b lives e)
  ]

module _ {S Addr Time Float Db TrieDb Tr : Type 0} (chain : ChainEnv Time Float Db TrieDb Tr) where
  -- The chain behind the addon.
  abbrev pub chain_env :
      (is_view_node : Bool) (client_addr : Addr) (encode_reply : Request S → ℕ → Bytes)
      → TbdEnv S Addr (NodeChain chain) (Block Time (Tx Time Float))
  chain_env is_view_node client_addr encode_reply = record {
    decode_block = chain.blocks.decode;
    update_states = update_node chain;
    commit_block = commit_node chain;
    is_view_node = is_view_node;
    client_addr = client_addr;
    encode_reply = encode_reply;
  }

  -- A node that was started on any databases, whose TBD addon was then called in any order and any
  -- number of times: unless a panic has ended it, when it is started again on its databases the
  -- constructor gives a chain with the same current block.
  pub addon_restart_recovers :
      (view : Bool) (client : Addr) (encode_reply : Request S → ℕ → Bytes) (cs : List (Call S))
      (now again : Time) (db : Db) (triedb : TrieDb) (h h' : Store)
      (bc bc' : BlockChain Time Float Db TrieDb)
      → new_block_chain chain now db triedb h ≡ some bc
      → (calls (chain_env view client encode_reply) cs (new_tbd_state (some bc))).0.chain ≡ some bc'
      → (b : Block Time (Tx Time Float)) × (bc2 : BlockChain Time Float Db TrieDb)
        × (bc'.current_block ≡ some b)
        × (new_block_chain chain again bc'.storage bc'.state_manager.triedb h' ≡ some bc2)
        × (bc2.current_block ≡ some b)
  addon_restart_recovers view client encode_reply cs now again db triedb h h' bc bc' made is =
      let kept =
        calls_keep (chain_env view client encode_reply) (StoppedOrLives chain)
          (update_node-StoppedOrLives chain) (commit_node-StoppedOrLives chain) cs
          (new_tbd_state (some bc)) (started now db triedb h made) in
      let lives : StoppedOrLives chain (some bc') = subst (StoppedOrLives chain) is kept in
      let (b, bc2, e, restarts, same, clean) = restart_recovers chain again h' {bc = bc'} lives in
      (b, bc2, e, restarts, same)
