-- ===== src/Blockchain/Saved.antt =====
-- blockchain/blockchain.go: that the current block is saved, and that `CommitBlock` keeps it so.
use blockchain_simulator.Base.{
  ◌≡◌, refl, ap, some, Bytes, bytes_eq, ==_refl, >>=_some, arith, if_cases, inl, inr,
}
use blockchain_simulator.Structs.Block.{Block}
use blockchain_simulator.Structs.Transaction.{Tx}
use blockchain_simulator.Storage.Defs.{
  bucket_eq, found, add_block, get_newest_block_hash, get_block,
}
use blockchain_simulator.Storage.Reads.{get_block-add_block, get_newest_block_hash-add_block}
use blockchain_simulator.Blockchain.States.{StateManager, commit_each, commit_states}
use blockchain_simulator.Blockchain.Chain.{ChainEnv, BlockChain, with_root, commit_block}

module _ {Time Float Db TrieDb Tr : Type 0} (env : ChainEnv Time Float Db TrieDb Tr) where
  -- The newest hash gives the block, and its states can be opened.
  abbrev pub IsSavedAs : Block Time (Tx Time Float) → Db → TrieDb → Type 0
  IsSavedAs b d triedb =
      (k : Bytes) × (get_newest_block_hash env.bolt d ≡ found k)
      × (get_block env.bolt env.headers env.blocks k d ≡ found b)
      × ((u : Tr) × (env.trie.open_at b.header.state_root triedb ≡ some u))

  abbrev pub IsSaved : BlockChain Time Float Db TrieDb → Type 0
  IsSaved bc =
      (b : Block Time (Tx Time Float)) × (bc.current_block ≡ some b)
      × IsSavedAs b bc.storage bc.state_manager.triedb

  -- `CommitBlock` as its parts.
  pub commit_block-parts :
      (b : Block Time (Tx Time Float)) (bc bc' : BlockChain Time Float Db TrieDb)
      → commit_block env b bc ≡ some bc'
      → (current : Block Time (Tx Time Float)) × (m : StateManager TrieDb) × (root : Bytes)
        × (d : Db) × (bc.current_block ≡ some current)
        × (commit_states env.trie env.states_config current.header.state_root bc.state_manager
            ≡ some (m, root))
        × (add_block env.bolt env.headers env.blocks (with_root env root b) bc.storage ≡ some d)
        × (bc' ≡ record {
          current_block = some (with_root env root b);
          storage = d;
          state_manager = m;
        })
  unfolding commit_block
  commit_block-parts b bc bc' h =
      let (current, e, h1) = >>=_some bc.current_block _ h in
      let ((m, root), e1, h2) =
        >>=_some
          (commit_states env.trie env.states_config current.header.state_root bc.state_manager) _
          h1 in
      let (d, e2, h3) =
        >>=_some (add_block env.bolt env.headers env.blocks (with_root env root b) bc.storage) _
          h2 in
      (current, m, root, d, e, e1, e2, ground (arith, h3))

  -- The root that `CommitStates` returns can be opened after it, if the one before could.
  commit_states-opens :
      (root r : Bytes) (m m' : StateManager TrieDb)
      → ((u : Tr) × (env.trie.open_at root m.triedb ≡ some u))
      → commit_states env.trie env.states_config root m ≡ some (m', r)
      → (u : Tr) × (env.trie.open_at r m'.triedb ≡ some u)
  unfolding commit_states
  commit_states-opens root r m m' opened h =
      let c = env.states_config in
      elim (if_cases c.tx_verify_time (some (m, root)) _ h) [
        | inl (timed, e) ↦
            let same_root : root ≡ r = ground (arith, e) in
            let same_db : m.triedb ≡ m'.triedb = ground (arith, e) in
            (opened.0, rw⁻¹ (same_root, same_db) opened.1)
        | inr (timed, e) ↦
            let (st, e0, h0) = >>=_some (env.trie.open_at root m.triedb) _ e in
            let all = commit_each env.trie c m.dirty_state m.integers st in
            let ((r1, d), e1, h1) = >>=_some (env.trie.commit all.1 m.triedb) _ h0 in
            let same_root : r1 ≡ r = ground (arith, h1) in
            let same_db : d ≡ m'.triedb = ground (arith, h1) in
            let (u, is_u, content) = env.trie.open_at-commit all.1 m.triedb d r1 e1 in
            (u, rw⁻¹ (same_root, same_db) is_u)
      ]

  pub add_block-IsSavedAs :
      (b : Block Time (Tx Time Float)) (d d' : Db) (triedb : TrieDb)
      → add_block env.bolt env.headers env.blocks b d ≡ some d'
      → ((u : Tr) × (env.trie.open_at b.header.state_root triedb ≡ some u))
      → IsSavedAs b d' triedb
  add_block-IsSavedAs b d d' triedb e opened = (
    b.hash,
    get_newest_block_hash-add_block env.bolt env.headers env.blocks b d d' e,
    rw (get_block-add_block env.bolt env.headers env.blocks b d d' e b.hash, ==_refl b.hash) refl,
    opened,
  )

  pub commit_block-IsSaved :
      (b : Block Time (Tx Time Float)) (bc bc' : BlockChain Time Float Db TrieDb)
      → commit_block env b bc ≡ some bc'
      → IsSaved bc
      → IsSaved bc'
  commit_block-IsSaved b bc bc' h (old, is_old, (k, newest, reads, opened)) =
      let (current, m, root, d, e, e1, e2, e3) = commit_block-parts b bc bc' h in
      let same : old.header.state_root ≡ current.header.state_root = ground (arith, is_old, e) in
      let opens =
        commit_states-opens current.header.state_root root bc.state_manager m
          (opened.0, rw⁻¹ same opened.1) e1 in
      (
        with_root env root b,
        ap (λ x. x.current_block) e3,
        rw e3 (add_block-IsSavedAs (with_root env root b) bc.storage d m.triedb e2 opens),
      )
