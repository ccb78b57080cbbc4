-- ===== src/Blockchain/Roots.antt =====
-- blockchain/blockchain.go: what the root of the transactions and the hash of a block depend on.
use blockchain_simulator.Base.{
  ◌≡◌, ◌≢◌, refl, sym, ap, ◌∙◌, false, List, [], ◌∷◌, ◌++◌, some, Bytes, bytes_eq, ◌==◌, ==_iff,
  >>=_some, if◌then◌else◌, arith, none,
}
use blockchain_simulator.Structs.Block.{Block, BlockHeader, new_block_of}
use blockchain_simulator.Structs.Transaction.{Tx}
use blockchain_simulator.Storage.Defs.{bucket_eq}
use blockchain_simulator.Blockchain.Chain.{
  ChainEnv, BlockChain, new_block, with_root, next_header, commit_block, get_tx_tree_root, tx_tree,
}
use blockchain_simulator.Blockchain.Saved.{commit_block-parts}

module _ {Time Float Db TrieDb Tr : Type 0} (env : ChainEnv Time Float Db TrieDb Tr) where
  -- The tries have the same content.
  abbrev SameContent : Tr → Tr → Type 0
  SameContent t u = (k : Bytes) → env.trie.get t k ≡ env.trie.get u k

  update-SameContent :
      (k v : Bytes) (t u : Tr)
      → SameContent t u
      → SameContent (env.trie.update k v t) (env.trie.update k v u)
  update-SameContent k v t u same j =
      env.trie.get-update k j v t
      ∙ ap (λ o. if k == j then (if v == [] then none else some v) else o) (same j)
      ∙ sym (env.trie.get-update k j v u)

  tx_tree-SameContent :
      (txs : List (Tx Time Float)) (t u : Tr)
      → SameContent t u
      → SameContent (tx_tree env txs t) (tx_tree env txs u)
  unfolding tx_tree
  tx_tree-SameContent [] t u same = same
  tx_tree-SameContent (tx ∷ txs) t u same =
      tx_tree-SameContent txs _ _ (update-SameContent (env.tx_hash tx) (env.encode_tx tx) t u same)

  tx_tree-append :
      (xs ys : List (Tx Time Float)) (t : Tr)
      → tx_tree env (xs ++ ys) t ≡ tx_tree env ys (tx_tree env xs t)
  unfolding tx_tree
  tx_tree-append [] ys t = refl
  tx_tree-append (x ∷ xs) ys t = tx_tree-append xs ys _

  swap-SameContent :
      (a b v w : Bytes) (t : Tr)
      → (a == b) ≡ false
      → SameContent
          (env.trie.update a v (env.trie.update b w t))
          (env.trie.update b w (env.trie.update a v t))
  swap-SameContent a b v w t apart k =
      rw
        (
          env.trie.get-update a k v (env.trie.update b w t),
          env.trie.get-update b k w t,
          env.trie.get-update b k w (env.trie.update a v t),
          env.trie.get-update a k v t,
        )
        (ground (arith, ==_iff a b, ==_iff a k, ==_iff b k, apart))

  get_tx_tree_root-append :
      (xs ys : List (Tx Time Float))
      → get_tx_tree_root env (xs ++ ys)
        ≡ env.trie.root (tx_tree env ys (tx_tree env xs env.trie.empty))
  unfolding get_tx_tree_root
  get_tx_tree_root-append xs ys = ap env.trie.root (tx_tree-append xs ys env.trie.empty)

  -- Equal content after the last transactions gives equal roots.
  root-same :
      (xs ys zs : List (Tx Time Float))
      → SameContent
          (tx_tree env ys (tx_tree env xs env.trie.empty))
          (tx_tree env zs (tx_tree env xs env.trie.empty))
      → get_tx_tree_root env (xs ++ ys) ≡ get_tx_tree_root env (xs ++ zs)
  root-same xs ys zs same =
      get_tx_tree_root-append xs ys
      ∙ env.trie.root_content _ _ same
      ∙ sym (get_tx_tree_root-append xs zs)

  -- The root of the transactions does not depend on their order: two neighbours with different
  -- hashes change places anywhere in the list, and the root is the same.
  pub get_tx_tree_root-swap :
      (xs ys : List (Tx Time Float)) (a b : Tx Time Float)
      → env.tx_hash a ≢ env.tx_hash b
      → get_tx_tree_root env (xs ++ (a ∷ b ∷ ys)) ≡ get_tx_tree_root env (xs ++ (b ∷ a ∷ ys))
  unfolding get_tx_tree_root tx_tree
  get_tx_tree_root-swap xs ys a b differ =
      let apart : (env.tx_hash b == env.tx_hash a) ≡ false =
        ground (arith, ==_iff (env.tx_hash b) (env.tx_hash a), differ) in
      root-same xs (a ∷ b ∷ ys) (b ∷ a ∷ ys) (
        tx_tree-SameContent ys _ _ (
          swap-SameContent (env.tx_hash b) (env.tx_hash a) (env.encode_tx b) (env.encode_tx a)
            (tx_tree env xs env.trie.empty) apart))

  -- A later transaction with the hash of an earlier one takes its place: the root is that of the
  -- list without the earlier one.
  pub get_tx_tree_root-repeated :
      (xs ys : List (Tx Time Float)) (a b : Tx Time Float)
      → env.tx_hash a ≡ env.tx_hash b
      → get_tx_tree_root env (xs ++ (a ∷ b ∷ ys)) ≡ get_tx_tree_root env (xs ++ (b ∷ ys))
  unfolding get_tx_tree_root tx_tree
  get_tx_tree_root-repeated xs ys a b same =
      let t = tx_tree env xs env.trie.empty in
      let replaced : SameContent
          (env.trie.update (env.tx_hash b) (env.encode_tx b)
            (env.trie.update (env.tx_hash a) (env.encode_tx a) t))
          (env.trie.update (env.tx_hash b) (env.encode_tx b) t) =
        λ k.
          rw
            (
              env.trie.get-update (env.tx_hash b) k (env.encode_tx b)
                  (env.trie.update (env.tx_hash a) (env.encode_tx a) t),
              env.trie.get-update (env.tx_hash a) k (env.encode_tx a) t,
              env.trie.get-update (env.tx_hash b) k (env.encode_tx b) t,
              same,
            )
            (ground arith) in
      root-same xs (a ∷ b ∷ ys) (b ∷ ys) (tx_tree-SameContent ys _ _ replaced)

  -- If no two headers have one hash: a block that `NewBlock` made and `CommitBlock` took, with a
  -- root of the states that is not empty, becomes the current block with a hash that is not the
  -- hash of its header.
  pub commit_block-hash_differs :
      (no_collision : (x y : BlockHeader Time) → env.header_hash x ≡ env.header_hash y → x ≡ y)
      (now : Time) (txs : List (Tx Time Float)) (b c : Block Time (Tx Time Float))
      (bc bc' : BlockChain Time Float Db TrieDb)
      → new_block env now txs bc ≡ some b
      → commit_block env b bc ≡ some bc'
      → bc'.current_block ≡ some c
      → c.header.state_root ≢ []
      → env.header_hash c.header ≢ c.hash
  unfolding new_block
  commit_block-hash_differs no_collision now txs b c bc bc' made done is rooted same =
      let (current, e, h) = >>=_some bc.current_block _ made in
      let is_b : new_block_of env.header_hash (next_header env now txs current) txs ≡ b =
        ground (arith, h) in
      let (current1, m, root, d, e0, e1, e2, e3) = commit_block-parts env b bc bc' done in
      let is_c : with_root env root b ≡ c = ground (arith, ap (λ z. z.current_block) e3, is) in
      let hash_c : env.header_hash (next_header env now txs current) ≡ c.hash =
        ap (λ z. z.hash) is_b ∙ ap (λ z. z.hash) is_c in
      let headers_same : c.header ≡ next_header env now txs current =
        no_collision c.header (next_header env now txs current) (same ∙ sym hash_c) in
      rooted (ap (λ z. z.state_root) headers_same)
