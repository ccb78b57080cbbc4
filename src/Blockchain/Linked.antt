-- ===== src/Blockchain/Linked.antt =====
-- blockchain/blockchain.go: blocks made by `NewBlock` and given to `CommitBlock` form a chain.
use blockchain_simulator.Base.{
  ℕ, zero, suc, ◌+◌, ◌^◌, ◌<◌, ◌≡◌, refl, sym, ap, ◌∙◌, false, List, none, some, Bytes, bytes_eq,
  ◌==◌, ==_iff, ==_refl, ◌>>=◌, >>=_some, arith, Bool-cases, inl, inr,
}
use blockchain_simulator.Structs.Account.{Store}
use blockchain_simulator.Structs.Block.{Block, BlockHeader, new_block_of}
use blockchain_simulator.Structs.Transaction.{Tx}
use blockchain_simulator.Storage.Defs.{
  bucket_eq, newest_block_hash_bucket, found, failed, newest_not_found, new_storage, add_block,
  get_newest_block_hash, get_block,
}
use blockchain_simulator.Storage.Reads.{get_block-add_block}
use blockchain_simulator.Storage.Reads.{new_storage-same}
use blockchain_simulator.Storage.Defs.{newest_key}
use blockchain_simulator.Blockchain.States.{new_state_manager}
use blockchain_simulator.Blockchain.Chain.{
  ChainEnv, BlockChain, new_block, new_genisis_block, load_chain, add_genesis_block, with_root,
  next_header, commit_block, new_block_chain,
}
use blockchain_simulator.Blockchain.Saved.{commit_block-parts}
use blockchain_simulator.Blockchain.Restart.{add_genesis_block-reads}

module _ {Time Float Db TrieDb Tr : Type 0} (env : ChainEnv Time Float Db TrieDb Tr) where
  -- The block is in the storage under its hash, at the height `n`, and its hash is that of a header
  -- of this height.
  abbrev pub IsStoredAt : (n : ℕ) → Db → Block Time (Tx Time Float) → Type 0
  IsStoredAt n d b =
      (get_block env.bolt env.headers env.blocks b.hash d ≡ found b)
      × (b.header.height ≡ n)
      × ((x : BlockHeader Time) × (env.header_hash x ≡ b.hash) × (x.height ≡ n))

  -- From the block, the previous hashes lead through stored blocks, each one lower, to a block of
  -- height 0.
  unfoldable pub IsLinked : (n : ℕ) → Db → Block Time (Tx Time Float) → Type 0
  IsLinked zero d b = IsStoredAt zero d b
  IsLinked (suc n) d b =
      IsStoredAt (suc n) d b
      × ((p : Block Time (Tx Time Float)) × (b.header.prev_block_hash ≡ p.hash) × IsLinked n d p)

  -- The chain after `n` blocks: a start on a database without a newest hash, or a block that
  -- `NewBlock` made and `CommitBlock` took.
  pub data Grows : ℕ → BlockChain Time Float Db TrieDb → Type 0 where
    fresh :
        (now : Time) (db : Db) (triedb : TrieDb) (h : Store) {bc : BlockChain Time Float Db TrieDb}
        → get_newest_block_hash env.bolt db ≡ failed newest_not_found
        → new_block_chain env now db triedb h ≡ some bc
        → Grows zero bc
    turn :
        (now : Time) (txs : List (Tx Time Float)) {n : ℕ} {b : Block Time (Tx Time Float)}
        {bc bc' : BlockChain Time Float Db TrieDb}
        → Grows n bc
        → new_block env now txs bc ≡ some b
        → commit_block env b bc ≡ some bc'
        → Grows (suc n) bc'

  module _
      (no_collision : (x y : BlockHeader Time)
        → env.header_hash x ≡ env.header_hash y
        → x ≡ y) where
    apart_by_height :
        (x y : BlockHeader Time) (a b : Bytes)
        → env.header_hash x ≡ a
        → env.header_hash y ≡ b
        → x.height < y.height
        → (b == a) ≡ false
    apart_by_height x y a b ea eb lower = elim (Bool-cases (b == a)) [
      | inl same ↦
          let e : env.header_hash x ≡ env.header_hash y = ea ∙ sym ((==_iff b a).0 same) ∙ sym eb in
          ground (arith, ap (λ z. z.height) (no_collision x y e), lower)
      | inr apart ↦ apart
    ]

    -- A block with a greater height leaves a chain linked.
    add_block-IsLinked :
        (n : ℕ) (new p : Block Time (Tx Time Float)) (y : BlockHeader Time) (d d' : Db)
        → add_block env.bolt env.headers env.blocks new d ≡ some d'
        → env.header_hash y ≡ new.hash
        → n < y.height
        → IsLinked n d p
        → IsLinked n d' p
    unfolding IsLinked
    add_block-IsLinked zero new p y d d' e named higher (reads, height, (x, is, low)) = (
      rw
          (
            get_block-add_block env.bolt env.headers env.blocks new d d' e p.hash,
            apart_by_height x y p.hash new.hash is named (ground (arith, low, higher)),
          )
          reads,
      height,
      (x, is, low),
    )
    add_block-IsLinked (suc n) new p y d d' e named higher
          ((reads, height, (x, is, low)), (q, prev, rest)) =
        (
          (
            rw
                (
                  get_block-add_block env.bolt env.headers env.blocks new d d' e p.hash,
                  apart_by_height x y p.hash new.hash is named (ground (arith, low, higher)),
                )
                reads,
            height,
            (x, is, low),
          ),
          (q, prev, add_block-IsLinked n new q y d d' e named (ground (arith, higher)) rest),
        )

    stored_after :
        (n : ℕ) (b : Block Time (Tx Time Float)) (x : BlockHeader Time) (d d' : Db)
        → add_block env.bolt env.headers env.blocks b d ≡ some d'
        → b.header.height ≡ n
        → env.header_hash x ≡ b.hash
        → x.height ≡ n
        → IsStoredAt n d' b
    stored_after n b x d d' e height is low = (
      rw (get_block-add_block env.bolt env.headers env.blocks b d d' e b.hash, ==_refl b.hash) refl,
      height,
      (x, is, low),
    )

    fresh-IsLinked :
        (now : Time) (db : Db) (triedb : TrieDb) (h : Store) (bc : BlockChain Time Float Db TrieDb)
        → get_newest_block_hash env.bolt db ≡ failed newest_not_found
        → new_block_chain env now db triedb h ≡ some bc
        → (b : Block Time (Tx Time Float)) × (bc.current_block ≡ some b)
          × IsLinked zero bc.storage b
    unfolding new_block_chain load_chain new_genisis_block IsLinked get_newest_block_hash
        add_genesis_block
    fresh-IsLinked now db triedb h bc none_newest e =
        let (d, e1, h1) = >>=_some (new_storage env.bolt db) _ e in
        let still : get_newest_block_hash env.bolt d ≡ failed newest_not_found =
          rw
            (
              new_storage-same env.bolt db d newest_block_hash_bucket newest_key e1,
              get_newest_block_hash,
            )
            none_newest in
        let g = new_genisis_block env now in
        let m = new_state_manager triedb h in
        let bc0 : BlockChain Time Float Db TrieDb = record {
          current_block = none;
          storage = d;
          state_manager = m;
        } in
        let h2 : add_genesis_block env g bc0 ≡ some bc =
          sym (ap (load_chain env now d m) still) ∙ h1 in
        let (d2, e2, h3) = >>=_some (add_block env.bolt env.headers env.blocks g d) _ h2 in
        let is : record bc0 { current_block = some g; storage = d2 } ≡ bc =
          ground (arith, add_genesis_block-reads env g bc0 d2 e2, h2) in
        rw⁻¹ is (g, refl, stored_after zero g g.header d d2 e2 refl refl refl)

    turn-IsLinked :
        (n : ℕ) (now : Time) (txs : List (Tx Time Float)) (b0 b : Block Time (Tx Time Float))
        (bc bc' : BlockChain Time Float Db TrieDb)
        → n + 1 < 2 ^ 64
        → bc.current_block ≡ some b0
        → IsLinked n bc.storage b0
        → b0.header.height ≡ n
        → new_block env now txs bc ≡ some b
        → commit_block env b bc ≡ some bc'
        → (x : Block Time (Tx Time Float)) × (bc'.current_block ≡ some x)
          × IsLinked (suc n) bc'.storage x
    unfolding new_block IsLinked
    turn-IsLinked n now txs b0 b bc bc' small is linked low made done =
        let y = next_header env now txs b0 in
        let is_b : new_block_of env.header_hash y txs ≡ b = ground (
          arith,
          ap (λ o. o >>= λ z. some (new_block_of env.header_hash (next_header env now txs z) txs))
              is,
          made,
        ) in
        let (current, m, root, d, e, e1, e2, e3) = commit_block-parts env b bc bc' done in
        let higher : y.height ≡ suc n = ground (arith, low, small) in
        let named : env.header_hash y ≡ b.hash = ap (λ z. z.hash) is_b in
        let height : b.header.height ≡ suc n = sym (ap (λ z. z.header.height) is_b) ∙ higher in
        let prev : b.header.prev_block_hash ≡ b0.hash =
          sym (ap (λ z. z.header.prev_block_hash) is_b) in
        let next = with_root env root b in
        (
          next,
          ap (λ z. z.current_block) e3,
          rw e3 (
            stored_after (suc n) next y bc.storage d e2 height named higher,
            (
              b0,
              prev,
              add_block-IsLinked n next b0 y bc.storage d e2 named (ground (arith, higher)) linked,
            ),
          ),
        )

    IsLinked-height :
        (n : ℕ) (d : Db) (b : Block Time (Tx Time Float)) → IsLinked n d b → b.header.height ≡ n
    unfolding IsLinked
    IsLinked-height zero d b linked = linked.1
    IsLinked-height (suc n) d b linked = linked.0.1

    -- If no two headers have one hash: after a start on a database without a newest hash and `n`
    -- blocks, fewer than 2 ^ 64, each made by `NewBlock` and taken by `CommitBlock`, the current
    -- block has the height `n`, and the previous hashes lead from it through `n` stored blocks,
    -- each one lower than the one before, to a stored block of height 0.
    pub Grows-IsLinked :
        {n : ℕ} {bc : BlockChain Time Float Db TrieDb}
        → Grows n bc
        → n < 2 ^ 64
        → (b : Block Time (Tx Time Float)) × (bc.current_block ≡ some b) × IsLinked n bc.storage b
    Grows-IsLinked (fresh now db triedb h {bc} empty e) small =
        fresh-IsLinked now db triedb h bc empty e
    Grows-IsLinked (turn now txs {n} {b} {bc} {bc'} grown made done) small =
        let (b0, is, linked) = Grows-IsLinked grown (ground (arith, small)) in
        turn-IsLinked n now txs b0 b bc bc' (ground (arith, small)) is linked
          (IsLinked-height n bc.storage b0 linked) made done
