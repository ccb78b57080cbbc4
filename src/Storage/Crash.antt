-- ===== src/Storage/Crash.antt =====
-- storage/storage.go as a history of the database: its operations in any order, and an `AddBlock`
-- that dies after any of its three transactions.
use blockchain_simulator.Base.{◌≡◌, refl, ◌∙◌, false, some, Bytes, bytes_eq, ◌==◌}
use blockchain_simulator.Message.{Codec}
use blockchain_simulator.Structs.Block.{Block, BlockHeader}
use blockchain_simulator.Storage.Bolt.{Bolt}
use blockchain_simulator.Storage.Defs.{
  Bucket, bucket_eq, block_bucket, block_header_bucket, newest_block_hash_bucket, utxo_bucket,
  coding_schema_bucket, chunk_bucket, found, newest_key, update_newest_block_hash,
  get_newest_block_hash, add_block_header, put_block, add_block, get_block, save_coding_schema,
  save_chunks,
}
use blockchain_simulator.Storage.Reads.{add_block-writes}

module _ {Db Time Tx Schema Chunk : Type 0} (b : Bolt Bucket Db)
    (headers : Codec (BlockHeader Time)) (blocks : Codec (Block Time Tx)) (schemas : Codec Schema)
    (chunks : Codec Chunk) (hash : Bytes → Bytes) where
  -- The operations of the package that write. UpdateNewestBlockHash is called with the hash of a
  -- block that can be read, as AddBlock calls it. `died_1` and `died_2` are an `AddBlock` whose process ends after its first or second
  -- transaction.
  pub data Step : Db → Db → Type 0 where
    added :
        (block : Block Time Tx) {d d' : Db}
        → add_block b headers blocks block d ≡ some d'
        → Step d d'
    died_1 :
        (block : Block Time Tx) {d d' : Db}
        → put_block b headers blocks block d ≡ some d'
        → Step d d'
    died_2 :
        (block : Block Time Tx) {d d1 d' : Db}
        → put_block b headers blocks block d ≡ some d1
        → add_block_header b headers blocks block.hash block.header d1 ≡ some d'
        → Step d d'
    header_added :
        (k : Bytes) (header : BlockHeader Time) {d d' : Db}
        → add_block_header b headers blocks k header d ≡ some d'
        → Step d d'
    newest_updated :
        (h : Bytes) {block : Block Time Tx} {d d' : Db}
        → get_block b headers blocks h d ≡ found block
        → update_newest_block_hash b h d ≡ some d'
        → Step d d'
    saved_schema :
        (schema : Schema) {d d' : Db}
        → save_coding_schema b schemas chunks hash schema d ≡ some d'
        → Step d d'
    saved_chunk :
        (chunk : Chunk) {d d' : Db}
        → save_chunks b schemas chunks hash chunk d ≡ some d'
        → Step d d'

  pub data Runs : Db → Db → Type 0 where
    here : {d : Db} → Runs d d
    then_step : {d d1 d2 : Db} → Step d d1 → Runs d1 d2 → Runs d d2

  -- The newest hash, if there is one, names a block that can be read.
  abbrev pub NewestIsStored : Db → Type 0
  NewestIsStored d =
      (h : Bytes)
      → get_newest_block_hash b d ≡ found h
      → (block : Block Time Tx) × (get_block b headers blocks h d ≡ found block)

  -- A write of another bucket leaves a bucket alone.
  get_other :
      (n m : Bucket) (k j v : Bytes) {d d' : Db}
      → b.put n k v d ≡ some d'
      → (n == m) ≡ false
      → b.get m j d' ≡ b.get m j d
  get_other n m k j v {d} {d'} e apart = rw (b.get-put n m k j v d d' e, apart) refl

  -- The two buckets that no operation of the package writes.
  abbrev Same : (d d' : Db) → Type 0
  Same d d' =
      (k : Bytes)
      → (b.get chunk_bucket k d' ≡ b.get chunk_bucket k d)
        × (b.get utxo_bucket k d' ≡ b.get utxo_bucket k d)

  put-Same :
      (n : Bucket) (k v : Bytes) {d d' : Db}
      → b.put n k v d ≡ some d'
      → (n == chunk_bucket) ≡ false
      → (n == utxo_bucket) ≡ false
      → Same d d'
  put-Same n k v e a0 a1 j =
      (get_other n chunk_bucket k j v e a0, get_other n utxo_bucket k j v e a1)

  Same-trans : {d d1 d2 : Db} → Same d d1 → Same d1 d2 → Same d d2
  Same-trans s t k = ((t k).0 ∙ (s k).0, (t k).1 ∙ (s k).1)

  Step-Same : {d d' : Db} → Step d d' → Same d d'
  unfolding put_block add_block_header update_newest_block_hash save_coding_schema save_chunks
  Step-Same (added block {d} {d'} e) =
      let (d1, d2, e1, e2, e3) = add_block-writes b headers blocks block d d' e in
      Same-trans {d = d} {d1 = d1}
        (put-Same block_bucket block.hash (blocks.encode block) e1 refl refl)
        (Same-trans {d = d1} {d1 = d2}
          (put-Same block_header_bucket block.hash (headers.encode block.header) e2 refl refl)
          (put-Same newest_block_hash_bucket newest_key block.hash e3 refl refl))
  Step-Same (died_1 block e) = put-Same block_bucket block.hash (blocks.encode block) e refl refl
  Step-Same (died_2 block {d} {d1} e e1) =
      Same-trans {d = d} {d1 = d1}
        (put-Same block_bucket block.hash (blocks.encode block) e refl refl)
        (put-Same block_header_bucket block.hash (headers.encode block.header) e1 refl refl)
  Step-Same (header_added k header e) =
      put-Same block_header_bucket k (headers.encode header) e refl refl
  Step-Same (newest_updated h named e) = put-Same newest_block_hash_bucket newest_key h e refl refl
  Step-Same (saved_schema schema e) =
      put-Same coding_schema_bucket (hash (schemas.encode schema)) (schemas.encode schema) e refl
        refl
  Step-Same (saved_chunk chunk e) =
      put-Same coding_schema_bucket (hash (chunks.encode chunk)) (chunks.encode chunk) e refl refl

  -- Over any storage operations in any order, `SaveChunks` among them: the bucket of the chunks and
  -- the bucket of the unspent outputs keep what they had under every key.
  pub Runs-Same : {d d' : Db} → Runs d d' → Same d d'
  Runs-Same here = λ k. (refl, refl)
  Runs-Same (then_step {d} {d1} s rest) =
      Same-trans {d = d} {d1 = d1} (Step-Same s) (Runs-Same rest)
