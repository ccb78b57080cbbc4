-- ===== src/Storage/Reads.antt =====
-- storage/storage.go: what can be read after a block was added, and what cannot.
use blockchain_simulator.Base.{
  ◌≡◌, refl, ◌∙◌, true, false, ◌&&◌, some, Bytes, >>=_some, bytes_eq, ◌==◌, ==_refl, if◌then◌else◌,
  arith, Bool-cases, inl, inr,
}
use blockchain_simulator.Message.{Codec}
use blockchain_simulator.Structs.Block.{Block, BlockHeader}
use blockchain_simulator.Storage.Bolt.{Bolt, Fits}
use blockchain_simulator.Storage.Defs.{
  Bucket, bucket_eq, block_bucket, block_header_bucket, newest_block_hash_bucket, found, newest_key,
  read_block, update_newest_block_hash, get_newest_block_hash, add_block_header, put_block,
  add_block, get_block_header, get_block, new_storage, utxo_bucket, coding_schema_bucket,
  chunk_bucket,
}

module _ {Db : Type 0} (b : Bolt Bucket Db) where
  -- The buckets that `AddBlock` writes are there.
  abbrev pub IsReady : Db → Type 0
  IsReady d =
      (b.has_bucket block_bucket d ≡ true)
      × (b.has_bucket block_header_bucket d ≡ true)
      × (b.has_bucket newest_block_hash_bucket d ≡ true)

  -- A write keeps the buckets.
  pub put-IsReady :
      (n : Bucket) (k v : Bytes) {d d' : Db} → b.put n k v d ≡ some d' → IsReady d → IsReady d'
  put-IsReady n k v {d} {d'} h (r0, r1, r2) = (
    b.has_bucket-put n block_bucket k v d d' h ∙ r0,
    b.has_bucket-put n block_header_bucket k v d d' h ∙ r1,
    b.has_bucket-put n newest_block_hash_bucket k v d d' h ∙ r2,
  )

  -- The constructor of the storage keeps what a database has, and the buckets are there after it.
  pub new_storage-keeps :
      (db : Db)
      → (d : Db) × (new_storage b db ≡ some d)
        × IsReady d
        × ((n : Bucket) (k : Bytes) → b.get n k d ≡ b.get n k db)
  unfolding new_storage
  new_storage-keeps db =
      let (d1, e1) = b.create_some block_bucket db in
      let (d2, e2) = b.create_some block_header_bucket d1 in
      let (d3, e3) = b.create_some newest_block_hash_bucket d2 in
      let (d4, e4) = b.create_some utxo_bucket d3 in
      let (d5, e5) = b.create_some coding_schema_bucket d4 in
      let (d6, e6) = b.create_some chunk_bucket d5 in
      let has = b.has_bucket-create in
      let same = b.get-create in
      (
        d6,
        rw (e1, e2, e3, e4, e5, e6) refl,
        (
          rw
              (
                has _ block_bucket d5 d6 e6,
                has _ block_bucket d4 d5 e5,
                has _ block_bucket d3 d4 e4,
                has _ block_bucket d2 d3 e3,
                has _ block_bucket d1 d2 e2,
                has _ block_bucket db d1 e1,
              )
              refl,
          rw
              (
                has _ block_header_bucket d5 d6 e6,
                has _ block_header_bucket d4 d5 e5,
                has _ block_header_bucket d3 d4 e4,
                has _ block_header_bucket d2 d3 e3,
                has _ block_header_bucket d1 d2 e2,
              )
              refl,
          rw
              (
                has _ newest_block_hash_bucket d5 d6 e6,
                has _ newest_block_hash_bucket d4 d5 e5,
                has _ newest_block_hash_bucket d3 d4 e4,
                has _ newest_block_hash_bucket d2 d3 e3,
              )
              refl,
        ),
        (λ n k.
            same _ n k d5 d6 e6
            ∙ same _ n k d4 d5 e5
            ∙ same _ n k d3 d4 e4
            ∙ same _ n k d2 d3 e3
            ∙ same _ n k d1 d2 e2
            ∙ same _ n k db d1 e1),
      )

  pub new_storage-same :
      (db d : Db) (n : Bucket) (k : Bytes) → new_storage b db ≡ some d → b.get n k d ≡ b.get n k db
  new_storage-same db d n k e =
      let (d1, e1, ready, same) = new_storage-keeps db in
      let is : d1 ≡ d = ground (arith, e, e1) in rw⁻¹ is (same n k)

  module _ {Time Tx : Type 0} (headers : Codec (BlockHeader Time))
      (blocks : Codec (Block Time Tx)) where
    module _ (block : Block Time Tx) (d d' : Db)
        (h : add_block b headers blocks block d ≡ some d') where
      -- The three writes of an `AddBlock` that did not panic.
      pub add_block-writes :
          (d1 : Db) × (d2 : Db) × (put_block b headers blocks block d ≡ some d1)
          × (add_block_header b headers blocks block.hash block.header d1 ≡ some d2)
          × (update_newest_block_hash b block.hash d2 ≡ some d')
      unfolding add_block
      add_block-writes =
          let (d1, e1, h1) = >>=_some (put_block b headers blocks block d) _ h in
          let (d2, e2, h2) =
            >>=_some (add_block_header b headers blocks block.hash block.header d1) _ h1 in
          (d1, d2, e1, e2, h2)

      -- Any place of the database after an `AddBlock`.
      get-add_block :
          (n : Bucket) (k : Bytes)
          → b.get n k d' ≡ (
              if (newest_block_hash_bucket == n) && (newest_key == k)
              then some block.hash
              else if (block_header_bucket == n) && (block.hash == k)
              then some (headers.encode block.header)
              else if (block_bucket == n) && (block.hash == k)
              then some (blocks.encode block)
              else b.get n k d)
      unfolding put_block add_block_header update_newest_block_hash
      get-add_block n k =
          let (d1, d2, e1, e2, e3) = add_block-writes in
          rw
            (
              b.get-put newest_block_hash_bucket n newest_key k block.hash d2 d' e3,
              b.get-put block_header_bucket n block.hash k (headers.encode block.header) d1 d2 e2,
              b.get-put block_bucket n block.hash k (blocks.encode block) d d1 e1,
            )
            refl

      -- `GetBlock`, `GetBlockHeader` and `GetNewestBlockHash` after an `AddBlock`.
      pub get_block-add_block :
          (k : Bytes)
          → get_block b headers blocks k d'
            ≡ (if block.hash == k then found block else get_block b headers blocks k d)
      unfolding get_block read_block
      get_block-add_block k = elim (Bool-cases (block.hash == k)) [
        | inl e ↦ rw (get-add_block block_bucket k, e, blocks.decode-encode block) refl
        | inr e ↦ rw (get-add_block block_bucket k, e) refl
      ]

      pub get_block_header-add_block :
          (k : Bytes)
          → get_block_header b headers blocks k d' ≡ (
              if block.hash == k then found block.header else get_block_header b headers blocks k d)
      unfolding get_block_header read_block
      get_block_header-add_block k = elim (Bool-cases (block.hash == k)) [
        | inl e ↦
            rw (get-add_block block_header_bucket k, e, headers.decode-encode block.header) refl
        | inr e ↦ rw (get-add_block block_header_bucket k, e) refl
      ]

      pub get_newest_block_hash-add_block : get_newest_block_hash b d' ≡ found block.hash
      unfolding get_newest_block_hash
      get_newest_block_hash-add_block =
          rw (get-add_block newest_block_hash_bucket newest_key, get_newest_block_hash) refl

    -- The three values that `AddBlock` writes are within the limits of the library.
    abbrev pub BlockFits : Block Time Tx → Type 0
    BlockFits block =
        Fits block.hash (blocks.encode block) × Fits block.hash (headers.encode block.header)

    add_block_returns :
        (block : Block Time Tx) (d : Db)
        → IsReady d
        → BlockFits block
        → (d' : Db) × (add_block b headers blocks block d ≡ some d') × IsReady d'
    unfolding add_block put_block add_block_header update_newest_block_hash
    add_block_returns block d ready (f0, f1) =
        let (d1, e1) = b.put_fits block_bucket block.hash (blocks.encode block) d ready.0 f0 in
        let r1 = put-IsReady block_bucket block.hash (blocks.encode block) e1 ready in
        let (d2, e2) =
          b.put_fits block_header_bucket block.hash (headers.encode block.header) d1 r1.1 f1 in
        let r2 = put-IsReady block_header_bucket block.hash (headers.encode block.header) e2 r1 in
        let newest_fits : Fits newest_key block.hash =
          (ground arith, ground arith, ground (arith, f0.1)) in
        let (d3, e3) =
          b.put_fits newest_block_hash_bucket newest_key block.hash d2 r2.2 newest_fits in
        (d3, rw (e1, e2, e3) refl, put-IsReady newest_block_hash_bucket newest_key block.hash e3 r2)

    -- `AddBlock` does not panic where the buckets are there and the block is within the limits of
    -- the library; after it, the hash gives the block and the header, the newest hash is that of the
    -- block, the buckets are still there, and every other hash gives what it gave before, errors
    -- included.
    pub add_block_correct :
        (block : Block Time Tx) (d : Db)
        → IsReady d
        → BlockFits block
        → (d' : Db) × (add_block b headers blocks block d ≡ some d')
          × IsReady d'
          × (get_newest_block_hash b d' ≡ found block.hash)
          × (get_block b headers blocks block.hash d' ≡ found block)
          × (get_block_header b headers blocks block.hash d' ≡ found block.header)
          × ((k : Bytes)
              → (block.hash == k) ≡ false
              → (get_block b headers blocks k d' ≡ get_block b headers blocks k d)
                × (get_block_header b headers blocks k d' ≡ get_block_header b headers blocks k d))
    add_block_correct block d ready fits =
        let (d', e, ready') = add_block_returns block d ready fits in
        (
          d',
          e,
          ready',
          get_newest_block_hash-add_block block d d' e,
          rw (get_block-add_block block d d' e block.hash, ==_refl block.hash) refl,
          rw (get_block_header-add_block block d d' e block.hash, ==_refl block.hash) refl,
          (λ k other. (
            rw (get_block-add_block block d d' e k, other) refl,
            rw (get_block_header-add_block block d d' e k, other) refl,
          )),
        )
