-- ===== src/Storage/Defs.antt =====
-- storage/storage.go. The file of the database is named by the configuration and not modelled: a
-- storage is its database. `none` is a panic. Every transaction of bolt here has one operation.
use blockchain_simulator.Base.{
  ℕ, ◌≡◌, Bool, true, Option, none, some, Bytes, Eq, ◌>>=◌, nat_beq, nat_beq_iff, ◌↔◌, [], ◌∷◌,
  zero, suc, refl, sym, ap, ◌∙◌,
}
use blockchain_simulator.Message.{Codec}
use blockchain_simulator.Structs.Block.{Block, BlockHeader}
use blockchain_simulator.Storage.Bolt.{Bolt}

-- The six names of buckets, which the constructor sets to different texts.
pub data Bucket : Type 0 where
  block_bucket block_header_bucket newest_block_hash_bucket : Bucket
  utxo_bucket coding_schema_bucket chunk_bucket : Bucket

abbrev pub bucket_code : Bucket → ℕ
bucket_code block_bucket = 0
bucket_code block_header_bucket = 1
bucket_code newest_block_hash_bucket = 2
bucket_code utxo_bucket = 3
bucket_code coding_schema_bucket = 4
bucket_code chunk_bucket = 5

bucket_of : ℕ → Bucket
bucket_of zero = block_bucket
bucket_of (suc zero) = block_header_bucket
bucket_of (suc (suc zero)) = newest_block_hash_bucket
bucket_of (suc (suc (suc zero))) = utxo_bucket
bucket_of (suc (suc (suc (suc zero)))) = coding_schema_bucket
bucket_of (suc (suc (suc (suc (suc n))))) = chunk_bucket

bucket_of-bucket_code : (x : Bucket) → bucket_of (bucket_code x) ≡ x
unfolding bucket_of
bucket_of-bucket_code block_bucket = refl
bucket_of-bucket_code block_header_bucket = refl
bucket_of-bucket_code newest_block_hash_bucket = refl
bucket_of-bucket_code utxo_bucket = refl
bucket_of-bucket_code coding_schema_bucket = refl
bucket_of-bucket_code chunk_bucket = refl

abbrev pub bucket_beq : Bucket → Bucket → Bool
bucket_beq x y = nat_beq (bucket_code x) (bucket_code y)

pub bucket_beq_iff : (x y : Bucket) → (bucket_beq x y ≡ true) ↔ (x ≡ y)
bucket_beq_iff x y = (
  (λ h.
      sym (bucket_of-bucket_code x)
      ∙ ap bucket_of ((nat_beq_iff (bucket_code x) (bucket_code y)).0 h)
      ∙ bucket_of-bucket_code y),
  (λ h. (nat_beq_iff (bucket_code x) (bucket_code y)).1 (ap bucket_code h)),
)

instance abbrev pub bucket_eq : Eq Bucket
bucket_eq = record { beq = bucket_beq; beq_iff = bucket_beq_iff }

-- The texts of the two errors.
pub data StorageError : Type 0 where
  block_not_existed newest_not_found : StorageError

-- What a read returns. `unreadable` is the object as a failed `Decode` leaves it, with no error.
pub data Read {ℓ} (A : Type ℓ) : Type ℓ where
  found : A → Read A
  unreadable : Read A
  failed : StorageError → Read A

-- "theNewestBlockHash".
abbrev pub newest_key : Bytes
newest_key =
    116 ∷ 104 ∷ 101 ∷ 78 ∷ 101 ∷ 119 ∷ 101 ∷ 115 ∷ 116 ∷ 66 ∷ 108 ∷ 111 ∷ 99 ∷ 107 ∷ 72 ∷ 97 ∷ 115
    ∷ 104 ∷ []

module _ {A : Type 0} (c : Codec A) where
  unfoldable pub read_block : Option Bytes → Read A
  read_block none = failed block_not_existed
  read_block (some bytes) = elim (c.decode bytes) [ none ↦ unreadable | some a ↦ found a ]

module _ {Db : Type 0} (b : Bolt Bucket Db) where
  -- The database that the library opened, with the six buckets made where they are missing.
  unfoldable pub new_storage : Db → Option Db
  new_storage d = do
    d1 ← b.create_bucket block_bucket d
    d2 ← b.create_bucket block_header_bucket d1
    d3 ← b.create_bucket newest_block_hash_bucket d2
    d4 ← b.create_bucket utxo_bucket d3
    d5 ← b.create_bucket coding_schema_bucket d4
    b.create_bucket chunk_bucket d5

  unfoldable pub update_newest_block_hash : Bytes → Db → Option Db
  update_newest_block_hash newest d = b.put newest_block_hash_bucket newest_key newest d

  unfoldable pub get_newest_block_hash : Db → Read Bytes
  get_newest_block_hash d = elim (b.get newest_block_hash_bucket newest_key d) [
    | none ↦ failed newest_not_found
    | some h ↦ found h
  ]

  module _ {Time Tx : Type 0} (headers : Codec (BlockHeader Time))
      (blocks : Codec (Block Time Tx)) where
    unfoldable pub add_block_header : Bytes → BlockHeader Time → Db → Option Db
    add_block_header block_hash header d =
        b.put block_header_bucket block_hash (headers.encode header) d

    -- The first transaction of `AddBlock`.
    unfoldable pub put_block : Block Time Tx → Db → Option Db
    put_block block d = b.put block_bucket block.hash (blocks.encode block) d

    unfoldable pub add_block : Block Time Tx → Db → Option Db
    add_block block d = do
      d1 ← put_block block d
      d2 ← add_block_header block.hash block.header d1
      update_newest_block_hash block.hash d2

    unfoldable pub get_block_header : Bytes → Db → Read (BlockHeader Time)
    get_block_header block_hash d = read_block headers (b.get block_header_bucket block_hash d)

    unfoldable pub get_block : Bytes → Db → Read (Block Time Tx)
    get_block block_hash d = read_block blocks (b.get block_bucket block_hash d)

  -- Both write the bucket of the coding schemas; `hash` is sha256 of the encoding.
  module _ {Schema Chunk : Type 0} (schemas : Codec Schema) (chunks : Codec Chunk)
      (hash : Bytes → Bytes) where
    unfoldable pub save_coding_schema : Schema → Db → Option Db
    save_coding_schema schema d =
        b.put coding_schema_bucket (hash (schemas.encode schema)) (schemas.encode schema) d

    unfoldable pub save_chunks : Chunk → Db → Option Db
    save_chunks chunk d =
        b.put coding_schema_bucket (hash (chunks.encode chunk)) (chunks.encode chunk) d
