-- ===== src/Storage/Bolt.antt =====
-- What storage/storage.go relies on of the library bolt: a database of buckets, each with values
-- under keys. `Db` is the type of databases and `Name` that of bucket names. An error is `none`.
use blockchain_simulator.Base.{
  ◌≤◌, ◌<◌, ◌≡◌, Bool, true, ◌&&◌, Option, some, Bytes, Eq, bytes_eq, ◌==◌, length, if◌then◌else◌,
}

-- The limits that bolt documents for a key and a value.
abbrev pub Fits : Bytes → Bytes → Type 0
Fits key value = (0 < length key) × (length key ≤ 32768) × (length value ≤ 2147483646)

pub record Bolt (Name Db : Type 0) ⦃e : Eq Name⦄ : Type 0 where
  pub create_bucket : Name → Db → Option Db
  pub put : Name → Bytes → Bytes → Db → Option Db
  pub get : Name → Bytes → Db → Option Bytes
  pub has_bucket : Name → Db → Bool
  pub has_bucket-create :
      (n m : Name) (d d' : Db)
      → create_bucket n d ≡ some d'
      → has_bucket m d' ≡ (if n == m then true else has_bucket m d)
  pub has_bucket-put :
      (n m : Name) (k v : Bytes) (d d' : Db)
      → put n k v d ≡ some d'
      → has_bucket m d' ≡ has_bucket m d
  pub get-create :
      (n m : Name) (k : Bytes) (d d' : Db) → create_bucket n d ≡ some d' → get m k d' ≡ get m k d
  pub get-put :
      (n m : Name) (k j v : Bytes) (d d' : Db)
      → put n k v d ≡ some d'
      → get m j d' ≡ (if (n == m) && (k == j) then some v else get m j d)
  pub put_fits :
      (n : Name) (k v : Bytes) (d : Db)
      → has_bucket n d ≡ true
      → Fits k v
      → (d' : Db) × (put n k v d ≡ some d')
  pub create_some : (n : Name) (d : Db) → (d' : Db) × (create_bucket n d ≡ some d')
