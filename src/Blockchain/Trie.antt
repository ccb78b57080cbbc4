-- ===== src/Blockchain/Trie.antt =====
-- What package blockchain relies on of go-ethereum's trie: a database of tries under their roots,
-- and tries with values under keys. An error is `none`.
use blockchain_simulator.Base.{◌≡◌, Option, none, some, [], Bytes, bytes_eq, ◌==◌, if◌then◌else◌}

pub record Trie (TrieDb Tr : Type 0) : Type 0 where
  -- `trie.New` at a root, `Get`, `Update`, `Hash`, `NewEmpty`; `commit` is `Commit` with the update
  -- and the commit of the database.
  pub open_at : Bytes → TrieDb → Option Tr
  pub get : Tr → Bytes → Option Bytes
  pub update : Bytes → Bytes → Tr → Tr
  pub root : Tr → Bytes
  pub empty : Tr
  pub commit : Tr → TrieDb → Option (Bytes × TrieDb)
  pub get-empty : (k : Bytes) → get empty k ≡ none
  -- An update with an empty value deletes.
  pub get-update :
      (k j v : Bytes) (t : Tr)
      → get (update k v t) j ≡ (if k == j then (if v == [] then none else some v) else get t j)
  -- The root depends on the content only, and a committed trie can be opened at its root.
  pub root_content : (t u : Tr) → ((k : Bytes) → get t k ≡ get u k) → root t ≡ root u
  pub open_at-commit :
      (t : Tr) (d d' : TrieDb) (r : Bytes)
      → commit t d ≡ some (r, d')
      → (u : Tr) × (open_at r d' ≡ some u) × ((k : Bytes) → get u k ≡ get t k)
  pub open_at-empty : (d : TrieDb) → (u : Tr) × (open_at (root empty) d ≡ some u)
