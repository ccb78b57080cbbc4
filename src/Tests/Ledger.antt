-- ===== src/Tests/Ledger.antt =====
-- Databases and tries for tests, in place of bolt and of go-ethereum, and theorems of the storage
-- and of the chain applied to them.
use blockchain_simulator.Base.{
  ℕ, ◌≡◌, refl, sym, ap, ◌∙◌, Bool, true, false, ◌&&◌, [], ◌∷◌, ◌++◌, length, Option, none, some,
  Bytes, Map, bytes_eq, ◌==◌, lookup, insert, lookup-insert_self, ltb, leb, if◌then◌else◌, if_cases,
  arith, inl, inr, Option-cases,
}
use blockchain_simulator.Base.Int.{pos}
use blockchain_simulator.Structs.State.{get_key}
use blockchain_simulator.Structs.Block.{BlockHeader}
use blockchain_simulator.Structs.Transaction.{hash_of}
use blockchain_simulator.Storage.Bolt.{Bolt, Fits}
use blockchain_simulator.Storage.Defs.{Bucket, bucket_eq}
use blockchain_simulator.Blockchain.Trie.{Trie}
use blockchain_simulator.Blockchain.States.{StatesConfig}
use blockchain_simulator.Blockchain.Chain.{ChainEnv}
use blockchain_simulator.Tests.Blocks.{tx_codec, header_codec, block_codec}

pub record TestDb : Type 0 where
  pub has : Bucket → Bool
  pub values : Bucket → Bytes → Option Bytes

abbrev pub no_db : TestDb
no_db = record { has = λ n. false; values = λ n k. none }

abbrev pub fits : Bytes → Bytes → Bool
fits k v = ltb 0 (length k) && (leb (length k) 32768 && leb (length v) 2147483646)

abbrev pub after_put : Bucket → Bytes → Bytes → TestDb → TestDb
after_put n k v d = record {
  has = d.has;
  values = λ m j. if (n == m) && (k == j) then some v else d.values m j;
}

abbrev pub test_put : Bucket → Bytes → Bytes → TestDb → Option TestDb
test_put n k v d = if d.has n && fits k v then some (after_put n k v d) else none

abbrev has_in : Bucket → Option TestDb → Bool
has_in m none = false
has_in m (some d) = d.has m

abbrev value_in : Bucket → Bytes → Option TestDb → Option Bytes
value_in m j none = none
value_in m j (some d) = d.values m j

pub put_has :
    (n m : Bucket) (k v : Bytes) (d d' : TestDb) → test_put n k v d ≡ some d' → d'.has m ≡ d.has m
put_has n m k v d d' h = elim (if_cases (d.has n && fits k v) _ _ h) [
  | inl (g, e) ↦ sym (ap (has_in m) e)
  | inr (g, e) ↦ ground (arith, e)
]

pub put_value :
    (n m : Bucket) (k j v : Bytes) (d d' : TestDb)
    → test_put n k v d ≡ some d'
    → d'.values m j ≡ (if (n == m) && (k == j) then some v else d.values m j)
put_value n m k j v d d' h = elim (if_cases (d.has n && fits k v) _ _ h) [
  | inl (g, e) ↦ sym (ap (value_in m j) e)
  | inr (g, e) ↦ ground (arith, e)
]

pub put_works :
    (n : Bucket) (k v : Bytes) (d : TestDb)
    → d.has n ≡ true
    → Fits k v
    → (d' : TestDb) × (test_put n k v d ≡ some d')
put_works n k v d has (f0, f1, f2) =
    let g : (d.has n && fits k v) ≡ true = ground (arith, has, f0, f1, f2) in
    (after_put n k v d, ap (λ b. if b then some (after_put n k v d) else none) g)

abbrev pub test_bolt : Bolt Bucket TestDb
test_bolt = record {
  create_bucket =
      λ n d. some (record { has = λ m. if n == m then true else d.has m; values = d.values });
  put = test_put;
  get = λ n k d. d.values n k;
  has_bucket = λ n d. d.has n;
  has_bucket-create = λ n m d d' h. sym (ap (has_in m) h);
  has_bucket-put = put_has;
  get-create = λ n m k d d' h. sym (ap (value_in m k) h);
  get-put = put_value;
  put_fits = put_works;
  create_some = λ n d. (_, refl);
}

-- A trie is its content, and its root shows what stands under the keys [1] and [2].
abbrev pub TestTrie : Type 0
TestTrie = Bytes → Option Bytes

abbrev shown : Option Bytes → Bytes
shown none = 0 ∷ []
shown (some v) = 1 ∷ length v ∷ v

abbrev pub test_root : TestTrie → Bytes
test_root t = shown (t (1 ∷ [])) ++ shown (t (2 ∷ []))

abbrev pub no_trie : TestTrie
no_trie k = none

abbrev pub open_test : Bytes → Map Bytes TestTrie → Option TestTrie
open_test r d = elim (lookup r d) [
  | none ↦ if r == test_root no_trie then some no_trie else none
  | some t ↦ some t
]

pub open_no_trie :
    (d : Map Bytes TestTrie) → (u : TestTrie) × (open_test (test_root no_trie) d ≡ some u)
open_no_trie d = elim (Option-cases (lookup (test_root no_trie) d)) [
  | inl e ↦ (no_trie, rw (e, open_test) refl)
  | inr (t, e) ↦ (t, rw (e, open_test) refl)
]

abbrev pub test_commit : TestTrie → Map Bytes TestTrie → Option (Bytes × Map Bytes TestTrie)
test_commit t d = some (test_root t, insert (test_root t) t d)

pub open_committed :
    (t : TestTrie) (d d' : Map Bytes TestTrie) (r : Bytes)
    → test_commit t d ≡ some (r, d')
    → (u : TestTrie) × (open_test r d' ≡ some u) × ((k : Bytes) → u k ≡ t k)
open_committed t d d' r h =
    let is_r : test_root t ≡ r = ground (arith, h) in
    let is_d : insert (test_root t) t d ≡ d' = ground (arith, h) in
    (t, rw⁻¹ (is_r, is_d) (rw (lookup-insert_self (test_root t) t d, open_test) refl), λ k. refl)

abbrev pub test_trie : Trie (Map Bytes TestTrie) TestTrie
test_trie = record {
  open_at = open_test;
  get = λ t k. t k;
  update = λ k v t j. if k == j then (if v == [] then none else some v) else t j;
  root = test_root;
  empty = no_trie;
  commit = test_commit;
  get-empty = λ k. refl;
  get-update = λ k j v t. refl;
  root_content = λ t u h. rw (h (1 ∷ []), h (2 ∷ [])) refl;
  open_at-commit = open_committed;
  open_at-empty = open_no_trie;
}

-- `timed` is config.TxVerifyTime.
abbrev pub test_states : (timed : Bool) → StatesConfig
test_states timed = record {
  shards = record { consensus_method_is_cshard = false; k = 1; shard_num = 1 };
  shard_id = pos 0;
  tx_verify_time = timed;
  init_balance = 0;
  encode_state = λ s h. get_key s;
}

abbrev pub test_chain : (timed : Bool) → ChainEnv ℕ ℕ TestDb (Map Bytes TestTrie) TestTrie
test_chain timed = record {
  states_config = test_states timed;
  bolt = test_bolt;
  trie = test_trie;
  header_hash = header_codec.encode;
  headers = header_codec;
  blocks = block_codec;
  tx_hash = hash_of (λ u. u.tx_id);
  encode_tx = tx_codec.encode;
}

-- Equal encodings are of equal headers.
pub header_no_collision :
    (x y : BlockHeader ℕ) → header_codec.encode x ≡ header_codec.encode y → x ≡ y
header_no_collision x y h =
    let e : some x ≡ some y =
      sym (header_codec.decode-encode x)
      ∙ ap header_codec.decode h
      ∙ header_codec.decode-encode y in
    ground (arith, e)
