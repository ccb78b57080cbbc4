-- ===== src/Blockchain/States.antt =====
-- blockchain/stateManager.go. `h` is the store of big integers behind the accounts' balances; the
-- sleep in place of an execution is not modelled, nor the UTXO set, which has no content. `none` is
-- a panic.
use blockchain_simulator.Base.{
  ℕ, Bool, true, false, ◌&&◌, List, [], ◌∷◌, Option, none, some, Bytes, Map, bytes_eq, lookup,
  insert, ◌>>=◌, if◌then◌else◌,
}
use blockchain_simulator.Base.Int.{ℤ, pos, eq_ℤ}
use blockchain_simulator.Utils.Shard.{ShardConfig, addr_2_shard}
use blockchain_simulator.Structs.Account.{AccountState, Store, deposit, deduct}
use blockchain_simulator.Structs.State.{
  State, account_state, contract_state, get_key, update_state, commit_state,
}
use blockchain_simulator.Structs.Transaction.{
  Tx, Address, account_tx, contract_tx, utxo_tx, AccountTransaction, ContractTransaction,
}
use blockchain_simulator.Blockchain.Trie.{Trie}

pub record StatesConfig : Type 0 where
  pub shards : ShardConfig
  pub shard_id : ℤ
  pub tx_verify_time : Bool
  -- The object of config.Init_Balance, and gob for a state.
  pub init_balance : ℕ
  pub encode_state : State → Store → Bytes

pub record StateManager (TrieDb : Type 0) : Type 0 where
  pub triedb : TrieDb
  pub dirty_state : Map Bytes State
  pub integers : Store

unfoldable pub new_state_manager : {TrieDb : Type 0} → TrieDb → Store → StateManager TrieDb
new_state_manager d h = record { triedb = d; dirty_state = []; integers = h }

module _ {TrieDb Tr : Type 0} (t : Trie TrieDb Tr) (c : StatesConfig) where
  -- The account that is updated. `Decode` into a nil pointer fails, the error is not read, and the
  -- pointer stays nil: `some none`. A type assertion on another kind of state panics.
  unfoldable pub account_at : Address → Tr → StateManager TrieDb → Option (Option AccountState)
  account_at addr st m = elim (lookup addr m.dirty_state) [
    | none ↦ elim (t.get st addr) [
      | none ↦ some (
          some (record {
            ac_address = addr;
            nonce = pos 0;
            balance = some c.init_balance;
            dirty_balance = none;
          }))
      | some bytes ↦ some none
    ]
    | some s ↦ elim s [ account_state a ↦ some (some a) | contract_state x ↦ none ]
  ]

  -- The account after `Deposit` or `Deduct`, which write integers; a nil account panics.
  unfoldable pub move_amount : Option AccountState → (amount : ℤ) → Bool → Store → Option Store
  move_amount none amount is_deposit h = none
  move_amount (some s) amount is_deposit h =
      if is_deposit then deposit amount s h else (deduct amount s h >>= λ r. some r.0)

  unfoldable pub update_account_state :
      Address
      → (amount : ℤ) → Tr
      → (is_deposit : Bool) → StateManager TrieDb
      → Option (StateManager TrieDb)
  update_account_state addr amount st is_deposit m = do
    s ← account_at addr st m
    h ← move_amount s amount is_deposit m.integers
    a ← s
    some (record m {
      dirty_state = insert (get_key (account_state a)) (account_state a) m.dirty_state;
      integers = h;
    })

  -- The update of one side of a transaction, if its address belongs to this shard.
  unfoldable pub update_side :
      Address
      → (amount : ℤ) → Tr
      → (is_deposit : Bool) → StateManager TrieDb
      → Option (StateManager TrieDb)
  update_side addr amount st is_deposit m = do
    shard ← addr_2_shard c.shards addr
    if eq_ℤ shard c.shard_id then update_account_state addr amount st is_deposit m else some m

  unfoldable pub update_account_tx :
      {Time : Type 0}
      → AccountTransaction Time
      → Tr
      → StateManager TrieDb
      → Option (StateManager TrieDb)
  update_account_tx tx st m = do
    m1 ← update_side tx.sender tx.value st false m
    update_side tx.recipient tx.value st true m1

  -- The contract's dirty state and what the trie has for it. What the trie has is decoded into a
  -- nil pointer, whose `GetKey` panics; a type assertion on another kind of state panics.
  unfoldable pub contract_answer :
      {Time : Type 0}
      → ContractTransaction Time
      → StateManager TrieDb
      → Option State
      → Option Bytes
      → Option (StateManager TrieDb × Bool)
  contract_answer tx m none none = some (m, true)
  contract_answer tx m none (some bytes) = none
  contract_answer tx m (some (account_state a)) stored = none
  contract_answer tx m (some (contract_state x)) stored =
      let r = update_state tx (contract_state x) in
      some (record m { dirty_state = insert (get_key r.0) r.0 m.dirty_state }, r.1)

  unfoldable pub update_contract_tx :
      {Time : Type 0}
      → ContractTransaction Time
      → Tr
      → StateManager TrieDb
      → Option (StateManager TrieDb × Bool)
  update_contract_tx tx st m = addr_2_shard c.shards tx.recipient >>= λ shard.
      if eq_ℤ shard c.shard_id
      then contract_answer tx m (lookup tx.recipient m.dirty_state) (t.get st tx.recipient)
      else some (m, true)

  module _ {Time Float : Type 0} where
    unfoldable pub update_tx :
        Tx Time Float → Tr → StateManager TrieDb → Option (StateManager TrieDb × Bool)
    update_tx (utxo_tx tx) st m = some (m, true)
    update_tx (account_tx tx) st m = update_account_tx tx st m >>= λ m'. some (m', true)
    update_tx (contract_tx tx) st m = update_contract_tx tx st m

    unfoldable pub update_txs :
        List (Tx Time Float)
        → Tr
        → (flag : Bool) → StateManager TrieDb
        → Option (StateManager TrieDb × Bool)
    update_txs [] st flag m = some (m, flag)
    update_txs (tx ∷ txs) st flag m = update_tx tx st m >>= λ r. update_txs txs st (flag && r.1) r.0

    unfoldable pub update_states :
        List (Tx Time Float)
        → (state_root : Bytes) → StateManager TrieDb
        → Option (StateManager TrieDb × Bool)
    update_states txs state_root m =
        if c.tx_verify_time
        then some (m, true)
        else (t.open_at state_root m.triedb >>= λ st. update_txs txs st true m)

  -- The loop over the dirty states; Go's order over a map is any order.
  unfoldable pub commit_each : Map Bytes State → Store → Tr → Map Bytes State × Tr
  commit_each [] h st = ([], st)
  commit_each ((k, s) ∷ m) h st =
      let s' = commit_state s in
      let r = commit_each m h (t.update (get_key s') (c.encode_state s' h) st) in
      ((k, s') ∷ r.0, r.1)

  unfoldable pub commit_states :
      (state_root : Bytes) → StateManager TrieDb → Option (StateManager TrieDb × Bytes)
  commit_states state_root m = if c.tx_verify_time then some (m, state_root) else do
    st ← t.open_at state_root m.triedb
    let r = commit_each m.dirty_state m.integers st
    (new_root, d) ← t.commit r.1 m.triedb
    some (record m { triedb = d; dirty_state = r.0 }, new_root)
