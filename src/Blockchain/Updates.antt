-- ===== src/Blockchain/Updates.antt =====
-- blockchain/stateManager.go: what `UpdateStates` does while no state is dirty, which is how the
-- constructor leaves the manager.
use blockchain_simulator.Base.{
  ◌≡◌, refl, ap, ◌∙◌, Bool, true, false, ◌&&◌, ◌||◌, List, [], ◌∷◌, Option, none, some, Bytes,
  bytes_eq, lookup, ◌>>=◌, >>=_some, if_cases, if◌then◌else◌, arith, Bool-cases, Option-cases, inl,
  inr,
}
use blockchain_simulator.Base.Int.{ℤ, eq_ℤ}
use blockchain_simulator.Utils.Shard.{addr_2_shard}
use blockchain_simulator.Structs.Account.{deposit, deduct, value_at}
use blockchain_simulator.Structs.State.{State, account_state, contract_state}
use blockchain_simulator.Structs.Transaction.{
  Tx, Address, account_tx, contract_tx, utxo_tx, ContractTransaction,
}
use blockchain_simulator.Blockchain.Trie.{Trie}
use blockchain_simulator.Blockchain.States.{
  StatesConfig, StateManager, account_at, move_amount, update_account_state, update_side,
  update_account_tx, update_contract_tx, contract_answer, update_tx, update_txs, update_states,
}

module _ {TrieDb Tr : Type 0} (t : Trie TrieDb Tr) (c : StatesConfig) where
  -- The address is of this shard, or the shard of it panics.
  unfoldable pub ours : Address → Bool
  ours addr = elim (addr_2_shard c.shards addr) [ none ↦ true | some s ↦ eq_ℤ s c.shard_id ]

  -- What makes a transaction stop the node: an account of this shard, or a contract of this shard
  -- that the trie has.
  unfoldable pub stops : {Time Float : Type 0} → Tr → Tx Time Float → Bool
  stops st (account_tx tx) = ours tx.sender || ours tx.recipient
  stops st (contract_tx tx) = elim (addr_2_shard c.shards tx.recipient) [
    | none ↦ true
    | some s ↦
        eq_ℤ s c.shard_id && (elim (t.get st tx.recipient) [ none ↦ false | some bytes ↦ true ])
  ]
  stops st (utxo_tx tx) = false

  unfoldable pub any_stops : {Time Float : Type 0} → Tr → List (Tx Time Float) → Bool
  any_stops st [] = false
  any_stops st (tx ∷ txs) = stops st tx || any_stops st txs

  module _ (m : StateManager TrieDb) (clean : m.dirty_state ≡ []) (st : Tr) where
    not_dirty : (addr : Address) → lookup addr m.dirty_state ≡ none
    unfolding lookup
    not_dirty addr = ap (lookup addr) clean

    update_account_state_panics :
        (addr : Address) (amount : ℤ) (is_deposit : Bool)
        → update_account_state t c addr amount st is_deposit m ≡ none
    unfolding update_account_state account_at move_amount deposit deduct value_at
    update_account_state_panics addr amount is_deposit =
        rw (not_dirty addr, account_at)
          (elim (Option-cases (t.get st addr)) [
            | inl e ↦ rw e (elim (Bool-cases is_deposit) [ inl d ↦ rw d refl | inr d ↦ rw d refl ])
            | inr (bytes, e) ↦ rw e refl
          ])

    update_side_clean :
        (addr : Address) (amount : ℤ) (is_deposit : Bool)
        → update_side t c addr amount st is_deposit m ≡ (if ours addr then none else some m)
    unfolding update_side ours
    update_side_clean addr amount is_deposit = elim (Option-cases (addr_2_shard c.shards addr)) [
      | inl e ↦ rw (e, ours) refl
      | inr (s, e) ↦ rw (e, ours) (rw (update_account_state_panics addr amount is_deposit) refl)
    ]

    update_tx_clean :
        {Time Float : Type 0} (tx : Tx Time Float)
        → update_tx t c tx st m ≡ (if stops st tx then none else some (m, true))
    unfolding update_tx update_account_tx update_contract_tx contract_answer stops
    update_tx_clean (utxo_tx tx) = refl
    update_tx_clean (account_tx tx) = elim (Bool-cases (ours tx.sender)) [
      | inl e ↦ rw (update_side_clean tx.sender tx.value false, e) refl
      | inr e ↦
          rw (update_side_clean tx.sender tx.value false, e)
            (rw (update_side_clean tx.recipient tx.value true)
              (elim (Bool-cases (ours tx.recipient)) [ inl f ↦ rw f refl | inr f ↦ rw f refl ]))
    ]
    update_tx_clean (contract_tx tx) = elim (Option-cases (addr_2_shard c.shards tx.recipient)) [
      | inl e ↦ rw (e, stops) refl
      | inr (s, e) ↦
          rw (e, stops)
            (elim (Bool-cases (eq_ℤ s c.shard_id)) [
              | inl o ↦
                  rw (o, not_dirty tx.recipient)
                    (elim (Option-cases (t.get st tx.recipient)) [
                      | inl g ↦ rw g refl
                      | inr (bytes, g) ↦ rw g refl
                    ])
              | inr o ↦ rw o refl
            ])
    ]

    update_txs_clean :
        {Time Float : Type 0} (txs : List (Tx Time Float))
        → update_txs t c txs st true m ≡ (if any_stops st txs then none else some (m, true))
    unfolding update_txs any_stops
    update_txs_clean [] = refl
    update_txs_clean (tx ∷ txs) = elim (Bool-cases (stops st tx)) [
      | inl e ↦ rw (update_tx_clean tx, e) refl
      | inr e ↦ rw (update_tx_clean tx, e) (update_txs_clean txs)
    ]

  -- With no dirty state and no simulated execution, over a trie that can be opened: `UpdateStates`
  -- panics exactly if one of the transactions names an account of this shard, an address too short
  -- for a shard, or a contract of this shard that the trie has; otherwise it answers yes and changes
  -- nothing, so that the states are still not dirty.
  pub update_states_clean :
      {Time Float : Type 0} (txs : List (Tx Time Float)) (root : Bytes) (m : StateManager TrieDb)
      (st : Tr)
      → c.tx_verify_time ≡ false
      → m.dirty_state ≡ []
      → t.open_at root m.triedb ≡ some st
      → update_states t c txs root m ≡ (if any_stops st txs then none else some (m, true))
  unfolding update_states
  update_states_clean txs root m st timed clean opened =
      ap
        (λ b.
          if b
          then some (m, true)
          else (t.open_at root m.triedb >>= λ u. update_txs t c txs u true m))
        timed
      ∙ ap (λ o. o >>= λ u. update_txs t c txs u true m) opened
      ∙ update_txs_clean m clean st txs

  -- An update writes the dirty states and the integers, not the database of the tries.
  update_side-triedb :
      (addr : Address) (amount : ℤ) (st : Tr) (is_deposit : Bool) (m m' : StateManager TrieDb)
      → update_side t c addr amount st is_deposit m ≡ some m'
      → m'.triedb ≡ m.triedb
  unfolding update_side update_account_state
  update_side-triedb addr amount st is_deposit m m' h =
      let (shard, e, h1) = >>=_some (addr_2_shard c.shards addr) _ h in
      elim (if_cases (eq_ℤ shard c.shard_id) _ _ h1) [
        | inl (own, h2) ↦
            let (s, e1, h3) = >>=_some (account_at t c addr st m) _ h2 in
            let (k, e2, h4) = >>=_some (move_amount t c s amount is_deposit m.integers) _ h3 in
            let (a, e3, h5) = >>=_some s _ h4 in ground (arith, h5)
        | inr (other, h2) ↦ ground (arith, h2)
      ]

  contract_answer-triedb :
      {Time : Type 0} (tx : ContractTransaction Time) (m : StateManager TrieDb) (s : Option State)
      (stored : Option Bytes) (r : StateManager TrieDb × Bool)
      → contract_answer t c tx m s stored ≡ some r
      → r.0.triedb ≡ m.triedb
  unfolding contract_answer
  contract_answer-triedb tx m none none r h = ground (arith, h)
  contract_answer-triedb tx m none (some bytes) r h = ground (arith, h)
  contract_answer-triedb tx m (some (account_state a)) stored r h = ground (arith, h)
  contract_answer-triedb tx m (some (contract_state x)) stored r h = ground (arith, h)

  update_tx-triedb :
      {Time Float : Type 0} (tx : Tx Time Float) (st : Tr) (m : StateManager TrieDb)
      (r : StateManager TrieDb × Bool)
      → update_tx t c tx st m ≡ some r
      → r.0.triedb ≡ m.triedb
  unfolding update_tx update_account_tx update_contract_tx
  update_tx-triedb (utxo_tx tx) st m r h = ground (arith, h)
  update_tx-triedb (account_tx tx) st m r h =
      let (m2, e, h1) = >>=_some (update_account_tx t c tx st m) _ h in
      let (m1, e1, e2) = >>=_some (update_side t c tx.sender tx.value st false m) _ e in
      let first = update_side-triedb tx.sender tx.value st false m m1 e1 in
      let second = update_side-triedb tx.recipient tx.value st true m1 m2 e2 in
      let last : r.0.triedb ≡ m2.triedb = ground (arith, h1) in last ∙ second ∙ first
  update_tx-triedb (contract_tx tx) st m r h =
      let (shard, e, h1) = >>=_some (addr_2_shard c.shards tx.recipient) _ h in
      elim (if_cases (eq_ℤ shard c.shard_id) _ _ h1) [
        | inl (own, h2) ↦
            contract_answer-triedb tx m (lookup tx.recipient m.dirty_state) (t.get st tx.recipient)
              r h2
        | inr (other, h2) ↦ ground (arith, h2)
      ]

  update_txs-triedb :
      {Time Float : Type 0} (txs : List (Tx Time Float)) (st : Tr) (flag : Bool)
      (m : StateManager TrieDb) (r : StateManager TrieDb × Bool)
      → update_txs t c txs st flag m ≡ some r
      → r.0.triedb ≡ m.triedb
  unfolding update_txs
  update_txs-triedb [] st flag m r h = ground (arith, h)
  update_txs-triedb (tx ∷ txs) st flag m r h =
      let (r1, e, h1) = >>=_some (update_tx t c tx st m) _ h in
      update_txs-triedb txs st (flag && r1.1) r1.0 r h1 ∙ update_tx-triedb tx st m r1 e

  pub update_states-triedb :
      {Time Float : Type 0} (txs : List (Tx Time Float)) (root : Bytes) (m : StateManager TrieDb)
      (r : StateManager TrieDb × Bool)
      → update_states t c txs root m ≡ some r
      → r.0.triedb ≡ m.triedb
  unfolding update_states
  update_states-triedb txs root m r h = elim (if_cases c.tx_verify_time _ _ h) [
    | inl (timed, h1) ↦ ground (arith, h1)
    | inr (real, h1) ↦
        let (st, e, h2) = >>=_some (t.open_at root m.triedb) _ h1 in
        update_txs-triedb txs st true m r h2
  ]
