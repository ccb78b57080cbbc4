-- ===== src/Structs/TxPool.antt =====
-- structs/txpool.go. A transaction is what its interface offers, a time that is read and set, 0 the
-- zero time; an operation under the lock is one step. Counts are not negative; `none` is `nil`.
pub mod Order
use blockchain_simulator.Base.{
  ℕ, ◌<◌, Bool, List, [], ◌∷◌, ◌++◌, length, take, drop, ltb, nat_beq, if◌then◌else◌, map, Option,
  none, some,
}

pub record Transaction (Tx : Type 0) : Type 0 where
  pub get_time : Tx → ℕ
  pub set_time : ℕ → Tx → Tx

pub record TxPool (Tx : Type 0) : Type 0 where
  pub txs : List Tx
  pub batch_size : ℕ

module _ {Tx : Type 0} where
  unfoldable pub new_tx_pool : ℕ → TxPool Tx
  new_tx_pool n = record { txs = []; batch_size = n }

  -- A transaction without a time gets the present one.
  unfoldable pub stamp : Transaction Tx → (now : ℕ) → Tx → Tx
  stamp t now tx = if nat_beq (t.get_time tx) 0 then t.set_time now tx else tx

  unfoldable pub add_tx : Transaction Tx → (now : ℕ) → Tx → TxPool Tx → TxPool Tx
  add_tx t now tx p = record p { txs = p.txs ++ (stamp t now tx ∷ []) }

  unfoldable pub add_txs : Transaction Tx → (now : ℕ) → List Tx → TxPool Tx → TxPool Tx
  add_txs t now [] p = p
  add_txs t now (tx ∷ txs) p = add_txs t now txs (record p { txs = p.txs ++ (stamp t now tx ∷ []) })

  abbrev pub size : TxPool Tx → ℕ
  size p = length p.txs

  unfoldable pub get_txs : ℕ → TxPool Tx → List Tx × TxPool Tx
  get_txs count p =
      let n = if ltb (size p) count then size p else count in
      (take n p.txs, record p { txs = drop n p.txs })

  unfoldable pub get_enough_txs :
      (min_count max_count : ℕ) → TxPool Tx → Option (List Tx) × TxPool Tx
  get_enough_txs min_count max_count p =
      let n = if ltb (size p) max_count then size p else max_count in
      if ltb (size p) min_count
      then (none, p)
      else (some (take n p.txs), record p { txs = drop n p.txs })

  unfoldable pub get_batch_of_txs : TxPool Tx → Option (List Tx) × TxPool Tx
  get_batch_of_txs p =
      if ltb (size p) p.batch_size
      then (none, p)
      else (some (take p.batch_size p.txs), record p { txs = drop p.batch_size p.txs })
