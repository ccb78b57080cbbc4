-- ===== src/Structs/Transaction.antt =====
-- structs/transaction_interface.go and its three implementations. `Time` is time.Time and `Float`
-- big.Float; an address is a byte string. The texts of the transactions are not modelled.
use blockchain_simulator.Base.{Bool, false, List, [], ◌∷◌, Bytes, map}
use blockchain_simulator.Base.Int.{ℤ, pos}

abbrev pub Address : Type 0
Address = Bytes

pub data TransactionType : Type 0 where
  utxo_transaction_type account_transaction_type eth_like_contract_transaction_type :
      TransactionType

pub record AccountTransaction (Time : Type 0) : Type 0 where
  pub sender : Address
  pub recipient : Address
  pub nounce : ℤ
  pub value : ℤ
  pub tx_hash : Bytes
  pub time : Time
  pub relayed : Bool
  pub original_sender : Address
  pub final_recipient : Address
  pub siganature : Bytes

pub record ContractTransaction (Time : Type 0) : Type 0 where
  pub sender : Address
  pub recipient : Address
  pub nounce : ℤ
  pub tx_hash : Bytes
  pub time : Time
  pub code : Bytes
  pub related_contract : List Address
  pub is_cross_shard : Bool

pub record TxIn (Float : Type 0) : Type 0 where
  pub prev_tx_id : Bytes
  pub value : Float
  pub index : ℤ
  pub addr : Address

pub record TxOut (Float : Type 0) : Type 0 where
  pub value : Float
  pub addr : Address

pub record UtxoTransaction (Time Float : Type 0) : Type 0 where
  pub tx_id : Bytes
  pub vin : List (TxIn Float)
  pub vout : List (TxOut Float)
  pub nonce : ℤ
  pub is_coinbase : Bool
  pub time : Time

-- What the interface `Transaction` holds.
pub data Tx (Time Float : Type 0) : Type 0 where
  account_tx : AccountTransaction Time → Tx Time Float
  contract_tx : ContractTransaction Time → Tx Time Float
  utxo_tx : UtxoTransaction Time Float → Tx Time Float

module _ {Time Float : Type 0} where
  unfoldable pub type_of : Tx Time Float → TransactionType
  type_of (account_tx tx) = account_transaction_type
  type_of (contract_tx tx) = eth_like_contract_transaction_type
  type_of (utxo_tx tx) = utxo_transaction_type

  unfoldable pub id : Tx Time Float → Bytes
  id (account_tx tx) = tx.tx_hash
  id (contract_tx tx) = tx.tx_hash
  id (utxo_tx tx) = tx.tx_id

  unfoldable pub from : Tx Time Float → List Address
  from (account_tx tx) = tx.sender ∷ []
  from (contract_tx tx) = tx.sender ∷ []
  from (utxo_tx tx) = map (λ i. i.addr) tx.vin

  unfoldable pub to : Tx Time Float → List Address
  to (account_tx tx) = tx.recipient ∷ []
  to (contract_tx tx) = tx.recipient ∷ []
  to (utxo_tx tx) = map (λ o. o.addr) tx.vout

  unfoldable pub get_time : Tx Time Float → Time
  get_time (account_tx tx) = tx.time
  get_time (contract_tx tx) = tx.time
  get_time (utxo_tx tx) = tx.time

  unfoldable pub set_time : Time → Tx Time Float → Tx Time Float
  set_time t (account_tx tx) = account_tx (record tx { time = t })
  set_time t (contract_tx tx) = contract_tx (record tx { time = t })
  set_time t (utxo_tx tx) = utxo_tx (record tx { time = t })

  unfoldable pub is_coin_base : Tx Time Float → Bool
  is_coin_base (account_tx tx) = false
  is_coin_base (contract_tx tx) = false
  is_coin_base (utxo_tx tx) = tx.is_coinbase

  unfoldable pub get_nonce : Tx Time Float → ℤ
  get_nonce (account_tx tx) = tx.nounce
  get_nonce (contract_tx tx) = tx.nounce
  get_nonce (utxo_tx tx) = tx.nonce

  -- `sum` is `utils.Hash`: sha256 of the encoding.
  unfoldable pub hash_of : (sum : UtxoTransaction Time Float → Bytes) → Tx Time Float → Bytes
  hash_of sum (account_tx tx) = tx.tx_hash
  hash_of sum (contract_tx tx) = tx.tx_hash
  hash_of sum (utxo_tx tx) = sum tx

module _ {Time : Type 0} where
  -- `sum` is `utils.Hash(utils.Encode(tx))`, taken while the hash of the transaction is empty.
  unfoldable pub new_account_transaction :
      (sum : AccountTransaction Time → Bytes) (now : Time) (sender recipient : Address) (nounce : ℤ)
      (value : ℤ)
      → AccountTransaction Time
  new_account_transaction sum now sender recipient nounce value =
      let tx : AccountTransaction Time = record {
        sender = sender;
        recipient = recipient;
        nounce = nounce;
        value = value;
        tx_hash = [];
        time = now;
        relayed = false;
        original_sender = [];
        final_recipient = [];
        siganature = [];
      } in
      record tx { tx_hash = sum tx }

  unfoldable pub new_acconut_coinbase :
      (sum : AccountTransaction Time → Bytes) (now : Time) (recipient : Address) (value : ℤ)
      → AccountTransaction Time
  new_acconut_coinbase sum now recipient value =
      new_account_transaction sum now [] recipient (pos 0) value

  unfoldable pub new_contract_transaction :
      (sum : ContractTransaction Time → Bytes) (sender recipient : Address) (nounce : ℤ) (t : Time)
      (code : Bytes) (related_contract : List Address) (is_cross_shard : Bool)
      → ContractTransaction Time
  new_contract_transaction sum sender recipient nounce t code related_contract is_cross_shard =
      let tx : ContractTransaction Time = record {
        sender = sender;
        recipient = recipient;
        nounce = nounce;
        tx_hash = [];
        time = t;
        code = code;
        related_contract = related_contract;
        is_cross_shard = is_cross_shard;
      } in
      record tx { tx_hash = sum tx }
