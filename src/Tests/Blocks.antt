-- ===== src/Tests/Blocks.antt =====
-- Codecs of transactions, blocks and replies for tests.
use blockchain_simulator.Base.{
  ℕ, zero, suc, ◌≡◌, refl, ap, Bool, true, false, List, [], ◌∷◌, ◌++◌, length, take, drop, Option,
  none, some, Bytes,
}
use blockchain_simulator.Base.Int.{ℤ, pos, negsuc}
use blockchain_simulator.Message.{Codec}
use blockchain_simulator.Structs.Transaction.{
  Tx, account_tx, contract_tx, utxo_tx, AccountTransaction, ContractTransaction, UtxoTransaction,
  TxIn, TxOut,
}
use blockchain_simulator.Structs.Block.{Block, BlockHeader}
use blockchain_simulator.Tests.Codecs.{
  nat_codec, bytes_codec, pair_codec, part_codec, both_of, map_some, int_code, int_of, take-append,
  drop-append,
}

pub int_back : (i : ℤ) → int_of (int_code i).0 (int_code i).1 ≡ i
int_back (pos n) = refl
int_back (negsuc n) = refl

abbrev pub int_codec : Codec ℤ
int_codec = part_codec (pair_codec nat_codec nat_codec) int_code (λ p. int_of p.0 p.1) int_back

abbrev bool_code : Bool → ℕ
bool_code false = 0
bool_code true = 1

abbrev bool_of : ℕ → Bool
bool_of zero = false
bool_of (suc n) = true

pub bool_back : (b : Bool) → bool_of (bool_code b) ≡ b
bool_back false = refl
bool_back true = refl

abbrev bool_codec : Codec Bool
bool_codec = part_codec nat_codec bool_code bool_of bool_back

-- A list as its length and its elements, each behind its own length.
module _ {A : Type 0} (a : Codec A) where
  abbrev items : List A → Bytes
  items [] = []
  items (x ∷ xs) = length (a.encode x) ∷ (a.encode x ++ items xs)

  abbrev items_of : ℕ → Bytes → Option (List A)
  items_of zero l = some []
  items_of (suc n) [] = none
  items_of (suc n) (m ∷ l) =
      map_some (λ p. p.0 ∷ p.1) (both_of (a.decode (take m l)) (items_of n (drop m l)))

  pub items_back : (xs : List A) → items_of (length xs) (items xs) ≡ some xs
  items_back [] = refl
  items_back (x ∷ xs) =
      rw
        (
          take-append (a.encode x) (items xs),
          drop-append (a.encode x) (items xs),
          a.decode-encode x,
          items_back xs,
        )
        refl

  abbrev pub list_codec : Codec (List A)
  list_codec = record {
    encode = λ xs. length xs ∷ items xs;
    decode = λ l. elim l [ [] ↦ none | n ∷ rest ↦ items_of n rest ];
    decode-encode = items_back;
  }

abbrev account_codec : Codec (AccountTransaction ℕ)
account_codec =
    part_codec
      (pair_codec (pair_codec (pair_codec bytes_codec bytes_codec) (pair_codec int_codec int_codec))
        (pair_codec (pair_codec bytes_codec (pair_codec nat_codec bool_codec))
          (pair_codec bytes_codec (pair_codec bytes_codec bytes_codec))))
      (λ x. (
        ((x.sender, x.recipient), (x.nounce, x.value)),
        ((x.tx_hash, (x.time, x.relayed)), (x.original_sender, (x.final_recipient, x.siganature))),
      ))
      (λ p. record {
        sender = p.0.0.0;
        recipient = p.0.0.1;
        nounce = p.0.1.0;
        value = p.0.1.1;
        tx_hash = p.1.0.0;
        time = p.1.0.1.0;
        relayed = p.1.0.1.1;
        original_sender = p.1.1.0;
        final_recipient = p.1.1.1.0;
        siganature = p.1.1.1.1;
      })
      (λ x. refl)

abbrev contract_codec : Codec (ContractTransaction ℕ)
contract_codec =
    part_codec
      (pair_codec
        (pair_codec (pair_codec bytes_codec bytes_codec) (pair_codec int_codec bytes_codec))
        (pair_codec (pair_codec nat_codec bytes_codec)
          (pair_codec (list_codec bytes_codec) bool_codec)))
      (λ x. (
        ((x.sender, x.recipient), (x.nounce, x.tx_hash)),
        ((x.time, x.code), (x.related_contract, x.is_cross_shard)),
      ))
      (λ p. record {
        sender = p.0.0.0;
        recipient = p.0.0.1;
        nounce = p.0.1.0;
        tx_hash = p.0.1.1;
        time = p.1.0.0;
        code = p.1.0.1;
        related_contract = p.1.1.0;
        is_cross_shard = p.1.1.1;
      })
      (λ x. refl)

abbrev in_codec : Codec (TxIn ℕ)
in_codec =
    part_codec (pair_codec (pair_codec bytes_codec nat_codec) (pair_codec int_codec bytes_codec))
      (λ x. ((x.prev_tx_id, x.value), (x.index, x.addr)))
      (λ p. record { prev_tx_id = p.0.0; value = p.0.1; index = p.1.0; addr = p.1.1 }) (λ x. refl)

abbrev out_codec : Codec (TxOut ℕ)
out_codec =
    part_codec (pair_codec nat_codec bytes_codec) (λ x. (x.value, x.addr))
      (λ p. record { value = p.0; addr = p.1 }) (λ x. refl)

abbrev utxo_codec : Codec (UtxoTransaction ℕ ℕ)
utxo_codec =
    part_codec
      (pair_codec (pair_codec bytes_codec (pair_codec (list_codec in_codec) (list_codec out_codec)))
        (pair_codec int_codec (pair_codec bool_codec nat_codec)))
      (λ x. ((x.tx_id, (x.vin, x.vout)), (x.nonce, (x.is_coinbase, x.time))))
      (λ p. record {
        tx_id = p.0.0;
        vin = p.0.1.0;
        vout = p.0.1.1;
        nonce = p.1.0;
        is_coinbase = p.1.1.0;
        time = p.1.1.1;
      })
      (λ x. refl)

abbrev tx_encode : Tx ℕ ℕ → Bytes
tx_encode (account_tx x) = 0 ∷ account_codec.encode x
tx_encode (contract_tx x) = 1 ∷ contract_codec.encode x
tx_encode (utxo_tx x) = 2 ∷ utxo_codec.encode x

abbrev tx_decode : Bytes → Option (Tx ℕ ℕ)
tx_decode [] = none
tx_decode (zero ∷ l) = map_some (λ x. account_tx x) (account_codec.decode l)
tx_decode (suc zero ∷ l) = map_some (λ x. contract_tx x) (contract_codec.decode l)
tx_decode (suc (suc n) ∷ l) = map_some (λ x. utxo_tx x) (utxo_codec.decode l)

pub tx_back : (x : Tx ℕ ℕ) → tx_decode (tx_encode x) ≡ some x
tx_back (account_tx x) = ap (map_some (λ y. account_tx y)) (account_codec.decode-encode x)
tx_back (contract_tx x) = ap (map_some (λ y. contract_tx y)) (contract_codec.decode-encode x)
tx_back (utxo_tx x) = ap (map_some (λ y. utxo_tx y)) (utxo_codec.decode-encode x)

abbrev pub tx_codec : Codec (Tx ℕ ℕ)
tx_codec = record { encode = tx_encode; decode = tx_decode; decode-encode = tx_back }

abbrev pub header_codec : Codec (BlockHeader ℕ)
header_codec =
    part_codec
      (pair_codec (pair_codec (pair_codec bytes_codec nat_codec) (pair_codec int_codec nat_codec))
        (pair_codec bytes_codec (pair_codec int_codec bytes_codec)))
      (λ x. (
        ((x.prev_block_hash, x.height), (x.nonce, x.time_stamp)),
        (x.tx_root, (x.miner, x.state_root)),
      ))
      (λ p. record {
        prev_block_hash = p.0.0.0;
        height = p.0.0.1;
        nonce = p.0.1.0;
        time_stamp = p.0.1.1;
        tx_root = p.1.0;
        miner = p.1.1.0;
        state_root = p.1.1.1;
      })
      (λ x. refl)

abbrev pub block_codec : Codec (Block ℕ (Tx ℕ ℕ))
block_codec =
    part_codec (pair_codec header_codec (pair_codec (list_codec tx_codec) bytes_codec))
      (λ x. (x.header, (x.transactions, x.hash)))
      (λ p. record { header = p.0; transactions = p.1.0; hash = p.1.1 }) (λ x. refl)
