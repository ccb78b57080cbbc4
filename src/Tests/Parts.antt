-- ===== src/Tests/Parts.antt =====
-- Concrete inputs for utils, message, addon/coding and structs.
use blockchain_simulator.Base.{
  ℕ, ◌+◌, ◌<◌, ◌≡◌, refl, List, [], ◌∷◌, ◌++◌, none, some, Bytes, nat_eq, arith, length, get_or,
}
use blockchain_simulator.Message.{Request, req_verify_string}
use blockchain_simulator.Coding.Field.{multiply}
use blockchain_simulator.Coding.Field.Product.{gf_mul}
use blockchain_simulator.Coding.Field.Laws.{multiply_correct}
use blockchain_simulator.Coding.Chunks.{encode, dot, coefficients, encode_correct}
use blockchain_simulator.Structs.TxPool.{Transaction, stamp}
use blockchain_simulator.Structs.TxPool.Order.{
  add_one, add_list, get, get_enough, get_batch, run, run-conserves,
}

-- "xsender12".

abbrev a_request : Request ℕ
a_request = record {
  shard_id = 0;
  req_type = req_verify_string;
  content = 7 ∷ [];
  req_time = 1;
  digest = 5 ∷ [];
  sig = none;
}

multiply_correct_example : multiply 87 131 ≡ some (gf_mul 8 87 131)
multiply_correct_example = multiply_correct 87 131 (omega arith) (omega arith)

the_product : multiply 87 131 ≡ some (gf_mul 8 87 131)
the_product = multiply_correct 87 131 (omega arith) (omega arith)

abbrev two_chunks : List Bytes
two_chunks = (1 ∷ 200 ∷ []) ∷ (255 ∷ 16 ∷ []) ∷ []

encode_correct_example :
    (out : Bytes × Bytes) × (encode (λ i. 300 + i) two_chunks ≡ some out)
    × (length out.0 ≡ 2)
    × (out.1 ≡ 44 ∷ 45 ∷ [])
    × ((k : ℕ) → k < 2 → get_or out.0 k 0 ≡ dot out.1 two_chunks k)
unfolding coefficients
encode_correct_example =
    encode_correct (λ i. 300 + i) (1 ∷ 200 ∷ []) ((255 ∷ 16 ∷ []) ∷ [])
      ((refl, (omega arith, (omega arith, tt))), ((refl, (omega arith, (omega arith, tt))), tt))

-- A transaction is its time.
abbrev times : Transaction ℕ
times = record { get_time = λ t. t; set_time = λ now t. now }

run-conserves_example :
    let out =
      run times
        (add_list 9 (1 ∷ 0 ∷ []) ∷ get 1 ∷ add_one 10 0 ∷ get_enough 5 6 ∷ get_batch ∷ [])
        (record { txs = 4 ∷ []; batch_size = 2 }) in
    out.0 ++ out.1.txs ≡ 4 ∷ 1 ∷ 9 ∷ 10 ∷ []
unfolding stamp
run-conserves_example =
    run-conserves times
      (add_list 9 (1 ∷ 0 ∷ []) ∷ get 1 ∷ add_one 10 0 ∷ get_enough 5 6 ∷ get_batch ∷ [])
      (record { txs = 4 ∷ []; batch_size = 2 })
