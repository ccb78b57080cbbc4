-- ===== src/Structs/TxPool/Order.antt =====
-- The order in which structs/txpool.go hands transactions out.
use blockchain_simulator.Base.{
  ℕ, ◌≡◌, refl, ap, sym, ◌∙◌, List, [], ◌∷◌, ◌++◌, ltb, map, take-append-drop, append_assoc,
  append_nil, Bool-cases, inl, inr, Option, none, some,
}
use blockchain_simulator.Structs.TxPool.{
  Transaction, TxPool, stamp, add_tx, add_txs, size, get_txs, get_enough_txs, get_batch_of_txs,
}

-- The operations on a pool, by any number of goroutines, in the order of the lock.
pub data Op (Tx : Type 0) : Type 0 where
  add_one : (now : ℕ) → Tx → Op Tx
  add_list : (now : ℕ) → List Tx → Op Tx
  get : ℕ → Op Tx
  get_enough : ℕ → ℕ → Op Tx
  get_batch : Op Tx

-- The transactions of an answer that may be nil.
abbrev pub handed : {Tx : Type 0} → Option (List Tx) × TxPool Tx → List Tx × TxPool Tx
handed (none, p) = ([], p)
handed (some txs, p) = (txs, p)

module _ {Tx : Type 0} (t : Transaction Tx) where
  unfoldable pub step : Op Tx → TxPool Tx → List Tx × TxPool Tx
  step (add_one now tx) p = ([], add_tx t now tx p)
  step (add_list now txs) p = ([], add_txs t now txs p)
  step (get n) p = get_txs n p
  step (get_enough a b) p = handed (get_enough_txs a b p)
  step get_batch p = handed (get_batch_of_txs p)

  -- All that was handed out, in order, and the pool that is left.
  unfoldable pub run : List (Op Tx) → TxPool Tx → List Tx × TxPool Tx
  run [] p = ([], p)
  run (o ∷ os) p = let now = step o p in let rest = run os now.1 in (now.0 ++ rest.0, rest.1)

  -- What an operation brings in, with its times set.
  abbrev pub arrivals : Op Tx → List Tx
  arrivals (add_one now tx) = stamp t now tx ∷ []
  arrivals (add_list now txs) = map (stamp t now) txs
  arrivals _ = []

  abbrev pub all_arrivals : List (Op Tx) → List Tx
  all_arrivals [] = []
  all_arrivals (o ∷ os) = arrivals o ++ all_arrivals os

  add_txs_lem :
      (now : ℕ) (txs : List Tx) (p : TxPool Tx)
      → (add_txs t now txs p).txs ≡ p.txs ++ map (stamp t now) txs
  unfolding add_txs
  add_txs_lem now [] p = sym (append_nil p.txs)
  add_txs_lem now (tx ∷ txs) p =
      add_txs_lem now txs (record p { txs = p.txs ++ (stamp t now tx ∷ []) })
      ∙ append_assoc p.txs (stamp t now tx ∷ []) (map (stamp t now) txs)

  step-keeps : (o : Op Tx) (p : TxPool Tx) → (step o p).0 ++ (step o p).1.txs ≡ p.txs ++ arrivals o
  unfolding step add_tx get_txs get_enough_txs get_batch_of_txs
  step-keeps (add_one now tx) p = refl
  step-keeps (add_list now txs) p = add_txs_lem now txs p
  step-keeps (get n) p = take-append-drop _ p.txs ∙ sym (append_nil p.txs)
  step-keeps (get_enough a b) p = elim (Bool-cases (ltb (size p) a)) [
    | inl few ↦ rw (few, get_enough_txs) (sym (append_nil p.txs))
    | inr enough ↦ rw (enough, get_enough_txs) (take-append-drop _ p.txs ∙ sym (append_nil p.txs))
  ]
  step-keeps get_batch p = elim (Bool-cases (ltb (size p) p.batch_size)) [
    | inl few ↦ rw (few, get_batch_of_txs) (sym (append_nil p.txs))
    | inr enough ↦ rw (enough, get_batch_of_txs) (take-append-drop _ p.txs ∙ sym (append_nil p.txs))
  ]

  -- The pool is a queue that loses nothing and makes nothing up: for every sequence of additions
  -- and of the three ways to take transactions out, those that were handed out, followed by those
  -- that are left, are those that were there at first followed by those that were added, all in
  -- the order of arrival.
  pub run-conserves :
      (os : List (Op Tx)) (p : TxPool Tx)
      → (run os p).0 ++ (run os p).1.txs ≡ p.txs ++ all_arrivals os
  unfolding run
  run-conserves [] p = sym (append_nil p.txs)
  run-conserves (o ∷ os) p =
      append_assoc (step o p).0 (run os (step o p).1).0 (run os (step o p).1).1.txs
      ∙ ap (λ l. (step o p).0 ++ l) (run-conserves os (step o p).1)
      ∙ sym (append_assoc (step o p).0 (step o p).1.txs (all_arrivals os))
      ∙ ap (λ l. l ++ all_arrivals os) (step-keeps o p)
      ∙ append_assoc p.txs (arrivals o) (all_arrivals os)
