-- ===== src/Traffic/Shards.antt =====
-- sendMimicAccountTxs.go, sendMimicContractTxs.go: how a tick's transactions are shared out.
use mathlib.Core.Path.{subst}
use mathlib.Core.Option.{some-injective}
use blockchain_simulator.Base.{
  ◌≡◌, refl, sym, ap, ◌∙◌, true, false, ◌||◌, List, [], ◌∷◌, ◌++◌, Option, none, some, Map, lookup,
  insert, lookup-insert, Eq, ◌==◌, ==_iff, if◌then◌else◌, >>=_some, arith, append_assoc, append_nil,
  Bool-cases, inl, inr,
}
use blockchain_simulator.Base.Int.{ℤ, ℤ-eq}
use blockchain_simulator.Utils.Set.{elem, Distinct}
use blockchain_simulator.Traffic.{append_tx, group_txs}

abbrev pub keys : {K V : Type 0} → Map K V → List K
keys [] = []
keys ((k, v) ∷ m) = k ∷ keys m

-- The transactions of a shard, in their order.
abbrev pub of_shard : {T : Type 0} → (T → Option ℤ) → ℤ → List T → List T
of_shard shard sid [] = []
of_shard shard sid (tx ∷ txs) =
    let rest = of_shard shard sid txs in
    elim (shard tx) [ none ↦ rest | some i ↦ if i == sid then tx ∷ rest else rest ]

-- An entry, and what is appended to it; a missing one stays missing if nothing is.
abbrev pub appended : {T : Type 0} → Option (List T) → List T → Option (List T)
appended none [] = none
appended none (tx ∷ txs) = some (tx ∷ txs)
appended (some old) txs = some (old ++ txs)

appended-cons :
    {T : Type 0} (o : Option (List T)) (tx : T) (txs : List T)
    → appended (some ((elim o [ none ↦ [] | some old ↦ old ]) ++ (tx ∷ []))) txs
      ≡ appended o (tx ∷ txs)
appended-cons none tx txs = refl
appended-cons (some old) tx txs = ap some (append_assoc old (tx ∷ []) txs)

appended_nil : {T : Type 0} (o : Option (List T)) → appended o [] ≡ o
appended_nil none = refl
appended_nil (some old) = ap some (append_nil old)

module _ {K V : Type 0} ⦃e : Eq K⦄ where
  elem-keys :
      (k j : K) (v : V) (m : Map K V) → elem k (keys (insert j v m)) ≡ ((j == k) || elem k (keys m))
  unfolding insert elem
  elem-keys k j v [] = ground arith
  elem-keys k j v ((i, w) ∷ m) =
      ground (arith, e.beq_iff i j, e.beq_iff i k, e.beq_iff j k, elem-keys k j v m)

  insert-Distinct :
      (j : K) (v : V) (m : Map K V) → Distinct (keys m) → Distinct (keys (insert j v m))
  unfolding insert elem
  insert-Distinct j v [] d = (refl, tt)
  insert-Distinct j v ((i, w) ∷ m) d = elim (Bool-cases (i == j)) [
    | inl same ↦
        let is : i ≡ j = (==_iff i j).0 same in
        rw same (subst (λ x. elem x (keys m) ≡ false) is d.0, d.1)
    | inr other ↦
        let apart : elem i (keys (insert j v m)) ≡ false =
          ground (arith, elem-keys i j v m, d.0, e.beq_iff i j, e.beq_iff j i, other) in
        rw other (apart, insert-Distinct j v m d.1)
  ]

module _ {T : Type 0} (shard : T → Option ℤ) where
  of_shard-own :
      (tx : T) (txs : List T) (i sid : ℤ)
      → shard tx ≡ some i
      → (i == sid) ≡ true
      → of_shard shard sid (tx ∷ txs) ≡ tx ∷ of_shard shard sid txs
  of_shard-own tx txs i sid is same = rw (is, of_shard) (rw same refl)

  of_shard-other :
      (tx : T) (txs : List T) (i sid : ℤ)
      → shard tx ≡ some i
      → (i == sid) ≡ false
      → of_shard shard sid (tx ∷ txs) ≡ of_shard shard sid txs
  of_shard-other tx txs i sid is other = rw (is, of_shard) (rw other refl)

  append_tx-lookup :
      (i sid : ℤ) (tx : T) (m : Map ℤ (List T))
      → lookup sid (append_tx i tx m) ≡ (
          if i == sid
          then some ((elim (lookup i m) [ none ↦ [] | some old ↦ old ]) ++ (tx ∷ []))
          else lookup sid m)
  unfolding append_tx
  append_tx-lookup i sid tx m = lookup-insert i sid _ m

  group_txs-at :
      (txs : List T) (m : Map ℤ (List T)) {m' : Map ℤ (List T)} (sid : ℤ)
      → group_txs shard txs m ≡ some m'
      → lookup sid m' ≡ appended (lookup sid m) (of_shard shard sid txs)
  unfolding group_txs
  group_txs-at [] m sid h =
      ap (lookup sid) (sym (some-injective _ _ h)) ∙ sym (appended_nil (lookup sid m))
  group_txs-at (tx ∷ txs) m {m'} sid h =
      let (i, is, rest) = >>=_some (shard tx) (λ i. group_txs shard txs (append_tx i tx m)) h in
      let after = append_tx i tx m in
      let own = of_shard shard sid txs in
      let later : lookup sid m' ≡ appended (lookup sid after) own =
        group_txs-at txs after sid rest in
      let now = append_tx-lookup i sid tx m in
      elim (Bool-cases (i == sid)) [
        | inl same ↦
            let at : i ≡ sid = (==_iff i sid).0 same in
            let grown : lookup sid after
                ≡ some ((elim (lookup sid m) [ none ↦ [] | some old ↦ old ]) ++ (tx ∷ [])) =
              now
              ∙ (rw same (
                  ap (λ k. some ((elim (lookup k m) [ none ↦ [] | some old ↦ old ]) ++ (tx ∷ [])))
                    at)) in
            let mine : of_shard shard sid (tx ∷ txs) ≡ tx ∷ own =
              of_shard-own tx txs i sid is same in
            later
            ∙ ap (λ o. appended o own) grown
            ∙ appended-cons (lookup sid m) tx own
            ∙ ap (appended (lookup sid m)) (sym mine)
        | inr other ↦
            let kept : lookup sid after ≡ lookup sid m = now ∙ (rw other refl) in
            let mine : of_shard shard sid (tx ∷ txs) ≡ own = of_shard-other tx txs i sid is other in
            later ∙ ap (λ o. appended o own) kept ∙ ap (appended (lookup sid m)) (sym mine)
      ]

  group_txs-Distinct :
      (txs : List T) (m : Map ℤ (List T)) {m' : Map ℤ (List T)}
      → group_txs shard txs m ≡ some m'
      → Distinct (keys m)
      → Distinct (keys m')
  unfolding group_txs append_tx
  group_txs-Distinct [] m h d = subst (λ t. Distinct (keys t)) (some-injective _ _ h) d
  group_txs-Distinct (tx ∷ txs) m h d =
      let (i, is, rest) = >>=_some (shard tx) (λ i. group_txs shard txs (append_tx i tx m)) h in
      group_txs-Distinct txs (append_tx i tx m) rest (insert-Distinct i _ m d)

  -- If no transaction's shard panics: the map that the messages are made of has no shard twice,
  -- and for every shard with a transaction, and for no other, an entry with just the transactions
  -- of that shard, in their order.
  pub group_txs_lem :
      (txs : List T) {m : Map ℤ (List T)} (sid : ℤ)
      → group_txs shard txs [] ≡ some m
      → (lookup sid m ≡ appended none (of_shard shard sid txs)) × Distinct (keys m)
  unfolding lookup
  group_txs_lem txs sid made = (group_txs-at txs [] sid made, group_txs-Distinct txs [] made tt)
