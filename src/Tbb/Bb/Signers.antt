-- ===== src/Tbb/Bb/Signers.antt =====
-- The signatures that the nodes of a shard make, for the votes of tbb/handler_1deltaBB.go.
use blockchain_simulator.Base.{
  ℕ, zero, suc, ◌+◌, ◌*◌, ◌-◌, ◌≤◌, ◌<◌, ◌≡◌, ◌==◌, bytes_eq, bytes_beq_iff, Bool, true, false,
  List, [], Bytes, Eq, if◌then◌else◌, arith, Bool-cases, inl, inr, length,
}
use blockchain_simulator.Utils.Set.{put, Distinct}
use blockchain_simulator.Utils.Set.Members.{put-Distinct, length-put}

-- How many numbers below n pass a test.
abbrev pub below : ℕ → (ℕ → Bool) → ℕ
below zero p = 0
below (suc n) p = (if p n then 1 else 0) + below n p

-- Two sets of nodes that share faulty nodes only.
below-overlap :
    (n : ℕ) (p q bad : ℕ → Bool)
    → ((i : ℕ) → p i ≡ true → q i ≡ true → bad i ≡ true)
    → below n p + below n q ≤ n + below n bad
below-overlap zero p q bad shared = omega arith
below-overlap (suc n) p q bad shared = ground (arith, shared n, below-overlap n p q bad shared)

module _ {S : Type 0} ⦃es : Eq S⦄ (sign : ℕ → Bytes → S) (signed : ℕ → Bytes → Bool) where
  -- The signatures of a content that the first n nodes have made.
  unfoldable pub issued : ℕ → Bytes → List S
  issued zero c = []
  issued (suc n) c = let rest = issued n c in if signed n c then put (sign n c) rest else rest

  pub issued-Distinct : (n : ℕ) (c : Bytes) → Distinct (issued n c)
  unfolding issued
  issued-Distinct zero c = tt
  issued-Distinct (suc n) c = elim (Bool-cases (signed n c)) [
    | inl is ↦ rw is (put-Distinct (sign n c) (issued n c) (issued-Distinct n c))
    | inr other ↦ rw other (issued-Distinct n c)
  ]

  pub length-issued : (n : ℕ) (c : Bytes) → length (issued n c) ≤ below n (λ i. signed i c)
  unfolding issued
  length-issued zero c = omega arith
  length-issued (suc n) c = ground (arith, length-issued n c, length-put (sign n c) (issued n c))

module _ (signed : ℕ → Bytes → Bool) (faulty : ℕ → Bool) where
  -- Two groups of signers that a commit needs share an honest node.
  pub quorums_agree :
      (n f : ℕ) (c d : Bytes)
      → 3 * f < n
      → below n faulty ≤ f
      → ((i : ℕ) (c d : Bytes) → faulty i ≡ false → signed i c ≡ true → signed i d ≡ true → c ≡ d)
      → n - f ≤ below n (λ i. signed i c)
      → n - f ≤ below n (λ i. signed i d)
      → c ≡ d
  quorums_agree n f c d third few once for_c for_d = elim (Bool-cases (c == d)) [
    | inl same ↦ (bytes_beq_iff c d).0 same
    | inr apart ↦
        let shared : ((i : ℕ) → signed i c ≡ true → signed i d ≡ true → faulty i ≡ true) =
          λ i at_c at_d. elim (Bool-cases (faulty i)) [
            | inl bad ↦ bad
            | inr honest ↦ absurd (ground (arith, once i c d honest at_c at_d, bytes_beq_iff c d))
          ] in
        let overlap = below-overlap n (λ i. signed i c) (λ i. signed i d) faulty shared in
        absurd (omega (arith, third, few, for_c, for_d, overlap))
  ]
