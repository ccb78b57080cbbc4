-- ===== src/Structs/Account/Balances.antt =====
-- What the operations of structs/state_account.go do to the two balances, apart and shared.
use blockchain_simulator.Base.{
  ℕ, zero, suc, ◌≡◌, refl, ◌∙◌, Bool, true, false, [], ◌∷◌, Option, none, some, get_elem?, set,
  if◌then◌else◌, nat_beq, arith, Bool-cases, inl, inr,
}
use blockchain_simulator.Base.Int.{ℤ, ◌+ℤ◌, ◌-ℤ◌, ltb_ℤ}
use blockchain_simulator.Structs.Account.{
  Store, AccountState, value_at, write_at, deposit, deduct, rollback, commit,
}

get_elem?-set :
    (h : Store) (p q : ℕ) (v old : ℤ)
    → get_elem? h p ≡ some old
    → get_elem? (set h p v) q ≡ (if nat_beq p q then some v else get_elem? h q)
get_elem?-set [] p q v old is = ground arith
get_elem?-set (x ∷ h) zero zero v old is = refl
get_elem?-set (x ∷ h) zero (suc q) v old is = ground arith
get_elem?-set (x ∷ h) (suc p) zero v old is = ground arith
get_elem?-set (x ∷ h) (suc p) (suc q) v old is = ground (arith, get_elem?-set h p q v old is)

-- The balance that is left behind an operation that may stop the program.
abbrev pub balance_after : Option (Store × Bool) → AccountState → Option ℤ
balance_after none s = none
balance_after (some (h, done)) s = value_at s.balance h

abbrev pub deposited : Option Store → AccountState → Option ℤ
deposited none s = none
deposited (some h) s = value_at s.balance h

deduct_lem :
    (amount : ℤ) (s : AccountState) (h : Store) (d : ℕ) (v : ℤ)
    → s.dirty_balance ≡ some d
    → get_elem? h d ≡ some v
    → deduct amount s h
      ≡ some (if ltb_ℤ v amount then (h, false) else (set h d (v -ℤ amount), true))
unfolding deduct value_at write_at
deduct_lem amount s h d v at_d is_v = rw (at_d, deduct) (rw is_v (rw at_d refl))

deposit_lem :
    (amount : ℤ) (s : AccountState) (h : Store) (b d : ℕ) (v : ℤ)
    → s.balance ≡ some b
    → s.dirty_balance ≡ some d
    → get_elem? h d ≡ some v
    → deposit amount s h ≡ some (set h b (v +ℤ amount))
unfolding deposit value_at write_at
deposit_lem amount s h b d v at_b at_d is_v = rw (at_d, deposit) (rw is_v (rw at_b refl))

module _ (s : AccountState) (h : Store) (b d : ℕ) (v w amount : ℤ) where
  -- With two balances that are different objects: a deduction that is rolled back leaves the
  -- balance, and a deduction that is committed makes it the dirty balance less the amount, or the
  -- dirty balance where that is below the amount.
  pub deduct-commit :
      s.balance ≡ some b
      → s.dirty_balance ≡ some d
      → nat_beq d b ≡ false
      → get_elem? h b ≡ some w
      → get_elem? h d ≡ some v
      → (balance_after (deduct amount s h) (rollback s) ≡ some w)
        × (balance_after (deduct amount s h) (commit s)
            ≡ some (if ltb_ℤ v amount then v else v -ℤ amount))
  unfolding deduct value_at write_at
  deduct-commit at_b at_d apart is_w is_v =
      rw (deduct_lem amount s h d v at_d is_v) (elim (Bool-cases (ltb_ℤ v amount)) [
        | inl short ↦ rw short (rw (at_b, at_d, value_at) (is_w, is_v))
        | inr enough ↦ rw enough (
            rw (at_b, at_d, value_at)
              (
                (get_elem?-set h d b (v -ℤ amount) v is_v ∙ rw apart is_w),
                (get_elem?-set h d d (v -ℤ amount) v is_v ∙ ground arith),
              ))
      ])

  -- With two balances that are different objects: a deposit makes the balance the dirty balance
  -- plus the amount, and a commit after it takes the deposit back.
  pub deposit-commit :
      s.balance ≡ some b
      → s.dirty_balance ≡ some d
      → nat_beq d b ≡ false
      → get_elem? h b ≡ some w
      → get_elem? h d ≡ some v
      → (deposited (deposit amount s h) s ≡ some (v +ℤ amount))
        × (deposited (deposit amount s h) (commit s) ≡ some v)
  unfolding deposit value_at write_at
  deposit-commit at_b at_d apart is_w is_v = rw (deposit_lem amount s h b d v at_b at_d is_v) (
      rw (at_b, at_d, value_at)
        (
          (get_elem?-set h b b (v +ℤ amount) w is_w ∙ ground arith),
          (get_elem?-set h b d (v +ℤ amount) w is_w ∙ ground arith),
        ))

-- After a commit or a rollback the two balances are one object, and then a deduction that has
-- enough is not undone by a rollback.
pub deduct-rollback_shared :
    (s : AccountState) (h : Store) (b : ℕ) (v amount : ℤ)
    → s.balance ≡ some b
    → s.dirty_balance ≡ some b
    → get_elem? h b ≡ some v
    → ltb_ℤ v amount ≡ false
    → balance_after (deduct amount s h) (rollback s) ≡ some (v -ℤ amount)
unfolding deduct value_at write_at
deduct-rollback_shared s h b v amount at_b at_d is_v enough =
    rw (deduct_lem amount s h b v at_d is_v)
      (rw enough (rw (at_b, value_at) (get_elem?-set h b b (v -ℤ amount) v is_v ∙ ground arith)))
