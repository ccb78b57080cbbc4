-- ===== src/Structs/Account.antt =====
-- structs/state_account.go. The two balances are pointers to big integers: the integers stand in a
-- store, and two pointers may be one. `none` is a nil pointer that is dereferenced.
pub mod Balances
use blockchain_simulator.Base.{
  ℕ, Bool, true, false, List, Option, none, some, Bytes, get_elem?, set, if◌then◌else◌,
}
use blockchain_simulator.Base.Int.{ℤ, ◌+ℤ◌, ◌-ℤ◌, ltb_ℤ}

abbrev pub Store : Type 0
Store = List ℤ

pub record AccountState : Type 0 where
  pub ac_address : Bytes
  pub nonce : ℤ
  pub balance : Option ℕ
  pub dirty_balance : Option ℕ

-- The integer behind a pointer.
unfoldable pub value_at : Option ℕ → Store → Option ℤ
value_at none h = none
value_at (some p) h = get_elem? h p

abbrev pub get_balance : AccountState → Option ℕ
get_balance s = s.balance

-- `z.Add(x, y)` writes the object of `z`.
unfoldable pub write_at : Option ℕ → ℤ → Store → Option Store
write_at none v h = none
write_at (some p) v h = some (set h p v)

unfoldable pub deposit : (amount : ℤ) → AccountState → Store → Option Store
deposit amount s h = elim (value_at s.dirty_balance h) [
  | none ↦ none
  | some v ↦ write_at s.balance (v +ℤ amount) h
]

unfoldable pub deduct : (amount : ℤ) → AccountState → Store → Option (Store × Bool)
deduct amount s h = elim (value_at s.dirty_balance h) [
  | none ↦ none
  | some v ↦ elim (write_at s.dirty_balance (v -ℤ amount) h) [
    | none ↦ none
    | some h' ↦ some (if ltb_ℤ v amount then (h, false) else (h', true))
  ]
]

abbrev pub rollback : AccountState → AccountState
rollback s = record s { dirty_balance = s.balance }

abbrev pub commit : AccountState → AccountState
commit s = record s { balance = s.dirty_balance }
