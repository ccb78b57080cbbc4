-- ===== src/Coding/Field/Laws.antt =====
-- Multiply and Divide of addon/coding/GaloisField.go against the reference product. The tables
-- are checked entry by entry, by evaluation.
use blockchain_simulator.Base.{
  ℕ, zero, suc, ◌+◌, ◌%◌, ◌<◌, ◌≡◌, refl, ap, arith, ◌∙◌, sym, inl, inr, Bool, not, ◌&&◌, true,
  false, nat_beq, ltb, if◌then◌else◌, none, some, Option-cases,
}
use blockchain_simulator.Base.Int.{ℤ, pos, negsuc, ◌+ℤ◌, ◌-ℤ◌, ltb_ℤ}
use blockchain_simulator.Coding.Field.{xor, exp_at, log_at, multiply, divide}
use blockchain_simulator.Coding.Field.Product.{
  xtime, xtime_lt, gf_mul, gf_mul-xtime, gf_mul-zero_left, gf_mul-zero_right,
}

all_below : ℕ → (ℕ → Bool) → Bool
all_below zero p = true
all_below (suc n) p = p n && all_below n p

all_below_lem : (n : ℕ) (p : ℕ → Bool) (i : ℕ) → all_below n p ≡ true → i < n → p i ≡ true
unfolding all_below
all_below_lem zero p x h lt = absurd (omega arith)
all_below_lem (suc n) p x h lt = ground (arith, all_below_lem n p x)

-- The logarithm of a byte that is not 0 is below 255, and the table of powers undoes it.
abbrev log_ok : ℕ → Bool
log_ok a = elim (log_at (suc a)) [
  | none ↦ false
  | some l ↦ elim l [
    | pos i ↦ ltb i 255 && elim (exp_at (pos i)) [ none ↦ false | some v ↦ nat_beq v (suc a) ]
    | negsuc i ↦ false
  ]
]

log_table_ok : all_below 255 log_ok ≡ true
unfolding all_below exp_at log_at
log_table_ok = refl

-- The table of powers has 510 entries, each x times the one before.
abbrev step_ok : ℕ → Bool
step_ok i = elim (exp_at (pos i)) [
  | none ↦ false
  | some v ↦ elim (exp_at (pos (suc i))) [ none ↦ false | some w ↦ nat_beq w (xtime v) ]
]

exp_table_ok : all_below 509 step_ok ≡ true
unfolding all_below exp_at xtime xor
exp_table_ok = refl

-- A power is not 0, and its logarithm is the exponent modulo 255.
abbrev power_ok : ℕ → Bool
power_ok i = elim (exp_at (pos i)) [
  | none ↦ false
  | some v ↦ elim (log_at v) [
    | none ↦ false
    | some l ↦ elim l [ pos j ↦ not (nat_beq v 0) && nat_beq j (i % 255) | negsuc j ↦ false ]
  ]
]

power_table_ok : all_below 510 power_ok ≡ true
unfolding all_below exp_at log_at
power_table_ok = refl

one_table_ok : all_below 256 (λ a. nat_beq (gf_mul 8 a 1) a) ≡ true
unfolding all_below gf_mul xtime xor
one_table_ok = refl

log_of_byte :
    (a : ℕ)
    → a < 255
    → (l : ℕ) × (log_at (suc a) ≡ some (pos l)) × (l < 255) × (exp_at (pos l) ≡ some (suc a))
log_of_byte a h =
    let ok = all_below_lem 255 log_ok a log_table_ok h in
    elim (Option-cases (log_at (suc a))) [
      | inl is ↦ absurd (ground arith)
      | inr (l, is) ↦ log_of_entry a l is ok
    ]
  where
    log_of_entry :
        (a : ℕ) (l : ℤ)
        → log_at (suc a) ≡ some l
        → log_ok a ≡ true
        → (l : ℕ) × (log_at (suc a) ≡ some (pos l)) × (l < 255) × (exp_at (pos l) ≡ some (suc a))
    log_of_entry a (negsuc l) is ok = absurd (ground arith)
    log_of_entry a (pos l) is ok = (l, is, ground arith, ground arith)

exp_step : (i v : ℕ) → i < 509 → exp_at (pos i) ≡ some v → exp_at (pos (suc i)) ≡ some (xtime v)
exp_step i v h is = ground (arith, all_below_lem 509 step_ok i exp_table_ok h)

xtimes : ℕ → ℕ → ℕ
xtimes zero a = a
xtimes (suc n) a = xtime (xtimes n a)

exp-xtimes :
    (n i k v : ℕ)
    → k ≡ n + i
    → k < 510
    → exp_at (pos i) ≡ some v
    → exp_at (pos k) ≡ some (xtimes n v)
unfolding xtimes
exp-xtimes zero i k v e h is = let same : k ≡ i = omega arith in rw same is
exp-xtimes (suc n) i k v e h is =
    let same : k ≡ suc (n + i) = omega arith in
    rw same
      (exp_step (n + i) (xtimes n v) (omega arith) (exp-xtimes n i (n + i) v refl (omega arith) is))

xtimes_lt : (n a : ℕ) → a < 256 → xtimes n a < 256
unfolding xtimes
xtimes_lt zero a h = h
xtimes_lt (suc n) a h = xtime_lt (xtimes n a)

gf_mul-xtimes : (n a b : ℕ) → b < 256 → gf_mul 8 a (xtimes n b) ≡ xtimes n (gf_mul 8 a b)
unfolding xtimes
gf_mul-xtimes zero a b h = refl
gf_mul-xtimes (suc n) a b h =
    gf_mul-xtime 8 a (xtimes n b) (xtimes_lt n b h) ∙ ap xtime (gf_mul-xtimes n a b h)

gf_mul-one : (a : ℕ) → a < 256 → gf_mul 8 a 1 ≡ a
gf_mul-one a h = ground (arith, all_below_lem 256 (λ a. nat_beq (gf_mul 8 a 1) a) a one_table_ok h)

exp-zero : exp_at (pos 0) ≡ some 1
unfolding exp_at
exp-zero = refl

-- The power at the sum of two logarithms is the reference product.
exp-sum :
    (i j a b : ℕ)
    → a < 256
    → i < 255
    → j < 255
    → exp_at (pos i) ≡ some a
    → exp_at (pos j) ≡ some b
    → exp_at (pos (i + j)) ≡ some (gf_mul 8 a b)
exp-sum i j a b p hi hj pi pj =
    let from_one = exp-xtimes j 0 j 1 (omega arith) (omega arith) exp-zero in
    let both = exp-xtimes j i (i + j) a (omega arith) (omega arith) pi in
    let value = gf_mul-xtimes j a 1 (omega arith) in
    let is_b : xtimes j 1 ≡ b = ground arith in
    let is_a = gf_mul-one a p in
    both ∙ ap some (ap (xtimes j) (sym is_a) ∙ sym value ∙ ap (gf_mul 8 a) is_b)

suc_beq_zero : (n : ℕ) → nat_beq (suc n) 0 ≡ false
suc_beq_zero n = ground arith

log_sum : (i j : ℕ) → exp_at (pos i +ℤ pos j) ≡ exp_at (pos (i + j))
unfolding ◌+ℤ◌
log_sum i j = ap exp_at (ground arith)

-- `Multiply` never reads outside of the tables, and for all bytes it is the product of polynomials
-- modulo x^8 + x^4 + x^3 + x^2 + 1.
pub multiply_correct : (a b : ℕ) → a < 256 → b < 256 → multiply a b ≡ some (gf_mul 8 a b)
unfolding multiply
multiply_correct zero b p q = rw (gf_mul-zero_left 8 b) refl
multiply_correct (suc a) zero p q = rw (gf_mul-zero_right 8 (suc a)) (ground arith)
multiply_correct (suc a) (suc b) p q =
    let (i, is_i, hi, pi) = log_of_byte a (omega arith) in
    let (j, is_j, hj, pj) = log_of_byte b (omega arith) in
    rw (suc_beq_zero a) (
      rw (suc_beq_zero b)
        (rw is_i (rw is_j (log_sum i j ∙ exp-sum i j (suc a) (suc b) p hi hj pi pj))))

log_of_power :
    (k v : ℕ)
    → k < 510
    → exp_at (pos k) ≡ some v
    → (log_at v ≡ some (pos (k % 255))) × (nat_beq v 0 ≡ false)
log_of_power k v h is =
    let ok = all_below_lem 510 power_ok k power_table_ok h in
    elim (Option-cases (log_at v)) [
      | inl no_log ↦ absurd (ground arith)
      | inr (l, log) ↦ power_entry l log ok
    ]
  where
    power_entry :
        (l : ℤ)
        → log_at v ≡ some l
        → power_ok k ≡ true
        → (log_at v ≡ some (pos (k % 255))) × (nat_beq v 0 ≡ false)
    power_entry (negsuc l) log ok = absurd (ground arith)
    power_entry (pos l) log ok = ground arith

-- The difference of logarithms, brought back into range.
log_difference :
    (i j : ℕ)
    → i < 255
    → j < 255
    → let d = pos ((i + j) % 255) -ℤ pos j in (if ltb_ℤ d (pos 0) then d +ℤ pos 255 else d) ≡ pos i
unfolding ◌+ℤ◌ ◌-ℤ◌
log_difference i j hi hj = ground arith

-- `Divide` undoes `Multiply`: the product of a byte with a byte that is not 0, divided by the
-- second, is the first.
pub divide-multiply :
    (a b c : ℕ) → a < 256 → 0 < b → b < 256 → multiply a b ≡ some c → divide c b ≡ some a
unfolding divide multiply
divide-multiply a zero c p r q is = absurd (omega arith)
divide-multiply zero (suc b) c p r q is = ground arith
divide-multiply (suc a) (suc b) c p r q is =
    let (i, is_i, hi, pi) = log_of_byte a (omega arith) in
    let (j, is_j, hj, pj) = log_of_byte b (omega arith) in
    let power : exp_at (pos (i + j)) ≡ some c =
      exp-sum i j (suc a) (suc b) p hi hj pi pj ∙ sym (multiply_correct (suc a) (suc b) p q) ∙ is in
    let log = log_of_power (i + j) c (omega arith) power in
    rw log.1 (rw (suc_beq_zero b) (rw log.0 (rw is_j (rw (log_difference i j hi hj) pi))))
