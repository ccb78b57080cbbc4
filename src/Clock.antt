-- ===== src/Clock.antt =====
-- Time in the broadcast protocols: `time.Since(start).Milliseconds() / config.TickInterval`, and
-- the loops that wait for a round. Times are whole milliseconds.
use blockchain_simulator.Base.{
  ℕ, zero, suc, ◌-◌, ◌/◌, ◌≤◌, ◌≡◌, refl, false, Option, none, some, if◌then◌else◌, arith,
  Bool-cases, inl, inr,
}
use blockchain_simulator.Base.Int.{ℤ, pos, negsuc, sub_ℕ, ltb_ℤ}

-- Go's `/` truncates towards zero.
abbrev pub quot_ℤ : ℤ → ℕ → ℤ
quot_ℤ (pos n) t = pos (n / t)
quot_ℤ (negsuc n) t = sub_ℕ 0 (suc n / t)

-- The round at a time. The tick interval is positive in every configuration; `/ 0` is 0 here.
unfoldable pub round_at : (tick start now : ℕ) → ℤ
round_at tick start now = quot_ℤ (sub_ℕ now start) tick

-- `for { if round < k { break }; time.Sleep(100ms) }`. The clock gives the time at each turn of the
-- loop; the answer is the turn at which the loop ends, if it ends within the turns given.
unfoldable pub wait_below : (turns : ℕ) (tick start : ℕ) (k : ℕ) (clock : ℕ → ℕ) → ℕ → Option ℕ
wait_below zero tick start k clock i = none
wait_below (suc turns) tick start k clock i =
    let rest = wait_below turns tick start k clock (suc i) in
    if ltb_ℤ (round_at tick start (clock i)) (pos k) then some i else rest

-- A clock that does not go back.
abbrev pub IsClock : (ℕ → ℕ) → Type 0
IsClock clock = (i : ℕ) → clock i ≤ clock (suc i)

div_mono : (x y t : ℕ) → x ≤ y → x / t ≤ y / t
div_mono x y t h = grind arith

round_at_mono :
    (tick start now later : ℕ) (k : ℕ)
    → now ≤ later
    → ltb_ℤ (round_at tick start now) (pos k) ≡ false
    → ltb_ℤ (round_at tick start later) (pos k) ≡ false
unfolding round_at
round_at_mono tick start now later k le h = ground (
  arith,
  div_mono (now - start) (later - start) tick,
  div_mono (start - later) (start - now) tick,
)

-- The loop ends at its first test or never: with a clock that does not go back, from a turn at
-- which the round is not below `k` no number of turns ends it.
pub wait_below_lem :
    (turns tick start k : ℕ) (clock : ℕ → ℕ) (i : ℕ)
    → IsClock clock
    → wait_below (suc turns) tick start k clock i
      ≡ (if ltb_ℤ (round_at tick start (clock i)) (pos k) then some i else none)
unfolding wait_below
wait_below_lem zero tick start k clock i mono = refl
wait_below_lem (suc turns) tick start k clock i mono =
    elim (Bool-cases (ltb_ℤ (round_at tick start (clock i)) (pos k))) [
      | inl now ↦ rw now
      | inr late ↦
          let later = round_at_mono tick start (clock i) (clock (suc i)) k (mono i) late in
          ground (arith, wait_below_lem turns tick start k clock (suc i) mono)
    ]
