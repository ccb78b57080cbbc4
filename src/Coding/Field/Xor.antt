-- ===== src/Coding/Field/Xor.antt =====
-- Add of addon/coding/GaloisField.go on bits: the exclusive or is a sum without carries, and a
-- doubling in the field respects it.
use blockchain_simulator.Base.{
  ℕ, zero, suc, ◌+◌, ◌*◌, ◌/◌, ◌%◌, ◌<◌, ◌≡◌, refl, arith, Bool, not, if◌then◌else◌, ◌^◌,
}
use blockchain_simulator.Coding.Field.{xor}

pub xor_comm : (w a b : ℕ) → xor w a b ≡ xor w b a
unfolding xor
xor_comm zero a b = refl
xor_comm (suc w) a b = omega (arith, xor_comm w (a / 2) (b / 2))

-- The bits above the lowest.
xor-half :
    (w x y : ℕ) → ((x % 2 + y % 2) % 2 + 2 * xor w (x / 2) (y / 2)) / 2 ≡ xor w (x / 2) (y / 2)
xor-half w x y = omega arith

pub xor_assoc : (w a b c : ℕ) → xor w (xor w a b) c ≡ xor w a (xor w b c)
unfolding xor
xor_assoc zero a b c = refl
xor_assoc (suc w) a b c =
    rw (xor-half w a b) (rw (xor-half w b c) (omega (arith, xor_assoc w (a / 2) (b / 2) (c / 2))))

pub xor_self : (w a : ℕ) → xor w a a ≡ 0
unfolding xor
xor_self zero a = refl
xor_self (suc w) a = omega (arith, xor_self w (a / 2))

pub xor_zero : (w a : ℕ) → a < 2 ^ w → xor w 0 a ≡ a
unfolding xor
xor_zero zero a h = omega arith
xor_zero (suc w) a h = omega (arith, xor_zero w (a / 2) (omega arith))

pub xor_lt : (w a b : ℕ) → xor w a b < 2 ^ w
unfolding xor
xor_lt zero a b = omega arith
xor_lt (suc w) a b = omega (arith, xor_lt w (a / 2) (b / 2))

-- A digit at the top, above the lowest `w` bits.
abbrev pub top : ℕ → Bool → ℕ
top w t = if t then 2 ^ w else 0

half_top : (w a : ℕ) (t : Bool) → (a + top (suc w) t) / 2 ≡ a / 2 + top w t
half_top w a t = ground arith

even_top : (w a : ℕ) (t : Bool) → (a + top (suc w) t) % 2 ≡ a % 2
even_top w a t = ground arith

pub xor-top :
    (w a b : ℕ) (s t : Bool)
    → a < 2 ^ w
    → b < 2 ^ w
    → xor (suc w) (a + top w s) (b + top w t) ≡ xor w a b + top w (if s then not t else t)
unfolding xor
xor-top zero a b s t p q = ground arith
xor-top (suc w) a b s t p q = rw (half_top w a s) (
    rw (half_top w b t) (
      ground (
        arith,
        xor-top w (a / 2) (b / 2) s t (omega arith) (omega arith),
        even_top w a s,
        even_top w b t,
      )))
