-- ===== src/Coding/Field/Product.antt =====
-- The reference product of the field: the product of polynomials over two elements, modulo
-- x^8 + x^4 + x^3 + x^2 + 1, bit by bit and without tables.
use blockchain_simulator.Base.{
  ℕ, zero, suc, ◌+◌, ◌*◌, ◌/◌, ◌%◌, ◌<◌, ◌≡◌, refl, ap, arith, ◌∙◌, sym, inl, inr, Bool, not, true,
  false, nat_beq, leb, if◌then◌else◌, Bool-cases,
}
use blockchain_simulator.Coding.Field.{xor}
use blockchain_simulator.Coding.Field.Xor.{xor_comm, xor_assoc, xor_self, xor_lt, xor-top, top}

-- What a carry out of the eighth bit adds: x^8 is x^4 + x^3 + x^2 + 1.
abbrev pub carry : Bool → ℕ
carry t = if t then 29 else 0

-- The product with x.
unfoldable pub xtime : ℕ → ℕ
xtime a = xor 8 (2 * (a % 128)) (carry (leb 128 a))

unfoldable pub gf_mul : (width : ℕ) → ℕ → ℕ → ℕ
gf_mul zero a b = 0
gf_mul (suc w) a b = xor 8 (if nat_beq (a % 2) 1 then b else 0) (gf_mul w (a / 2) (xtime b))

pub xor_swap : (w a b c d : ℕ) → xor w (xor w a b) (xor w c d) ≡ xor w (xor w a c) (xor w b d)
xor_swap w a b c d =
    xor_assoc w a b (xor w c d)
    ∙ ap (xor w a)
        (sym (xor_assoc w b c d) ∙ ap (λ x. xor w x d) (xor_comm w b c) ∙ xor_assoc w c b d)
    ∙ sym (xor_assoc w a c (xor w b d))

mod_double : (a : ℕ) → 2 * a % 2 ≡ 0
mod_double a = omega arith

half_double : (a : ℕ) → 2 * a / 2 ≡ a
half_double a = omega arith

xor_double : (w a b : ℕ) → xor (suc w) (2 * a) (2 * b) ≡ 2 * xor w a b
unfolding xor
xor_double w a b =
    rw (mod_double a) (rw (mod_double b) (rw (half_double a) (rw (half_double b) (omega arith))))

-- A byte is its lower seven bits and its top bit.
byte_parts : (a : ℕ) → a < 256 → a ≡ a % 128 + top 7 (leb 128 a)
byte_parts a h = ground arith

xor_parts :
    (a b : ℕ)
    → a < 256
    → b < 256
    → xor 8 a b
      ≡ xor 7 (a % 128) (b % 128) + top 7 (if leb 128 a then not (leb 128 b) else leb 128 b)
xor_parts a b p q =
    ap (λ x. xor 8 x b) (byte_parts a p)
    ∙ ap (xor 8 (a % 128 + top 7 (leb 128 a))) (byte_parts b q)
    ∙ xor-top 7 (a % 128) (b % 128) (leb 128 a) (leb 128 b) (omega arith) (omega arith)

carry-xor : (s t : Bool) → carry (if s then not t else t) ≡ xor 8 (carry s) (carry t)
unfolding xor
carry-xor true true = refl
carry-xor true false = refl
carry-xor false true = refl
carry-xor false false = refl

pub xtime_lt : (a : ℕ) → xtime a < 256
unfolding xtime
xtime_lt a = xor_lt 8 (2 * (a % 128)) (carry (leb 128 a))

-- The top bit and the rest of a number that is given by them.
parts_of_sum :
    (a : ℕ) (t : Bool) → a < 128 → (leb 128 (a + top 7 t) ≡ t) × ((a + top 7 t) % 128 ≡ a)
parts_of_sum a t h = ground arith

pub xtime-xor : (a b : ℕ) → a < 256 → b < 256 → xtime (xor 8 a b) ≡ xor 8 (xtime a) (xtime b)
unfolding xtime
xtime-xor a b p q =
    let s = leb 128 a in
    let t = leb 128 b in
    let low = xor 7 (a % 128) (b % 128) in
    let split = parts_of_sum low (if s then not t else t) (xor_lt 7 (a % 128) (b % 128)) in
    rw (xor_parts a b p q) (
      rw split.0 (
        rw split.1 (
          ap (λ x. xor 8 x (carry (if s then not t else t)))
            (sym (xor_double 7 (a % 128) (b % 128)))
          ∙ ap (xor 8 (xor 8 (2 * (a % 128)) (2 * (b % 128)))) (carry-xor s t)
          ∙ xor_swap 8 (2 * (a % 128)) (2 * (b % 128)) (carry s) (carry t))))

pub gf_mul_lt : (w a b : ℕ) → gf_mul w a b < 256
unfolding gf_mul
gf_mul_lt zero a b = omega arith
gf_mul_lt (suc w) a b = xor_lt 8 _ _

pub xtime-zero : xtime 0 ≡ 0
unfolding xtime xor
xtime-zero = refl

pub gf_mul-zero_right : (w a : ℕ) → gf_mul w a 0 ≡ 0
unfolding gf_mul
gf_mul-zero_right zero a = refl
gf_mul-zero_right (suc w) a = elim (Bool-cases (nat_beq (a % 2) 1)) [
  | inl h ↦ rw h (rw xtime-zero (rw (gf_mul-zero_right w (a / 2)) (xor_self 8 0)))
  | inr h ↦ rw h (rw xtime-zero (rw (gf_mul-zero_right w (a / 2)) (xor_self 8 0)))
]

pub gf_mul-zero_left : (w b : ℕ) → gf_mul w 0 b ≡ 0
unfolding gf_mul
gf_mul-zero_left zero b = refl
gf_mul-zero_left (suc w) b = rw (gf_mul-zero_left w (xtime b)) (xor_self 8 0)

-- The reference product with x times a factor is x times the product.
pub gf_mul-xtime : (w a b : ℕ) → b < 256 → gf_mul w a (xtime b) ≡ xtime (gf_mul w a b)
unfolding gf_mul
gf_mul-xtime zero a b h = sym xtime-zero
gf_mul-xtime (suc w) a b h =
    let odd = nat_beq (a % 2) 1 in
    let first : ℕ = if odd then b else 0 in
    let here : (if odd then xtime b else 0) ≡ xtime first = elim (Bool-cases odd) [
      | inl h ↦ rw h refl
      | inr h ↦ rw h (sym xtime-zero)
    ] in
    let small : first < 256 = ground arith in
    rw here (
      rw (gf_mul-xtime w (a / 2) (xtime b) (xtime_lt b))
        (sym (xtime-xor first (gf_mul w (a / 2) (xtime b)) small (gf_mul_lt w (a / 2) (xtime b)))))
