-- ===== src/Utils/Shard/Range.antt =====
-- The range of utils/shard.go's Addr2Shard.
use blockchain_simulator.Base.{
  ℕ, suc, ◌+◌, ◌-◌, ◌*◌, ◌%◌, ◌^◌, ◌<◌, ◌≡◌, refl, false, [], ◌∷◌, ◌++◌, some, Bytes, All, length,
  drop, ltb, if◌then◌else◌, nat_beq, arith, Bool-cases, inl, inr, length-append, ap, ◌∙◌,
}
use blockchain_simulator.Base.Int.{pos, sub_ℕ}
use blockchain_simulator.Utils.Shard.{ShardConfig, word_of, signed64, rem_ℤ, addr_2_shard}

abbrev pub IsBytes : Bytes → Type 0
IsBytes = All (λ b. b < 256)

-- The modulus in use.
abbrev pub modulus : ShardConfig → ℕ
modulus c = if c.consensus_method_is_cshard then c.k else c.shard_num

-- Eight bytes as a big-endian number.
abbrev pub big_endian : ℕ → ℕ → ℕ → ℕ → ℕ → ℕ → ℕ → ℕ → ℕ
big_endian a b c d e f g h =
    ((((((a * 256 + b) * 256 + c) * 256 + d) * 256 + e) * 256 + f) * 256 + g) * 256 + h

drop-append : (xs ys : Bytes) → drop (length xs) (xs ++ ys) ≡ ys
drop-append [] ys = refl
drop-append (x ∷ xs) ys = drop-append xs ys

word_of_eight :
    (a b c d e f g h : ℕ)
    → IsBytes (a ∷ b ∷ c ∷ d ∷ e ∷ f ∷ g ∷ h ∷ [])
    → word_of 0 (a ∷ b ∷ c ∷ d ∷ e ∷ f ∷ g ∷ h ∷ []) ≡ big_endian a b c d e f g h
unfolding word_of
word_of_eight a b c d e f g h bs = omega arith

rem-signed64 :
    (n m : ℕ)
    → n < 2 ^ 64
    → rem_ℤ (signed64 n) m ≡ (if ltb n (2 ^ 63) then pos (n % m) else sub_ℕ 0 ((2 ^ 64 - n) % m))
rem-signed64 n m lt = elim (Bool-cases (ltb n (2 ^ 63))) [
  | inl low ↦ rw low
  | inr high ↦ rw high (let e : suc (2 ^ 64 - n - 1) ≡ 2 ^ 64 - n = omega (arith, lt) in rw e)
]

module _ (c : ShardConfig) (pre : Bytes) (a b d e f g h i : ℕ) where
  abbrev last : Bytes
  last = a ∷ b ∷ d ∷ e ∷ f ∷ g ∷ h ∷ i ∷ []

  length-last : length (pre ++ last) ≡ length pre + 8
  length-last = omega (arith, length-append pre last)

  suffix : drop (length (pre ++ last) - 8) (pre ++ last) ≡ last
  suffix =
      let at : length (pre ++ last) - 8 ≡ length pre = omega (arith, length-last) in
      ap (λ n. drop n (pre ++ last)) at ∙ drop-append pre last

  top_bit : IsBytes last → ltb (big_endian a b d e f g h i) (2 ^ 63) ≡ ltb a 128
  top_bit bs = ground arith

  -- The shard of an address of at least eight bytes, whose last eight bytes are `a` to `i`, under
  -- a modulus that is not zero: the remainder of their big-endian number where the first of the
  -- eight is an ASCII byte, and otherwise minus the remainder of the two's complement.
  pub addr_2_shard_lem :
      IsBytes last
      → 0 < modulus c
      → addr_2_shard c (pre ++ last)
        ≡ some (
            if ltb a 128
            then pos (big_endian a b d e f g h i % modulus c)
            else sub_ℕ 0 ((2 ^ 64 - big_endian a b d e f g h i) % modulus c))
  unfolding addr_2_shard
  addr_2_shard_lem bs m =
      let enough : ltb (length (pre ++ last)) 8 ≡ false = ground (arith, length-last) in
      let nonzero : nat_beq (modulus c) 0 ≡ false = ground arith in
      let n = big_endian a b d e f g h i in
      rw (
        suffix,
        enough,
        nonzero,
        word_of_eight a b d e f g h i bs,
        rem-signed64 n (modulus c) (omega arith),
        top_bit bs,
      )
