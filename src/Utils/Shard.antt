-- ===== src/Utils/Shard.antt =====
-- utils/shard.go: which shard an address belongs to, and the neighbours of a node.
pub mod Range
use blockchain_simulator.Base.{
  ℕ, zero, suc, ◌+◌, ◌-◌, ◌*◌, ◌/◌, ◌%◌, ◌^◌, ◌<◌, ◌≡◌, Bool, true, false, not, List, [], ◌∷◌,
  Option, none, some, Bytes, Map, Eq, ◌==◌, length, drop, ltb, leb, if◌then◌else◌, nat_beq,
}
use blockchain_simulator.Base.Int.{ℤ, pos, negsuc, neg_part, sub_ℕ}

-- What the file reads of package config.
pub record ShardConfig : Type 0 where
  pub consensus_method_is_cshard : Bool
  pub k : ℕ
  pub shard_num : ℕ

-- `num = (num << 8) | int(b)` over 64-bit words: after the shift the low byte is clear, so `|` of
-- a byte adds it.
unfoldable pub word_of : ℕ → Bytes → ℕ
word_of num [] = num
word_of num (b ∷ bs) = word_of (num * 256 % 2 ^ 64 + b) bs

-- The `int` that a 64-bit pattern stands for.
abbrev pub signed64 : ℕ → ℤ
signed64 w = if ltb w (2 ^ 63) then pos w else negsuc (2 ^ 64 - w - 1)

-- Go's `%` truncates towards zero: the remainder has the sign of the dividend.
abbrev pub rem_ℤ : ℤ → ℕ → ℤ
rem_ℤ (pos n) m = pos (n % m)
rem_ℤ (negsuc n) m = sub_ℕ 0 (suc n % m)

-- `none` is a panic: a slice bound below zero, or a division by zero.
unfoldable pub addr_2_shard : ShardConfig → Bytes → Option ℤ
addr_2_shard c addr =
    let m = if c.consensus_method_is_cshard then c.k else c.shard_num in
    let num = signed64 (word_of 0 (drop (length addr - 8) addr)) in
    if ltb (length addr) 8 then none else if nat_beq m 0 then none else some (rem_ℤ num m)

module _ {Addr : Type 0} ⦃e : Eq Addr⦄ where
  unfoldable pub get_neighbours : Map ℕ Addr → Addr → List Addr
  get_neighbours [] self = []
  get_neighbours ((i, ip) ∷ ips) self =
      let rest = get_neighbours ips self in if ip == self then rest else ip ∷ rest
