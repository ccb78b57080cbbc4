-- ===== src/Traffic/Addresses.antt =====
-- sendMimicContractTxs.go: where the random addresses lie, and that a tick ends.
use mathlib.Core.Path.{subst}
use blockchain_simulator.Base.{
  ℕ, ◌≤◌, ◌<◌, ◌/◌, ◌%◌, ◌≡◌, refl, sym, ap, ◌∙◌, true, List, [], ◌∷◌, ◌++◌, Option, some, Bytes,
  Map, ltb, arith, All, length,
}
use blockchain_simulator.Base.Int.{ℤ, pos, ℤ-eq}
use blockchain_simulator.P2p.{Effect}
use blockchain_simulator.Utils.Shard.{ShardConfig, addr_2_shard}
use blockchain_simulator.Utils.Shard.Range.{IsBytes, modulus, big_endian, addr_2_shard_lem}
use blockchain_simulator.Structs.Transaction.{Tx, AccountTransaction, to, new_account_transaction}
use blockchain_simulator.Config.{IpMap}
use blockchain_simulator.Traffic.{
  Draw, digit, hex_encode, random_addr, shard_of, generate_mimic_account_txs, append_tx, group_txs,
  mimic_turn, inject_all, first_ip,
}

hex_encode-append : (xs ys : Bytes) → hex_encode (xs ++ ys) ≡ hex_encode xs ++ hex_encode ys
unfolding hex_encode
hex_encode-append [] ys = refl
hex_encode-append (x ∷ xs) ys =
    ap (λ l. digit (x / 16) ∷ digit (x % 16) ∷ l) (hex_encode-append xs ys)

-- A shard that there is.
abbrev pub InRange : ShardConfig → Option ℤ → Type 0
InRange c o = (k : ℕ) × (o ≡ some (pos k)) × (k < modulus c)

digit-low : (w : ℕ) → w < 256 → ltb (digit (w / 16)) 128 ≡ true
digit-low w small = ground arith

digits-IsBytes :
    (w x y z : ℕ)
    → IsBytes (w ∷ x ∷ y ∷ z ∷ [])
    → IsBytes (
        digit (w / 16)
        ∷ digit (w % 16)
        ∷ digit (x / 16)
        ∷ digit (x % 16)
        ∷ digit (y / 16)
        ∷ digit (y % 16)
        ∷ digit (z / 16)
        ∷ digit (z % 16)
        ∷ [])
digits-IsBytes w x y z bytes = ground arith

mod_below : (n m : ℕ) → 0 < m → n % m < m
mod_below n m positive = grind arith

four-InRange :
    (c : ShardConfig) (pre : Bytes) (w x y z : ℕ)
    → IsBytes (w ∷ x ∷ y ∷ z ∷ [])
    → 0 < modulus c
    → InRange c (addr_2_shard c (random_addr (pre ++ (w ∷ x ∷ y ∷ z ∷ []))))
unfolding hex_encode
four-InRange c pre w x y z bytes positive =
    let at = hex_encode pre in
    let a = digit (w / 16) in
    let b = digit (w % 16) in
    let d = digit (x / 16) in
    let e = digit (x % 16) in
    let f = digit (y / 16) in
    let g = digit (y % 16) in
    let h = digit (z / 16) in
    let i = digit (z % 16) in
    let small : IsBytes (a ∷ b ∷ d ∷ e ∷ f ∷ g ∷ h ∷ i ∷ []) = digits-IsBytes w x y z bytes in
    let low : ltb a 128 ≡ true = digit-low w bytes.0 in
    let shard = addr_2_shard_lem c at a b d e f g h i small positive in
    (
      big_endian a b d e f g h i % modulus c,
      ap (addr_2_shard c) (hex_encode-append pre (w ∷ x ∷ y ∷ z ∷ [])) ∙ shard ∙ (rw low refl),
      mod_below (big_endian a b d e f g h i) (modulus c) positive,
    )

-- The last four of at least four bytes.
last_four :
    (xs : Bytes)
    → 4 ≤ length xs
    → IsBytes xs
    → (pre : Bytes) × (w : ℕ) × (x : ℕ) × (y : ℕ) × (z : ℕ) × (xs ≡ pre ++ (w ∷ x ∷ y ∷ z ∷ []))
      × IsBytes (w ∷ x ∷ y ∷ z ∷ [])
last_four [] le bytes = absurd (ground (arith, le))
last_four (a ∷ []) le bytes = absurd (ground (arith, le))
last_four (a ∷ b ∷ []) le bytes = absurd (ground (arith, le))
last_four (a ∷ b ∷ d ∷ []) le bytes = absurd (ground (arith, le))
last_four (a ∷ b ∷ d ∷ e ∷ []) le bytes = ([], a, b, d, e, refl, bytes)
last_four (a ∷ b ∷ d ∷ e ∷ f ∷ xs) le bytes =
    let (pre, w, x, y, z, is, rest) = last_four (b ∷ d ∷ e ∷ f ∷ xs) (omega arith) bytes.1 in
    (a ∷ pre, w, x, y, z, ap (λ l. a ∷ l) is, rest)

random_addr-InRange :
    (c : ShardConfig) (raw : Bytes)
    → 4 ≤ length raw
    → IsBytes raw
    → 0 < modulus c
    → InRange c (addr_2_shard c (random_addr raw))
random_addr-InRange c raw le bytes positive =
    let (pre, w, x, y, z, is, last) = last_four raw le bytes in
    subst (λ l. InRange c (addr_2_shard c (random_addr l))) (sym is)
      (four-InRange c pre w x y z last positive)

module _ {Time : Type 0} (Float : Type 0) (c : ShardConfig) (sum : AccountTransaction Time → Bytes)
    (positive : 0 < modulus c) where
  account_txs-InRange :
      (draws : List (Draw Time))
      → All (λ d. (4 ≤ length d.recipient) × IsBytes d.recipient) draws
      → All (λ tx. InRange c (shard_of c tx)) (generate_mimic_account_txs {Float = Float} sum draws)
  unfolding generate_mimic_account_txs shard_of to new_account_transaction
  account_txs-InRange [] drawn = tt
  account_txs-InRange (d ∷ ds) (ok, drawn) =
      (random_addr-InRange c d.recipient ok.0 ok.1 positive, account_txs-InRange ds drawn)

  group_txs-ends :
      (txs : List (Tx Time Float)) (m : Map ℤ (List (Tx Time Float)))
      → All (λ tx. InRange c (shard_of c tx)) txs
      → (m' : Map ℤ (List (Tx Time Float))) × (group_txs (shard_of c) txs m ≡ some m')
  unfolding group_txs
  group_txs-ends [] m all = (m, refl)
  group_txs-ends (tx ∷ txs) m ((k, is, below), all) =
      let (m', rest) = group_txs-ends txs (append_tx (pos k) tx m) all in
      (m', rw (is, group_txs) rest)

  -- With a modulus that is not zero, and recipients drawn with at least four bytes: a tick that
  -- sends mimic account transactions ends without a panic, and the shard of each transaction is
  -- one of those that there are.
  pub mimic_turn-ends :
      {Addr : Type 0} (encode : List (Tx Time Float) → Bytes) (no_addr : Addr) (ips : IpMap Addr)
      (draws : List (Draw Time))
      → All (λ d. (4 ≤ length d.recipient) × IsBytes d.recipient) draws
      → (sent : List (Effect Addr)) × (mimic_turn c encode no_addr ips
            (generate_mimic_account_txs sum draws)
          ≡ some sent)
        × All
            (λ tx. InRange c (shard_of c tx))
            (generate_mimic_account_txs {Float = Float} sum draws)
  unfolding mimic_turn
  mimic_turn-ends encode no_addr ips draws drawn =
      let all = account_txs-InRange draws drawn in
      let (m, made) = group_txs-ends (generate_mimic_account_txs sum draws) [] all in
      (inject_all encode (first_ip no_addr ips) m, rw (made, mimic_turn) refl, all)
