-- ===== src/Client/Totals.antt =====
-- measureAddon_TPS.go: what the records and the rows of the result say, over any replies.
use blockchain_simulator.Base.{
  ℕ, zero, suc, ◌+◌, ◌-◌, ◌<◌, ◌≡◌, refl, ap, List, [], ◌∷◌, ◌++◌, Option, none, some, Bytes,
  length, get_or, set, replicate, leb, nat_beq, nat_beq_iff, if◌then◌else◌, arith, Bool-cases,
  Option-cases, inl, inr, length-append,
}
use blockchain_simulator.Client.Measure.{Reply, extend, update_tps, tps_rows}

abbrev pub sum : List ℕ → ℕ
sum [] = 0
sum (n ∷ ns) = n + sum ns

get_or-zeros : (xs : List ℕ) (k i : ℕ) → get_or (xs ++ replicate k 0) i 0 ≡ get_or xs i 0
get_or-zeros [] zero i = refl
get_or-zeros [] (suc k) zero = refl
get_or-zeros [] (suc k) (suc i) = get_or-zeros [] k i
get_or-zeros (x ∷ xs) k zero = refl
get_or-zeros (x ∷ xs) k (suc i) = get_or-zeros xs k i

length-replicate : (k : ℕ) → length {A = ℕ} (replicate k 0) ≡ k
length-replicate zero = refl
length-replicate (suc k) = ap suc (length-replicate k)

sum-zeros : (xs : List ℕ) (k : ℕ) → sum (xs ++ replicate k 0) ≡ sum xs
sum-zeros [] zero = refl
sum-zeros [] (suc k) = omega (arith, sum-zeros [] k)
sum-zeros (x ∷ xs) k = omega (arith, sum-zeros xs k)

get_or-set :
    (xs : List ℕ) (j i v : ℕ)
    → j < length xs
    → get_or (set xs j v) i 0 ≡ (if nat_beq j i then v else get_or xs i 0)
get_or-set [] j i v h = ground arith
get_or-set (x ∷ xs) zero zero v h = refl
get_or-set (x ∷ xs) zero (suc i) v h = ground arith
get_or-set (x ∷ xs) (suc j) zero v h = ground arith
get_or-set (x ∷ xs) (suc j) (suc i) v h = ground (arith, get_or-set xs j i v (ground arith))

sum-set : (xs : List ℕ) (j v : ℕ) → j < length xs → sum (set xs j v) + get_or xs j 0 ≡ sum xs + v
sum-set [] j v h = ground arith
sum-set (x ∷ xs) zero v h = omega arith
sum-set (x ∷ xs) (suc j) v h = omega (arith, sum-set xs j v (ground arith))

length-extend : (elapsed : ℕ) (tps : List ℕ) → elapsed < length (extend elapsed tps)
unfolding extend
length-extend elapsed tps = elim (Bool-cases (leb (length tps) elapsed)) [
  | inl short ↦ rw short (
      ground (
        arith,
        short,
        length-append tps (replicate (elapsed + 1 - length tps) 0),
        length-replicate (elapsed + 1 - length tps),
      ))
  | inr long ↦ rw long (ground (arith, long))
]

get_or-extend : (elapsed i : ℕ) (tps : List ℕ) → get_or (extend elapsed tps) i 0 ≡ get_or tps i 0
unfolding extend
get_or-extend elapsed i tps = elim (Bool-cases (leb (length tps) elapsed)) [
  | inl short ↦ rw short (get_or-zeros tps (elapsed + 1 - length tps) i)
  | inr long ↦ rw long refl
]

sum-extend : (elapsed : ℕ) (tps : List ℕ) → sum (extend elapsed tps) ≡ sum tps
unfolding extend
sum-extend elapsed tps = elim (Bool-cases (leb (length tps) elapsed)) [
  | inl short ↦ rw short (sum-zeros tps (elapsed + 1 - length tps))
  | inr long ↦ rw long refl
]

-- The total of the last row, or the one before the rows.
abbrev pub last_total : ℕ → List (ℕ × ℕ × ℕ × ℕ) → ℕ
last_total total [] = total
last_total total ((second, n, total', busy) ∷ rows) = last_total total' rows

tps_rows-total :
    (second total busy : ℕ) (tps : List ℕ)
    → last_total total (tps_rows second total busy tps) ≡ total + sum tps
unfolding tps_rows
tps_rows-total second total busy [] = omega arith
tps_rows-total second total busy (n ∷ tps) =
    omega
      (arith, tps_rows-total (suc second) (total + n) (if nat_beq n 0 then busy else busy + 1) tps)

module _ {S Time : Type 0} (count_txs : Bytes → Option ℕ) where
  -- The transactions of a reply whose block can be decoded.
  abbrev pub counted : Reply S Time → ℕ
  counted rep = elim (count_txs rep.req.content) [ none ↦ 0 | some n ↦ n ]

  -- The replies with their seconds, in any order.
  unfoldable pub update_all : List (ℕ × Reply S Time) → List ℕ → List ℕ
  update_all [] tps = tps
  update_all ((elapsed, rep) ∷ reps) tps = update_all reps (update_tps count_txs elapsed rep tps)

  abbrev pub counted_at : ℕ → List (ℕ × Reply S Time) → ℕ
  counted_at i [] = 0
  counted_at i ((elapsed, rep) ∷ reps) =
      (if nat_beq elapsed i then counted rep else 0) + counted_at i reps

  abbrev pub counted_all : List (ℕ × Reply S Time) → ℕ
  counted_all [] = 0
  counted_all ((elapsed, rep) ∷ reps) = counted rep + counted_all reps

  update_tps-at :
      (elapsed i : ℕ) (rep : Reply S Time) (tps : List ℕ)
      → get_or (update_tps count_txs elapsed rep tps) i 0
        ≡ get_or tps i 0 + (if nat_beq elapsed i then counted rep else 0)
  unfolding update_tps
  update_tps-at elapsed i rep tps = elim (Option-cases (count_txs rep.req.content)) [
    | inl e ↦ rw (e, counted, update_tps) (ground arith)
    | inr (n, e) ↦
        rw (e, counted, update_tps)
          (elim (Bool-cases (nat_beq elapsed i)) [
            | inl same ↦
                let is : elapsed ≡ i = (nat_beq_iff elapsed i).0 same in
                ground (
                  arith,
                  same,
                  stored i n,
                  get_or-extend elapsed elapsed tps,
                  ap (λ j. get_or tps j 0) is,
                )
            | inr other ↦ ground (arith, other, stored i n, get_or-extend elapsed i tps)
          ])
  ]
    where
      stored :
          (j n : ℕ)
          → get_or
              (set (extend elapsed tps) elapsed (get_or (extend elapsed tps) elapsed 0 + n))
              j
              0
            ≡ (if nat_beq elapsed j
                then get_or (extend elapsed tps) elapsed 0 + n
                else get_or (extend elapsed tps) j 0)
      stored j n =
          get_or-set (extend elapsed tps) elapsed j (get_or (extend elapsed tps) elapsed 0 + n)
            (length-extend elapsed tps)

  update_tps-sum :
      (elapsed : ℕ) (rep : Reply S Time) (tps : List ℕ)
      → sum (update_tps count_txs elapsed rep tps) ≡ sum tps + counted rep
  unfolding update_tps
  update_tps-sum elapsed rep tps = elim (Option-cases (count_txs rep.req.content)) [
    | inl e ↦ rw (e, counted, update_tps) (omega arith)
    | inr (n, e) ↦
        rw (e, counted, update_tps)
          (omega (
            arith,
            sum-set (extend elapsed tps) elapsed (get_or (extend elapsed tps) elapsed 0 + n)
                (length-extend elapsed tps),
            sum-extend elapsed tps,
          ))
  ]

  -- The records after any replies, in any order of their seconds: what stands at a second is what
  -- stood there before and the transactions of the replies of that second, 0 standing past the end.
  pub update_all-at :
      (i : ℕ) (reps : List (ℕ × Reply S Time)) (tps : List ℕ)
      → get_or (update_all reps tps) i 0 ≡ get_or tps i 0 + counted_at i reps
  unfolding update_all
  update_all-at i [] tps = omega arith
  update_all-at i ((elapsed, rep) ∷ reps) tps = omega (
    arith,
    update_all-at i reps (update_tps count_txs elapsed rep tps),
    update_tps-at elapsed i rep tps,
  )

  update_all-sum :
      (reps : List (ℕ × Reply S Time)) (tps : List ℕ)
      → sum (update_all reps tps) ≡ sum tps + counted_all reps
  unfolding update_all
  update_all-sum [] tps = omega arith
  update_all-sum ((elapsed, rep) ∷ reps) tps = omega (
    arith,
    update_all-sum reps (update_tps count_txs elapsed rep tps),
    update_tps-sum elapsed rep tps,
  )

  -- The last row of the result has the transactions of all replies whose blocks can be decoded.
  pub tps_rows-update_all :
      (reps : List (ℕ × Reply S Time))
      → last_total 0 (tps_rows 0 0 0 (update_all reps [])) ≡ counted_all reps
  tps_rows-update_all reps =
      omega (arith, tps_rows-total 0 0 0 (update_all reps []), update_all-sum reps [])
