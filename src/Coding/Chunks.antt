-- ===== src/Coding/Chunks.antt =====
-- addon/coding/RFCEncoder.go, encode and its helpers. The random numbers are a parameter, `rand i`
-- is the i-th one drawn from the seed; `none` is an index out of range.
use blockchain_simulator.Base.{
  ℕ, zero, suc, ◌%◌, ◌<◌, ◌≡◌, refl, ap, arith, ◌∙◌, sym, List, [], ◌∷◌, length, get_or, replicate,
  All, Option, none, some, Bytes,
}
use blockchain_simulator.Coding.Field.{xor, multiply, add}
use blockchain_simulator.Coding.Field.Xor.{xor_comm, xor_assoc, xor_zero, xor_lt}
use blockchain_simulator.Coding.Field.Product.{gf_mul}
use blockchain_simulator.Coding.Field.Laws.{multiply_correct}

unfoldable pub block_multiply : ℕ → Bytes → Option Bytes
block_multiply coefficient [] = some []
block_multiply coefficient (x ∷ xs) = elim (multiply coefficient x) [
  | none ↦ none
  | some y ↦ elim (block_multiply coefficient xs) [ none ↦ none | some ys ↦ some (y ∷ ys) ]
]

-- The range is that of the second block.
unfoldable pub block_sum : Bytes → Bytes → Option Bytes
block_sum product [] = some []
block_sum [] (y ∷ ys) = none
block_sum (x ∷ xs) (y ∷ ys) = elim (block_sum xs ys) [ none ↦ none | some zs ↦ some (add x y ∷ zs) ]

-- The loop of encode, from the i-th chunk on: the product and the rest of the vector.
unfoldable pub encode_from : (rand : ℕ → ℕ) (i : ℕ) → List Bytes → Bytes → Option (Bytes × Bytes)
encode_from rand i [] product = some (product, [])
encode_from rand i (c ∷ cs) product =
    let coefficient = rand i % 256 in
    elim (block_multiply coefficient c) [
      | none ↦ none
      | some new ↦ elim (block_sum product new) [
        | none ↦ none
        | some sum ↦ elim (encode_from rand (suc i) cs sum) [
          | none ↦ none
          | some out ↦ some (out.0, coefficient ∷ out.1)
        ]
      ]
    ]

unfoldable pub encode : (rand : ℕ → ℕ) → List Bytes → Option (Bytes × Bytes)
encode rand [] = none
encode rand (c ∷ cs) = encode_from rand 0 (c ∷ cs) (replicate (length c) 0)

-- A block of `m` bytes.
abbrev pub IsBlock : ℕ → Bytes → Type 0
IsBlock m c = (length c ≡ m) × All (λ x. x < 256) c

-- The scalar product of a vector of coefficients with the k-th bytes of the chunks.
unfoldable pub dot : Bytes → List Bytes → ℕ → ℕ
dot [] chunks k = 0
dot (v ∷ vs) [] k = 0
dot (v ∷ vs) (c ∷ cs) k = xor 8 (gf_mul 8 v (get_or c k 0)) (dot vs cs k)

-- The vector: one random number modulo 256 for each chunk, from the i-th on.
unfoldable pub coefficients : (rand : ℕ → ℕ) (i : ℕ) → List Bytes → Bytes
coefficients rand i [] = []
coefficients rand i (c ∷ cs) = rand i % 256 ∷ coefficients rand (suc i) cs

block_multiply-cons :
    (v x : ℕ) (xs : Bytes) (y : ℕ) (ys : Bytes)
    → multiply v x ≡ some y
    → block_multiply v xs ≡ some ys
    → block_multiply v (x ∷ xs) ≡ some (y ∷ ys)
unfolding block_multiply
block_multiply-cons v x xs y ys first rest = rw (first, block_multiply) (rw rest refl)

block_multiply_lem :
    (v : ℕ) (c : Bytes)
    → v < 256
    → All (λ x. x < 256) c
    → (new : Bytes) × (block_multiply v c ≡ some new)
      × (length new ≡ length c)
      × ((k : ℕ) → k < length c → get_or new k 0 ≡ gf_mul 8 v (get_or c k 0))
unfolding block_multiply
block_multiply_lem v [] h small = ([], refl, refl, (λ k lt. absurd (omega arith)))
block_multiply_lem v (x ∷ xs) h small =
    let (ys, is, len, at) = block_multiply_lem v xs h small.1 in
    (
      gf_mul 8 v x ∷ ys,
      block_multiply-cons v x xs (gf_mul 8 v x) ys (multiply_correct v x h small.0) is,
      ap suc len,
      at_cons ys at,
    )
  where
    at_cons :
        (ys : Bytes)
        → ((k : ℕ) → k < length xs → get_or ys k 0 ≡ gf_mul 8 v (get_or xs k 0))
        → (k : ℕ) → k < suc (length xs)
        → get_or (gf_mul 8 v x ∷ ys) k 0 ≡ gf_mul 8 v (get_or (x ∷ xs) k 0)
    at_cons ys at zero lt = refl
    at_cons ys at (suc k) lt = at k (omega arith)

block_sum_lem :
    (a b : Bytes)
    → length a ≡ length b
    → (sum : Bytes) × (block_sum a b ≡ some sum)
      × (length sum ≡ length a)
      × ((k : ℕ) → k < length a → get_or sum k 0 ≡ xor 8 (get_or a k 0) (get_or b k 0))
unfolding block_sum
block_sum_lem [] [] same = ([], refl, refl, (λ k lt. absurd (omega arith)))
block_sum_lem [] (y ∷ ys) same = absurd (omega arith)
block_sum_lem (x ∷ xs) [] same = absurd (omega arith)
block_sum_lem (x ∷ xs) (y ∷ ys) same =
    let (zs, is, len, at) = block_sum_lem xs ys (omega arith) in
    (add x y ∷ zs, rw is refl, ap suc len, at_cons zs at)
  where
    at_cons :
        (zs : Bytes)
        → ((k : ℕ) → k < length xs → get_or zs k 0 ≡ xor 8 (get_or xs k 0) (get_or ys k 0))
        → (k : ℕ) → k < suc (length xs)
        → get_or (add x y ∷ zs) k 0 ≡ xor 8 (get_or (x ∷ xs) k 0) (get_or (y ∷ ys) k 0)
    at_cons zs at zero lt = refl
    at_cons zs at (suc k) lt = at k (omega arith)

encode_from-cons :
    (rand : ℕ → ℕ) (i : ℕ) (c : Bytes) (cs : List Bytes) (product new sum : Bytes)
    (out : Bytes × Bytes)
    → block_multiply (rand i % 256) c ≡ some new
    → block_sum product new ≡ some sum
    → encode_from rand (suc i) cs sum ≡ some out
    → encode_from rand i (c ∷ cs) product ≡ some (out.0, rand i % 256 ∷ out.1)
unfolding encode_from
encode_from-cons rand i c cs product new sum out p q r = rw (p, encode_from) (rw q (rw r refl))

encode_from_lem :
    (rand : ℕ → ℕ) (i m : ℕ) (cs : List Bytes) (product : Bytes)
    → length product ≡ m
    → ((k : ℕ) → k < m → get_or product k 0 < 256)
    → All (IsBlock m) cs
    → (out : Bytes × Bytes) × (encode_from rand i cs product ≡ some out)
      × (length out.0 ≡ m)
      × (out.1 ≡ coefficients rand i cs)
      × ((k : ℕ) → k < m → get_or out.0 k 0 ≡ xor 8 (get_or product k 0) (dot out.1 cs k))
unfolding encode_from dot coefficients
encode_from_lem rand i m [] product len small blocks = (
  (product, []),
  refl,
  len,
  refl,
  (λ k lt. sym (xor_comm 8 (get_or product k 0) 0 ∙ xor_zero 8 (get_or product k 0) (small k lt))),
)
encode_from_lem rand i m (c ∷ cs) product len small blocks =
    let v = rand i % 256 in
    let (new, is_new, len_new, at_new) = block_multiply_lem v c (omega arith) blocks.0.1 in
    let (sum, is_sum, len_sum, at_sum) =
      block_sum_lem product new (len ∙ sym (len_new ∙ blocks.0.0)) in
    let at : (k : ℕ)
        → k < m
        → get_or sum k 0 ≡ xor 8 (get_or product k 0) (gf_mul 8 v (get_or c k 0)) =
      λ k lt.
        at_sum k (omega (arith, len))
        ∙ ap (xor 8 (get_or product k 0)) (at_new k (omega (arith, blocks.0.0))) in
    let (out, is_out, len_out, vec_out, at_out) =
      encode_from_lem rand (suc i) m cs sum (len_sum ∙ len) (λ k lt. rw (at k lt) (xor_lt 8 _ _))
        blocks.1 in
    (
      (out.0, v ∷ out.1),
      encode_from-cons rand i c cs product new sum out is_new is_sum is_out,
      len_out,
      ap (λ l. v ∷ l) vec_out,
      (λ k lt.
          at_out k lt
          ∙ ap (λ x. xor 8 x (dot out.1 cs k)) (at k lt)
          ∙ xor_assoc 8 (get_or product k 0) (gf_mul 8 v (get_or c k 0)) (dot out.1 cs k)),
    )

zeros-length : (n : ℕ) → length {A = ℕ} (replicate n 0) ≡ n
zeros-length zero = refl
zeros-length (suc n) = ap suc (zeros-length n)

zeros-get : (n k : ℕ) → get_or {A = ℕ} (replicate n 0) k 0 ≡ 0
zeros-get zero k = refl
zeros-get (suc n) zero = refl
zeros-get (suc n) (suc k) = zeros-get n k

dot_lt : (vs : Bytes) (cs : List Bytes) (k : ℕ) → dot vs cs k < 256
unfolding dot
dot_lt [] cs k = omega arith
dot_lt (v ∷ vs) [] k = omega arith
dot_lt (v ∷ vs) (c ∷ cs) k = xor_lt 8 _ _

-- For blocks of one length, the first among them, encode returns: a vector of one coefficient for
-- each chunk, the random numbers modulo 256, and a block of that length whose k-th byte is the
-- scalar product of the vector with the k-th bytes of the chunks, for the reference product.
pub encode_correct :
    (rand : ℕ → ℕ) (c : Bytes) (cs : List Bytes)
    → All (IsBlock (length c)) (c ∷ cs)
    → (out : Bytes × Bytes) × (encode rand (c ∷ cs) ≡ some out)
      × (length out.0 ≡ length c)
      × (out.1 ≡ coefficients rand 0 (c ∷ cs))
      × ((k : ℕ) → k < length c → get_or out.0 k 0 ≡ dot out.1 (c ∷ cs) k)
unfolding encode
encode_correct rand c cs blocks =
    let zeros : Bytes = replicate (length c) 0 in
    let (out, is, len, vec, at) =
      encode_from_lem rand 0 (length c) (c ∷ cs) zeros (zeros-length (length c))
        (λ k lt. omega (arith, zeros-get (length c) k)) blocks in
    (
      out,
      is,
      len,
      vec,
      (λ k lt.
          at k lt
          ∙ ap (λ x. xor 8 x (dot out.1 (c ∷ cs) k)) (zeros-get (length c) k)
          ∙ xor_zero 8 (dot out.1 (c ∷ cs) k) (dot_lt out.1 (c ∷ cs) k)),
    )
