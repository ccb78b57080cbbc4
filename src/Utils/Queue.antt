-- ===== src/Utils/Queue.antt =====
-- utils/queue.go. Each method runs under the queue's lock, so each is one step.
pub mod Order
use blockchain_simulator.Base.{
  ℕ, zero, suc, ◌+◌, ◌≡◌, refl, Bool, true, false, List, [], ◌∷◌, ◌++◌, Option, none, some, length,
  arith, nat_beq, length-append,
}

pub record Queue {ℓ} (A : Type ℓ) : Type ℓ where
  pub items : List A

abbrev pub new_queue {ℓ} : {A : Type ℓ} → Queue A
new_queue = record { items = [] }

module _ {ℓ} {A : Type ℓ} where
  unfoldable pub enqueue : A → Queue A → Queue A
  enqueue a q = record { items = q.items ++ (a ∷ []) }

  -- `none` is the error of an empty queue.
  unfoldable pub dequeue : Queue A → Option (A × Queue A)
  dequeue q = elim q.items [ [] ↦ none | x ∷ xs ↦ some (x, record { items = xs }) ]

  abbrev pub size : Queue A → ℕ
  size q = length q.items

  abbrev pub is_empty : Queue A → Bool
  is_empty q = nat_beq (size q) 0

  unfoldable pub enqueue_all : List A → Queue A → Queue A
  unfolding enqueue
  enqueue_all [] q = q
  enqueue_all (x ∷ xs) q = enqueue_all xs (enqueue x q)

  -- `n` calls of `Dequeue`, and what they returned.
  unfoldable pub dequeue_many : ℕ → Queue A → Option (List A × Queue A)
  unfolding dequeue
  dequeue_many zero q = some ([], q)
  dequeue_many (suc n) q = elim (dequeue q) [
    | none ↦ none
    | some (x, r) ↦ elim (dequeue_many n r) [ none ↦ none | some (xs, t) ↦ some (x ∷ xs, t) ]
  ]
