-- ===== src/Utils/Queue/Order.antt =====
-- The order in which utils/queue.go gives its items back.
use blockchain_simulator.Base.{◌≡◌, refl, List, [], ◌∷◌, ◌++◌, some, length}
use mathlib.Core.List.{append-nil, append_assoc}
use blockchain_simulator.Utils.Queue.{Queue, new_queue, enqueue, dequeue, enqueue_all, dequeue_many}

module _ {ℓ} {A : Type ℓ} where
  pub enqueue_all_lem :
      (xs : List A) (q : Queue A) → enqueue_all xs q ≡ record { items = q.items ++ xs }
  unfolding enqueue_all enqueue
  enqueue_all_lem [] q = rw append-nil refl
  enqueue_all_lem (x ∷ xs) q = rw (enqueue_all_lem xs (enqueue x q)) (rw append_assoc refl)

  dequeue_prefix :
      (xs ys : List A)
      → dequeue_many (length xs) (record { items = xs ++ ys }) ≡ some (xs, record { items = ys })
  unfolding dequeue_many dequeue
  dequeue_prefix [] ys = refl
  dequeue_prefix (x ∷ xs) ys = rw (dequeue_prefix xs ys, dequeue_many)

  -- First in, first out: after any items are enqueued behind those that wait, as many `Dequeue`
  -- calls as there are items succeed, return the waiting items and then the new ones in the order
  -- of their arrival, and leave the queue empty.
  pub dequeue_many-enqueue_all :
      (xs : List A) (q : Queue A)
      → dequeue_many (length (q.items ++ xs)) (enqueue_all xs q) ≡ some (q.items ++ xs, new_queue)
  dequeue_many-enqueue_all xs q =
      rw (enqueue_all_lem xs q) (let h = dequeue_prefix (q.items ++ xs) [] in rw append-nil at h)
