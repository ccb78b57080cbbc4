-- ===== src/Utils/Set/Members.antt =====
-- Membership and size of the sets of utils/set.go under each operation.
use blockchain_simulator.Base.{
  ◌+◌, ◌≤◌, ◌≡◌, refl, true, false, ◌||◌, List, [], ◌∷◌, length, if◌then◌else◌, Eq, ◌==◌, ==_refl,
  Bool-cases, inl, inr, arith,
}
use blockchain_simulator.Utils.Set.{
  Set, new_set, elem, put, delete, Distinct, add, remove, contains, add_all, size, union,
}

module _ {ℓ} {A : Type ℓ} ⦃e : Eq A⦄ where
  pub elem-put : (a b : A) (xs : List A) → elem b (put a xs) ≡ (if a == b then true else elem b xs)
  unfolding elem put
  elem-put a b [] = refl
  elem-put a b (x ∷ xs) =
      ground (arith, e.beq_iff a b, e.beq_iff x a, e.beq_iff x b, elem-put a b xs)

  pub put-Distinct : (a : A) (xs : List A) → Distinct xs → Distinct (put a xs)
  unfolding put elem
  put-Distinct a [] d = (refl, tt)
  put-Distinct a (x ∷ xs) d = elim (Bool-cases (x == a)) [
    | inl same ↦ rw same d
    | inr other ↦
        rw other
          (ground (arith, elem-put a x xs, e.beq_iff a x, e.beq_iff x a), put-Distinct a xs d.1)
  ]

  pub length-put :
      (a : A) (xs : List A) → length (put a xs) ≡ (if elem a xs then length xs else length xs + 1)
  unfolding put elem
  length-put a [] = refl
  length-put a (x ∷ xs) = ground (arith, length-put a xs)

  elem-delete :
      (a b : A) (xs : List A)
      → Distinct xs
      → elem b (delete a xs) ≡ (if a == b then false else elem b xs)
  unfolding elem delete
  elem-delete a b [] d = ground arith
  elem-delete a b (x ∷ xs) d =
      ground (arith, e.beq_iff a b, e.beq_iff x a, e.beq_iff x b, elem-delete a b xs d.1)

  delete-Distinct : (a : A) (xs : List A) → Distinct xs → Distinct (delete a xs)
  unfolding delete elem
  delete-Distinct a [] d = tt
  delete-Distinct a (x ∷ xs) d = elim (Bool-cases (x == a)) [
    | inl same ↦ rw same d.1
    | inr other ↦ rw other (ground (arith, elem-delete a x xs d.1), delete-Distinct a xs d.1)
  ]

  length-delete : (a : A) (xs : List A) → elem a xs ≡ true → length (delete a xs) + 1 ≡ length xs
  unfolding delete elem
  length-delete a [] h = ground arith
  length-delete a (x ∷ xs) h = ground (arith, length-delete a xs)

  -- Distinct items that all stand in another list are no more than that list's.
  pub length-le_of_elem :
      (xs ys : List A)
      → Distinct xs
      → Distinct ys
      → ((a : A) → elem a xs ≡ true → elem a ys ≡ true)
      → length xs ≤ length ys
  unfolding elem
  length-le_of_elem [] ys d d' h = omega arith
  length-le_of_elem (x ∷ xs) ys d d' h =
      let here = h x (rw (==_refl x)) in
      let rest =
        length-le_of_elem xs (delete x ys) d.1 (delete-Distinct x ys d')
          (λ a m. ground (arith, elem-delete x a ys d', h a, e.beq_iff x a, d.0)) in
      omega (arith, length-delete x ys here, rest)

  -- The size of a set depends on its members only: two sets that answer `Contains` alike have
  -- the same size, whatever the order in which their items were added.
  pub size-eq_of_contains :
      (s t : Set A)
      → Distinct s.items
      → Distinct t.items
      → ((a : A) → contains a s ≡ contains a t)
      → size s ≡ size t
  unfolding contains
  size-eq_of_contains s t ds dt h = omega (
    arith,
    length-le_of_elem s.items t.items ds dt (λ a m. ground (arith, h a)),
    length-le_of_elem t.items s.items dt ds (λ a m. ground (arith, h a)),
  )

  -- `Add` makes its item a member and leaves every other membership alone, counts a new item
  -- once and a known item not at all, and keeps the items distinct.
  pub add_correct :
      (a : A) (s : Set A)
      → Distinct s.items
      → ((b : A) → contains b (add a s) ≡ (if a == b then true else contains b s))
        × (size (add a s) ≡ (if contains a s then size s else size s + 1))
        × Distinct (add a s).items
  unfolding add contains
  add_correct a s d = ((λ b. elem-put a b s.items), length-put a s.items, put-Distinct a s.items d)

  -- `Remove` takes its item out and leaves every other membership alone, lowers the size by one
  -- exactly when the item was there, and keeps the items distinct.
  pub remove_correct :
      (a : A) (s : Set A)
      → Distinct s.items
      → ((b : A) → contains b (remove a s) ≡ (if a == b then false else contains b s))
        × (size s ≡ (if contains a s then size (remove a s) + 1 else size (remove a s)))
        × Distinct (remove a s).items
  unfolding remove contains
  remove_correct a s d =
      ((λ b. elem-delete a b s.items d), size_lem a s.items, delete-Distinct a s.items d)
    where
      size_lem :
          (a : A) (xs : List A)
          → length xs ≡ (if elem a xs then length (delete a xs) + 1 else length (delete a xs))
      size_lem a [] = refl
      size_lem a (x ∷ xs) = ground (arith, size_lem a xs)

  -- A set of size one that contains an item lists exactly that item.
  pub items_of_one : (a : A) (xs : List A) → length xs ≡ 1 → elem a xs ≡ true → xs ≡ a ∷ []
  unfolding elem
  items_of_one a [] l h = ground arith
  items_of_one a (x ∷ []) l h = ground (arith, e.beq_iff x a)
  items_of_one a (x ∷ y ∷ xs) l h = absurd (omega arith)

  add_all_members :
      (xs : List A) (s : Set A)
      → Distinct s.items
      → ((b : A) → contains b (add_all xs s) ≡ (if elem b xs then true else contains b s))
        × Distinct (add_all xs s).items
  unfolding add_all elem
  add_all_members [] s d = ((λ b. refl), d)
  add_all_members (x ∷ xs) s d =
      let step = add_correct x s d in
      let rest = add_all_members xs (add x s) step.2 in
      ((λ b. ground (arith, rest.0 b, step.0 b)), rest.1)

  -- `Union` contains what either set contains, and its items are distinct.
  pub union_correct :
      (s t : Set A)
      → ((b : A) → contains b (union s t) ≡ (contains b s || contains b t))
        × Distinct (union s t).items
  unfolding union contains
  union_correct s t =
      let first = add_all_members s.items new_set tt in
      let both = add_all_members t.items (add_all s.items new_set) first.1 in
      ((λ b. ground (arith, both.0 b, first.0 b)), both.1)
