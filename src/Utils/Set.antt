-- ===== src/Utils/Set.antt =====
-- utils/set.go. The map's keys are listed in the order of insertion; Go's iteration order is not
-- specified, so the theorems speak of membership and size, and of the item of a set of size one.
pub mod Members
use blockchain_simulator.Base.{
  ℕ, ◌≡◌, Bool, true, false, ◌||◌, List, [], ◌∷◌, length, if◌then◌else◌, Eq, ◌==◌,
}

pub record Set {ℓ} (A : Type ℓ) : Type ℓ where
  pub items : List A

abbrev pub new_set {ℓ} : {A : Type ℓ} → Set A
new_set = record { items = [] }

module _ {ℓ} {A : Type ℓ} ⦃e : Eq A⦄ where
  unfoldable pub elem : A → List A → Bool
  elem a [] = false
  elem a (x ∷ xs) = if x == a then true else elem a xs

  -- Writing a key of a map that is there already leaves the map as it is.
  unfoldable pub put : A → List A → List A
  put a [] = a ∷ []
  put a (x ∷ xs) = if x == a then x ∷ xs else x ∷ put a xs

  -- `delete` on a map.
  unfoldable pub delete : A → List A → List A
  delete a [] = []
  delete a (x ∷ xs) = if x == a then xs else x ∷ delete a xs

  -- The keys of a map: no key stands twice.
  abbrev pub Distinct : List A → Type 0
  Distinct [] = Unit
  Distinct (x ∷ xs) = (elem x xs ≡ false) × Distinct xs

  unfoldable pub add : A → Set A → Set A
  unfolding put
  add a s = record { items = put a s.items }

  unfoldable pub remove : A → Set A → Set A
  unfolding delete
  remove a s = record { items = delete a s.items }

  unfoldable pub contains : A → Set A → Bool
  unfolding elem
  contains a s = elem a s.items

  unfoldable pub add_all : List A → Set A → Set A
  unfolding add
  add_all [] s = s
  add_all (x ∷ xs) s = add_all xs (add x s)

module _ {ℓ} {A : Type ℓ} where
  abbrev pub size : Set A → ℕ
  size s = length s.items

  abbrev pub get_items : Set A → List A
  get_items s = s.items

  abbrev pub clear : Set A → Set A
  clear s = new_set

module _ {ℓ} {A : Type ℓ} ⦃e : Eq A⦄ where
  unfoldable pub union : Set A → Set A → Set A
  unfolding add_all
  union s t = add_all (get_items t) (add_all (get_items s) new_set)
