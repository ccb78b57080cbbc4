-- ===== src/Utils/Atomic.antt =====
-- utils/atomic.go: a value behind a lock, with an optional callback on each update.
use mathlib.Core.Path.{subst}
use blockchain_simulator.Base.{
  List, [], ◌∷◌, ◌∙◌, refl, inl, inr, Bool-cases, ◌≡◌, Bool, true, false, ◌&&◌, Option, none, some,
  if◌then◌else◌, arith,
}

pub record AtomicValue (A : Type 0) : Type 0 where
  pub value : A
  pub on_update : Option (A → A → Bool)

unfoldable pub new_atomic_value : {A : Type 0} → A → AtomicValue A
new_atomic_value a = record { value = a; on_update = none }

-- A nil condition passes, and so does a missing callback.
abbrev pub passes : {A : Type 0} → Option (A → Bool) → A → Bool
passes none a = true
passes (some c) a = c a

abbrev pub accepts : {A : Type 0} → Option (A → A → Bool) → A → A → Bool
accepts none a b = true
accepts (some f) a b = f a b

module _ {A : Type 0} where
  abbrev pub get : AtomicValue A → A
  get s = s.value

  unfoldable pub set : A → Option (A → Bool) → AtomicValue A → AtomicValue A × Bool
  set new cond s =
      if passes cond s.value
      then (if accepts s.on_update s.value new
          then (record s { value = new }, true)
          else (s, false))
      else (s, false)

  -- What the callback answers is not used.
  unfoldable pub update : (A → A) → AtomicValue A → AtomicValue A
  update updater s = record s { value = updater s.value }

  unfoldable pub set_update_func : (A → A → Bool) → AtomicValue A → AtomicValue A
  set_update_func f s = record s { on_update = some f }

  -- `Set` stores the new value and answers true exactly when the condition passes and the
  -- callback accepts the change; otherwise the value stays and the answer is false. The callback
  -- is the same afterwards.
  pub set_correct :
      (new : A) (cond : Option (A → Bool)) (s : AtomicValue A)
      → let (s', done) = set new cond s in
        (done ≡ (passes cond s.value && accepts s.on_update s.value new))
        × (get s' ≡ (if done then new else get s))
        × (s'.on_update ≡ s.on_update)
  unfolding set
  set_correct new cond s = ground arith

  -- Calls of `Set` by any number of goroutines, each with its condition, in the order of the lock.
  unfoldable pub set_all : List (A × Option (A → Bool)) → AtomicValue A → AtomicValue A
  set_all [] s = s
  set_all ((new, cond) ∷ calls) s = set_all calls (set new cond s).0

  -- With a callback that answers yes exactly along a reflexive and transitive relation, the value
  -- behind any sequence of `Set` calls, whatever their conditions, stands in this relation to the
  -- value before: a callback that refuses to go back makes the value grow only.
  pub set_all-accepted :
      (f : A → A → Bool) (calls : List (A × Option (A → Bool))) (s : AtomicValue A)
      → ((a : A) → f a a ≡ true)
      → ((a b c : A) → f a b ≡ true → f b c ≡ true → f a c ≡ true)
      → s.on_update ≡ some f
      → f s.value (set_all calls s).value ≡ true
  unfolding set_all
  set_all-accepted f [] s same chain is = same s.value
  set_all-accepted f ((new, cond) ∷ calls) s same chain is =
      let one = set_correct new cond s in
      let t = (set new cond s).0 in
      let rest = set_all-accepted f calls t same chain (one.2 ∙ is) in
      elim (Bool-cases (set new cond s).1) [
        | inr kept ↦
            let stays : t.value ≡ s.value = one.1 ∙ rw kept refl in
            subst (λ v. f v (set_all calls t).value ≡ true) stays rest
        | inl done ↦
            let moves : t.value ≡ new = one.1 ∙ rw done refl in
            let accepted : accepts s.on_update s.value new ≡ true = ground (arith, one.0) in
            let yes_new : f s.value new ≡ true =
              subst (λ o. accepts o s.value new ≡ true) is accepted in
            chain s.value new (set_all calls t).value yes_new
              (subst (λ v. f v (set_all calls t).value ≡ true) moves rest)
      ]
