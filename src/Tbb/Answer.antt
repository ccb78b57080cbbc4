-- ===== src/Tbb/Answer.antt =====
-- The value that tbb/handler_tbb.go answers to a query, as the commit points pass.
use blockchain_simulator.Base.{
  ℕ, zero, suc, ◌⊎◌, ◌<◌, ◌≡◌, refl, ap, arith, ◌∙◌, inl, inr, false, List, [], ◌∷◌, get_or, set,
  All, none, some, Option-cases, Bool-cases, Bytes, ◌==◌, bytes_eq,
}
use blockchain_simulator.Ds.Defs.{DsMod}
use blockchain_simulator.Tbb.Bb.Defs.{BbMod}
use blockchain_simulator.Tbb.Defs.{
  TbbMod, first_value, reference, point_value, reference_point1, reference_point2, commit_point1,
  commit_point2, commit_point3,
}

-- What happens between two messages of type MsgInit. The parts may change in any way that their
-- own handlers and timers choose.
pub data Event (S : Type 0) : Type 0 where
  parts_change : DsMod → BbMod S → Event S
  reference1 reference2 commit1 commit2 commit3 : Event S

module _ {S : Type 0} where
  unfoldable pub step : Event S → TbbMod S → TbbMod S
  step (parts_change d b) s = record s { ds_mod = d; dbb_mod = b }
  step reference1 s = reference_point1 s
  step reference2 s = reference_point2 s
  step commit1 s = elim (commit_point1 s) [ none ↦ s | some t ↦ t ]
  step commit2 s = commit_point2 s
  step commit3 s = commit_point3 s

  unfoldable pub run : List (Event S) → TbbMod S → TbbMod S
  run [] s = s
  run (v ∷ vs) s = run vs (step v s)

  -- The place of set D that an event may write, and 3 for none.
  abbrev pub place : Event S → ℕ
  place commit1 = 0
  place commit2 = 1
  place commit3 = 2
  place _ = 3

  abbrev pub answer : TbbMod S → Bytes
  answer s = first_value s.local_set_d

first_value-set :
    (i j : ℕ) (x : Bytes) (d : List Bytes)
    → i < j
    → (get_or d i [] == []) ≡ false
    → (first_value (set d j x) ≡ first_value d) × (get_or (set d j x) i [] ≡ get_or d i [])
unfolding first_value
first_value-set i j x [] h full = (refl, refl)
first_value-set i zero x (y ∷ d) h full = absurd (omega arith)
first_value-set zero (suc j) x (y ∷ d) h full = ground arith
first_value-set (suc i) (suc j) x (y ∷ d) h full =
    ground (arith, first_value-set i j x d (omega arith) full)

module _ {S : Type 0} where
  -- An event leaves set D alone or writes its own place.
  step_writes :
      (v : Event S) (s : TbbMod S)
      → ((step v s).local_set_d ≡ s.local_set_d)
        ⊎ ((x : Bytes) × ((step v s).local_set_d ≡ set s.local_set_d (place v) x))
  unfolding step reference_point1 reference_point2 commit_point1 commit_point2 commit_point3
  step_writes (parts_change d b) s = inl refl
  step_writes reference1 s = elim (Option-cases (reference s.ds_mod)) [
    | inl is ↦ inl (rw (is, reference_point1) refl)
    | inr (x, is) ↦ inl (rw (is, reference_point1) refl)
  ]
  step_writes reference2 s = elim (Option-cases (reference s.ds_mod)) [
    | inl is ↦ inl (rw (is, reference_point2) refl)
    | inr (x, is) ↦ inl (rw (is, reference_point2) refl)
  ]
  step_writes commit1 s = elim (Bool-cases s.dbb_mod.trigger) [
    | inl sent ↦ inr (s.dbb_mod.commit_value, rw (sent, commit_point1) refl)
    | inr waits ↦ inl (rw (waits, commit_point1) refl)
  ]
  step_writes commit2 s = elim (Bool-cases s.is_commit) [
    | inl done ↦ inl (rw (done, commit_point2) refl)
    | inr open_yet ↦ elim (Option-cases (point_value s.dbb_mod.blck_set s.reference_value1)) [
      | inl is ↦ inl (rw (open_yet, commit_point2) (rw is refl))
      | inr (x, is) ↦ inr (x, rw (open_yet, commit_point2) (rw is refl))
    ]
  ]
  step_writes commit3 s = elim (Option-cases (point_value s.dbb_mod.blck_set s.reference_value2)) [
    | inl is ↦ inl (rw (is, commit_point3) refl)
    | inr (x, is) ↦ inr (x, rw (is, commit_point3) refl)
  ]

  step-answer :
      (v : Event S) (i : ℕ) (s : TbbMod S)
      → i < place v
      → (get_or s.local_set_d i [] == []) ≡ false
      → (answer (step v s) ≡ answer s)
        × (get_or (step v s).local_set_d i [] ≡ get_or s.local_set_d i [])
  step-answer v i s h full = elim (step_writes v s) [
    | inl same ↦ (ap first_value same, ap (λ d. get_or d i []) same)
    | inr (x, is) ↦
        let kept = first_value-set i (place v) x s.local_set_d h full in
        (ap first_value is ∙ kept.0, ap (λ d. get_or d i []) is ∙ kept.1)
  ]

  -- An answer does not change after it was given by a commit point, whatever the sub-protocols do
  -- and whatever reference points come: if the value of the i-th commit point is not empty and
  -- from then on only commit points of higher number come, in any order and any number of times,
  -- then a query is answered with the same value after as before.
  pub answer_stable :
      (vs : List (Event S)) (i : ℕ) (s : TbbMod S)
      → (get_or s.local_set_d i [] == []) ≡ false
      → All (λ v. i < place v) vs
      → answer (run vs s) ≡ answer s
  unfolding run
  answer_stable [] i s full later = refl
  answer_stable (v ∷ vs) i s full later =
      let one = step-answer v i s later.0 full in
      answer_stable vs i (step v s) (rw one.1 full) later.1 ∙ one.0
