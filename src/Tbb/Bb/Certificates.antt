-- ===== src/Tbb/Bb/Certificates.antt =====
-- What a certificate of tbb/handler_1deltaBB.go does to the state.
use blockchain_simulator.Base.{
  ℕ, ◌+◌, ◌*◌, ◌≤◌, ◌≡◌, refl, true, false, ◌&&◌, none, some, Bytes, lookup, insert, lookup-insert,
  Eq, ◌==◌, bytes_eq, nat_beq, ltb, if◌then◌else◌, arith, Bool-cases, ◌∙◌, sym, Map, inl, inr,
}
use blockchain_simulator.Utils.Set.{add, contains, size, Distinct}
use blockchain_simulator.Utils.Set.Members.{add_correct}
use blockchain_simulator.Tbb.Bb.Defs.{BbEnv, BbMod, Outcome, returns, panics, blocks, has_qc}
use blockchain_simulator.Tbb.Bb.Handlers.{make_qc}

module _ {S Addr : Type 0} where
  -- The state that an outcome leaves; a node that stopped has the state before.
  abbrev pub state_after : BbMod S → Outcome S Addr → BbMod S
  state_after s (returns t sent) = t
  state_after s panics = s
  state_after s (blocks t) = t

  abbrev pub Returns : Outcome S Addr → Type 0
  Returns (returns t sent) = Unit
  Returns panics = ⊥
  Returns (blocks t) = ⊥

-- The certificates are those of the values in blck, and a commit at commit point 1 needs one.
pub record IsConsistent {S : Type 0} (s : BbMod S) : Type 0 where
  pub certified : (c : Bytes) → has_qc c s ≡ contains c s.blck_set
  pub distinct : Distinct s.blck_set.items
  pub committed : s.is_commit ≡ true → 1 ≤ size s.blck_set
  pub triggered : s.trigger ≡ true → s.is_commit ≡ true

module _ {S Addr : Type 0} ⦃es : Eq S⦄ ⦃e : Eq Addr⦄ (env : BbEnv S Addr) where
  -- Noting a certificate for a content without one adds one value to blck.
  noted-size :
      (c : Bytes) (s : BbMod S)
      → IsConsistent s
      → has_qc c s ≡ false
      → size (add c s.blck_set) ≡ size s.blck_set + 1
  noted-size c s ok new = ground (arith, (add_correct c s.blck_set ok.distinct).1, ok.certified c)

  noted-IsConsistent :
      (c : Bytes) (agg : S) (s t : BbMod S)
      → IsConsistent s
      → has_qc c s ≡ false
      → t.qc_map ≡ insert c agg s.qc_map
      → t.blck_set ≡ add c s.blck_set
      → (t.trigger ≡ true → t.is_commit ≡ true)
      → IsConsistent t
  unfolding has_qc
  noted-IsConsistent c agg s t ok new qc blck trig =
      let p = add_correct c s.blck_set ok.distinct in
      record {
        certified = λ d. known d t.qc_map qc ∙ sym (rw blck (p.0 d));
        distinct = rw blck p.2;
        committed = λ h. rw blck (omega (arith, noted-size c s ok new));
        triggered = trig;
      }
    where
      known :
          (d : Bytes) (m : Map Bytes S)
          → m ≡ insert c agg s.qc_map
          → elim (lookup d m) [ none ↦ false | some _ ↦ true ]
            ≡ (if c == d then true else contains d s.blck_set)
      known d m h = elim (Bool-cases (c == d)) [
        | inl same ↦ rw h (rw lookup-insert (rw same refl))
        | inr other ↦ rw h (rw lookup-insert (rw other (ok.certified d)))
      ]

  pub make_qc-ok :
      (now : ℕ) (c : Bytes) (agg : S) (back s : BbMod S)
      → IsConsistent s
      → has_qc c s ≡ false
      → let o = make_qc env now c agg s in
        Returns o
        × IsConsistent (state_after back o)
        × (s.is_commit ≡ true → (state_after back o).commit_value ≡ s.commit_value)
        × (s.is_commit ≡ true → (state_after back o).is_commit ≡ true)
  unfolding make_qc
  make_qc-ok now c agg back s ok new =
      let grown = noted-size c s ok new in
      let first =
        nat_beq (size (add c s.blck_set)) 1 && ltb now (s.start_time + 3 * env.tick_interval) in
      elim (Bool-cases first) [
        | inl hit ↦ rw hit (
            let fresh : s.is_commit ≡ false = ground (arith, ok.committed) in
            let quiet : s.trigger ≡ false = ground (arith, ok.triggered) in
            rw quiet (
              tt,
              noted-IsConsistent c agg s _ ok new refl refl (λ _. refl),
              (λ h. absurd (ground arith)),
              (λ h. refl),
            ))
        | inr other ↦
            rw other (
              tt,
              noted-IsConsistent c agg s _ ok new refl refl ok.triggered,
              (λ h. refl),
              (λ h. h),
            )
      ]
