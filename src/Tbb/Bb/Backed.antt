-- ===== src/Tbb/Bb/Backed.antt =====
-- Who stands behind a commit of tbb/handler_1deltaBB.go, when every vote that arrives was really
-- signed. The source does not check a vote's signature.
pub mod Handled
use blockchain_simulator.Base.{
  ℕ, ◌+◌, ◌*◌, ◌≤◌, ◌≡◌, refl, Bool, true, false, ◌&&◌, List, [], ◌∷◌, some, Bytes, insert, Eq,
  ◌==◌, ==_refl, bytes_eq, bytes_beq_iff, lookup, nat_beq, nat_beq_iff, ltb, if◌then◌else◌, arith,
  Bool-cases, Option-cases, inl, inr, ◌⊎◌, ◌∙◌, sym,
}
use blockchain_simulator.Utils.Set.{elem, Distinct, add, size}
use blockchain_simulator.Utils.Set.Members.{elem-put, put-Distinct, length-le_of_elem}
use blockchain_simulator.Tbb.Bb.Defs.{BbEnv, BbMod, sigs_of, has_qc, aggregate_signatures}
use blockchain_simulator.Tbb.Bb.Handlers.{threshold, own_vote, make_qc, count_vote}
use blockchain_simulator.Tbb.Bb.Certificates.{state_after}
use blockchain_simulator.Tbb.Bb.Signers.{below, issued, issued-Distinct, length-issued}
use blockchain_simulator.Tbb.Bb.Missed.{sigs_of-insert, votes-grow}

module _ {S Addr : Type 0} ⦃es : Eq S⦄ ⦃e : Eq Addr⦄ (sign : ℕ → Bytes → S)
    (signed : ℕ → Bytes → Bool) (n : ℕ) (env : BbEnv S Addr) where
  -- The votes kept are genuine, and a commit at commit point 1 has as many as are needed.
  pub record IsBacked (s : BbMod S) : Type 0 where
    pub distinct : (c : Bytes) → Distinct (sigs_of c s.vote_map).items
    pub genuine :
        (c : Bytes) (sig : S)
        → elem sig (sigs_of c s.vote_map).items ≡ true
        → elem sig (issued sign signed n c) ≡ true
    pub backed : s.is_commit ≡ true → threshold env ≤ size (sigs_of s.commit_value s.vote_map)
    pub triggered : s.trigger ≡ true → s.is_commit ≡ true

  -- What handlers other than those of votes do to the votes and the commit.
  pub kept-IsBacked :
      (s t : BbMod S)
      → IsBacked s
      → t.vote_map ≡ s.vote_map
      → t.is_commit ≡ s.is_commit
      → (s.is_commit ≡ true → t.commit_value ≡ s.commit_value)
      → (t.trigger ≡ true → s.trigger ≡ true)
      → IsBacked t
  kept-IsBacked s t ok votes commit value trig = record {
    distinct = λ c. rw votes (ok.distinct c);
    genuine = λ c. rw votes (ok.genuine c);
    backed = λ h. let up = sym commit ∙ h in rw (votes, value up) (ok.backed up);
    triggered = λ h. commit ∙ ok.triggered (trig h);
  }

  voted-IsBacked :
      (c : Bytes) (sig : S) (s t : BbMod S)
      → IsBacked s
      → elem sig (issued sign signed n c) ≡ true
      → t.vote_map ≡ insert c (add sig (sigs_of c s.vote_map)) s.vote_map
      → ((t.is_commit ≡ s.is_commit) × (t.commit_value ≡ s.commit_value))
        ⊎ ((t.commit_value ≡ c) × (size (add sig (sigs_of c s.vote_map)) ≡ threshold env))
      → (t.trigger ≡ true → t.is_commit ≡ true)
      → IsBacked t
  unfolding add
  voted-IsBacked c sig s t ok real votes commits trig =
      let at : ((d : Bytes)
          → sigs_of d t.vote_map
            ≡ (if c == d then add sig (sigs_of c s.vote_map) else sigs_of d s.vote_map)) =
        λ d. rw votes (sigs_of-insert env c d sig s.vote_map) in
      record {
        distinct = λ d. rw (at d) (elim (Bool-cases (c == d)) [
          | inl same ↦ rw same (put-Distinct sig (sigs_of c s.vote_map).items (ok.distinct c))
          | inr other ↦ rw other (ok.distinct d)
        ]);
        genuine = λ d other h. elim (Bool-cases (c == d)) [
          | inl same ↦
              let eq = (bytes_beq_iff c d).0 same in
              let h' = rw (at d, same, elem-put sig other) at h in
              rw (sym eq) (ground (arith, h', ok.genuine c other, es.beq_iff sig other, real))
          | inr apart ↦ ok.genuine d other (rw (at d, apart) at h)
        ];
        backed = elim commits [
          | inl (still, kept) ↦ λ h.
              rw (kept, votes)
                (omega (
                  arith,
                  ok.backed (sym still ∙ h),
                  votes-grow env c s.commit_value sig s.vote_map,
                ))
          | inr (new, full) ↦ λ h. rw (new, at c, ==_refl c, full) (omega arith)
        ];
        triggered = trig;
      }

  make_qc-backs :
      (now : ℕ) (c : Bytes) (agg : S) (back s : BbMod S)
      → let t = state_after back (make_qc env now c agg s) in
        (t.vote_map ≡ s.vote_map)
        × (((t.is_commit ≡ s.is_commit) × (t.commit_value ≡ s.commit_value)) ⊎ (t.commit_value ≡ c))
        × ((s.trigger ≡ true → s.is_commit ≡ true) → t.trigger ≡ true → t.is_commit ≡ true)
  unfolding make_qc
  make_qc-backs now c agg back s =
      let first =
        nat_beq (size (add c s.blck_set)) 1 && ltb now (s.start_time + 3 * env.tick_interval) in
      elim (Bool-cases first) [
        | inl hit ↦ rw hit (elim (Bool-cases s.trigger) [
          | inl full ↦ rw full (refl, inr refl, (λ old h. refl))
          | inr free ↦ rw free (refl, inr refl, (λ old h. refl))
        ])
        | inr later ↦ rw later (refl, inl (refl, refl), (λ old. old))
      ]

  pub count_vote-IsBacked :
      (now : ℕ) (c : Bytes) (sig : S) (s : BbMod S)
      → IsBacked s
      → elem sig (issued sign signed n c) ≡ true
      → IsBacked (state_after s (count_vote env now c sig s))
  unfolding count_vote
  count_vote-IsBacked now c sig s ok real =
      let votes = add sig (sigs_of c s.vote_map) in
      let s' : BbMod S = record s { vote_map = insert c votes s.vote_map } in
      let quiet = voted-IsBacked c sig s s' ok real refl (inl (refl, refl)) ok.triggered in
      elim (Bool-cases (nat_beq (size votes) (threshold env))) [
        | inr off ↦ rw off quiet
        | inl hit ↦ rw hit (elim (Bool-cases (has_qc c s)) [
          | inl old ↦ rw old quiet
          | inr new ↦ rw new (elim (Option-cases (aggregate_signatures env.aggregate votes.items)) [
            | inl is ↦ rw is quiet
            | inr (agg, is) ↦ rw is (
                let made = make_qc-backs now c agg s s' in
                voted-IsBacked c sig s _ ok real made.0
                  (elim made.1 [
                    | inl kept ↦ inl kept
                    | inr new_value ↦
                        inr (new_value, (nat_beq_iff (size votes) (threshold env)).0 hit)
                  ])
                  (made.2 ok.triggered))
          ])
        ])
      ]

  pub own_vote-IsBacked :
      (c : Bytes) (s : BbMod S)
      → IsBacked s
      → ((sig : S) → env.sign c ≡ some sig → elem sig (issued sign signed n c) ≡ true)
      → IsBacked (state_after s (own_vote env c s))
  unfolding own_vote
  own_vote-IsBacked c s ok real = elim (Option-cases (env.sign c)) [
    | inl is ↦ rw (is, state_after) ok
    | inr (sig, is) ↦
        rw (is, state_after)
          (voted-IsBacked c sig s _ ok (real sig is) refl (inl (refl, refl)) ok.triggered)
  ]

  pub fresh-IsBacked :
      (s : BbMod S) → s.vote_map ≡ [] → s.is_commit ≡ false → s.trigger ≡ false → IsBacked s
  unfolding sigs_of elem lookup
  fresh-IsBacked s none_yet down quiet = record {
    distinct = λ c. rw none_yet tt;
    genuine = λ c sig h. ground (arith, rw none_yet at h);
    backed = λ h. absurd (ground arith);
    triggered = λ h. absurd (ground arith);
  }

  -- The nodes that signed the committed value are as many as a commit needs.
  pub signers_of_commit :
      (s : BbMod S)
      → IsBacked s
      → s.is_commit ≡ true
      → threshold env ≤ below n (λ i. signed i s.commit_value)
  signers_of_commit s ok up =
      let c = s.commit_value in
      omega (
        arith,
        ok.backed up,
        length-le_of_elem (sigs_of c s.vote_map).items (issued sign signed n c) (ok.distinct c)
            (issued-Distinct sign signed n c) (ok.genuine c),
        length-issued sign signed n c,
      )
