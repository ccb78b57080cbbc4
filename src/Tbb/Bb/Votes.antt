-- ===== src/Tbb/Bb/Votes.antt =====
-- Sequences of votes of tbb/handler_1deltaBB.go: the votes that arrive, and the node's own.
use blockchain_simulator.Base.{
  ℕ, ◌≡◌, ◌≢◌, refl, true, List, [], ◌∷◌, some, none, Bytes, insert, Eq, bytes_eq, nat_beq,
  Bool-cases, Option-cases, inl, inr, ◌∙◌,
}
use blockchain_simulator.Utils.Set.{add, size}
use blockchain_simulator.Message.{Message}
use blockchain_simulator.Tbb.Bb.Defs.{
  VoteContent, BbEnv, BbMod, Outcome, sigs_of, has_qc, aggregate_signatures,
}
use blockchain_simulator.Tbb.Bb.Handlers.{threshold, own_vote, count_vote, handle_vote_msg}
use blockchain_simulator.Tbb.Bb.Certificates.{state_after, Returns, IsConsistent, make_qc-ok}

-- A vote that arrives, or the firing of the vote timer with one proposed value.
pub data Vote (S : Type 0) : Type 0 where
  counted : (now : ℕ) → (content : Bytes) → (sig : S) → Vote S
  own : (content : Bytes) → Vote S

module _ {S Addr : Type 0} ⦃es : Eq S⦄ ⦃e : Eq Addr⦄ (env : BbEnv S Addr) where
  unfoldable pub cast : Vote S → BbMod S → Outcome S Addr
  cast (counted now c sig) s = count_vote env now c sig s
  cast (own c) s = own_vote env c s

  unfoldable pub after_votes : List (Vote S) → BbMod S → BbMod S
  after_votes [] s = s
  after_votes (v ∷ vs) s = after_votes vs (state_after s (cast v s))

  count_vote-ok :
      (now : ℕ) (c : Bytes) (sig : S) (s : BbMod S)
      → IsConsistent s
      → let o = count_vote env now c sig s in
        Returns o
        × IsConsistent (state_after s o)
        × (s.is_commit ≡ true → (state_after s o).commit_value ≡ s.commit_value)
        × (s.is_commit ≡ true → (state_after s o).is_commit ≡ true)
  unfolding count_vote has_qc
  count_vote-ok now c sig s ok =
      let votes = add sig (sigs_of c s.vote_map) in
      let s' = record s { vote_map = insert c votes s.vote_map } in
      let ok' : IsConsistent s' = record {
        certified = ok.certified;
        distinct = ok.distinct;
        committed = ok.committed;
        triggered = ok.triggered;
      } in
      let quiet : Unit
          × IsConsistent s'
          × (s.is_commit ≡ true → s'.commit_value ≡ s.commit_value)
          × (s.is_commit ≡ true → s'.is_commit ≡ true) =
        (tt, ok', (λ h. refl), (λ h. h)) in
      elim (Bool-cases (nat_beq (size votes) (threshold env))) [
        | inr off ↦ rw off quiet
        | inl hit ↦ rw hit (elim (Bool-cases (has_qc c s)) [
          | inl old ↦ rw old quiet
          | inr new ↦ rw new (elim (Option-cases (aggregate_signatures env.aggregate votes.items)) [
            | inl is ↦ rw is quiet
            | inr (agg, is) ↦ rw is (make_qc-ok env now c agg s s' ok' new)
          ])
        ])
      ]

  own_vote-IsConsistent :
      (c : Bytes) (s : BbMod S)
      → IsConsistent s
      → let t = state_after s (own_vote env c s) in
        IsConsistent t
        × (t.commit_value ≡ s.commit_value)
        × (t.is_commit ≡ s.is_commit)
        × ((d : Bytes) → has_qc d t ≡ has_qc d s)
  unfolding own_vote has_qc
  own_vote-IsConsistent c s ok = elim (Option-cases (env.sign c)) [
    | inl is ↦ rw (is, state_after) (ok, refl, refl, (λ d. refl))
    | inr (sig, is) ↦
        rw (is, state_after)
          (
            record {
              certified = ok.certified;
              distinct = ok.distinct;
              committed = ok.committed;
              triggered = ok.triggered;
            },
            refl,
            refl,
            (λ d. refl),
          )
  ]

  votes_after :
      (vs : List (Vote S)) (s : BbMod S)
      → IsConsistent s
      → IsConsistent (after_votes vs s)
        × (s.is_commit ≡ true
            → ((after_votes vs s).commit_value ≡ s.commit_value)
              × ((after_votes vs s).is_commit ≡ true))
  unfolding after_votes cast
  votes_after [] s ok = (ok, (λ h. (refl, h)))
  votes_after (counted now c sig ∷ vs) s ok =
      let one = count_vote-ok now c sig s ok in
      let rest = votes_after vs (state_after s (count_vote env now c sig s)) one.1 in
      (rest.0, (λ h. let r = rest.1 (one.3 h) in (r.0 ∙ one.2 h, r.1)))
  votes_after (own c ∷ vs) s ok =
      let one = own_vote-IsConsistent c s ok in
      let rest = votes_after vs (state_after s (own_vote env c s)) one.0 in
      (rest.0, (λ h. let r = rest.1 (one.2 ∙ h) in (r.0 ∙ one.1, r.1)))

  -- From a consistent state, whatever votes have come in before, among them the node's own, each
  -- handled before the next: unless the next message of type MsgVote is a vote with a nil
  -- signature, its handler returns, so the one place of CommitPoint1Trigger is not found taken, and
  -- a value that was committed at commit point 1 is still the committed one.
  pub commit_point_1_stable :
      (vs : List (Vote S)) (now : ℕ) (msg : Message) (s : BbMod S)
      → IsConsistent s
      → ((v : VoteContent S) → env.vote_codec.decode msg.content ≡ some v → v.sig ≢ none)
      → Returns (handle_vote_msg env now msg (after_votes vs s))
        × (s.is_commit ≡ true
            → ((after_votes vs s).commit_value ≡ s.commit_value)
              × ((after_votes vs s).is_commit ≡ true))
  unfolding handle_vote_msg
  commit_point_1_stable vs now msg s ok signed =
      let done = votes_after vs s ok in
      let returned : Returns (handle_vote_msg env now msg (after_votes vs s)) =
        elim (Option-cases (env.vote_codec.decode msg.content)) [
          | inl bad ↦ rw (bad, handle_vote_msg) tt
          | inr (v, is) ↦
              rw (is, handle_vote_msg)
                (elim (Option-cases v.sig) [
                  | inl nil ↦ absurd (signed v is nil)
                  | inr (sig, has) ↦
                      rw has (count_vote-ok now v.content sig (after_votes vs s) done.0).0
                ])
        ] in
      (returned, done.1)
