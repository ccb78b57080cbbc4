-- ===== src/Tbb/Bb/Missed.antt =====
-- A certificate that tbb/handler_1deltaBB.go never makes: the count of votes is compared with the
-- threshold for equality, and only when a vote arrives.
use blockchain_simulator.Base.{
  ℕ, ◌+◌, ◌*◌, ◌-◌, ◌≤◌, ◌<◌, ◌≡◌, refl, false, ◌&&◌, List, [], ◌∷◌, Bytes, lookup, insert,
  lookup-insert, Eq, ◌==◌, bytes_eq, bytes_beq_iff, nat_beq, ltb, if◌then◌else◌, arith, Bool-cases,
  Option-cases, inl, inr, ◌∙◌, Map,
}
use blockchain_simulator.Utils.Set.{Set, add, size}
use blockchain_simulator.Utils.Set.Members.{length-put}
use blockchain_simulator.Tbb.Bb.Defs.{BbEnv, BbMod, sigs_of, has_qc, aggregate_signatures}
use blockchain_simulator.Tbb.Bb.Handlers.{threshold, own_vote, make_qc, count_vote}
use blockchain_simulator.Tbb.Bb.Certificates.{state_after}
use blockchain_simulator.Tbb.Bb.Votes.{Vote, counted, own, cast, after_votes}

-- The votes for the content are more than the threshold, and it has no certificate.
pub record IsMissed {S Addr : Type 0} (env : BbEnv S Addr) (c : Bytes) (s : BbMod S) : Type 0 where
  pub over : env.node_num - env.malicious_num < size (sigs_of c s.vote_map)
  pub no_qc : has_qc c s ≡ false

module _ {S Addr : Type 0} ⦃es : Eq S⦄ ⦃e : Eq Addr⦄ (env : BbEnv S Addr) where
  add-grows : (sig : S) (sigs : Set S) → size sigs ≤ size (add sig sigs)
  unfolding add
  add-grows sig sigs = ground (arith, length-put sig sigs.items)

  pub sigs_of-insert :
      (d c : Bytes) (sig : S) (m : Map Bytes (Set S))
      → sigs_of c (insert d (add sig (sigs_of d m)) m)
        ≡ (if d == c then add sig (sigs_of d m) else sigs_of c m)
  unfolding sigs_of
  sigs_of-insert d c sig m = elim (Bool-cases (d == c)) [
    | inl same ↦ rw (lookup-insert, sigs_of) (rw same refl)
    | inr other ↦ rw (lookup-insert, sigs_of) (rw other refl)
  ]

  -- A vote for any content leaves at least as many votes for each content.
  pub votes-grow :
      (d c : Bytes) (sig : S) (m : Map Bytes (Set S))
      → size (sigs_of c m) ≤ size (sigs_of c (insert d (add sig (sigs_of d m)) m))
  votes-grow d c sig m =
      ground (arith, sigs_of-insert d c sig m, add-grows sig (sigs_of d m), bytes_beq_iff d c)

  make_qc-other :
      (now : ℕ) (d c : Bytes) (agg : S) (back s : BbMod S)
      → (d == c) ≡ false
      → let t = state_after back (make_qc env now d agg s) in
        (t.vote_map ≡ s.vote_map) × (has_qc c t ≡ has_qc c s)
  unfolding make_qc has_qc
  make_qc-other now d c agg back s other =
      let known : (lookup c (insert d agg s.qc_map) ≡ lookup c s.qc_map) =
        rw lookup-insert (rw other refl) in
      let first =
        nat_beq (size (add d s.blck_set)) 1 && ltb now (s.start_time + 3 * env.tick_interval) in
      elim (Bool-cases first) [
        | inl hit ↦ rw hit (elim (Bool-cases s.trigger) [
          | inl full ↦ rw full (rw (known, has_qc) (refl, refl))
          | inr free ↦ rw free (rw (known, has_qc) (refl, refl))
        ])
        | inr later ↦ rw later (rw (known, has_qc) (refl, refl))
      ]

  count_vote-IsMissed :
      (now : ℕ) (d c : Bytes) (sig : S) (s : BbMod S)
      → IsMissed env c s
      → IsMissed env c (state_after s (count_vote env now d sig s))
  unfolding count_vote has_qc
  count_vote-IsMissed now d c sig s lost =
      let votes = add sig (sigs_of d s.vote_map) in
      let s' : BbMod S = record s { vote_map = insert d votes s.vote_map } in
      let more = votes-grow d c sig s.vote_map in
      let here : IsMissed env c s' = record {
        over = omega (arith, lost.over, more);
        no_qc = lost.no_qc;
      } in
      elim (Bool-cases (nat_beq (size votes) (threshold env))) [
        | inr off ↦ rw off here
        | inl hit ↦ rw hit (elim (Bool-cases (has_qc d s)) [
          | inl old ↦ rw old here
          | inr new ↦ rw new (elim (Option-cases (aggregate_signatures env.aggregate votes.items)) [
            | inl is ↦ rw is here
            | inr (agg, is) ↦ rw is (
                let other : (d == c) ≡ false =
                  ground (
                    arith,
                    sigs_of-insert d c sig s.vote_map,
                    more,
                    lost.over,
                    bytes_beq_iff d c,
                  ) in
                let kept = make_qc-other now d c agg s s' other in
                record { over = rw kept.0 here.over; no_qc = kept.1 ∙ here.no_qc })
          ])
        ])
      ]

  own_vote-IsMissed :
      (d c : Bytes) (s : BbMod S)
      → IsMissed env c s
      → IsMissed env c (state_after s (own_vote env d s))
  unfolding own_vote has_qc
  own_vote-IsMissed d c s lost = elim (Option-cases (env.sign d)) [
    | inl is ↦ rw (is, state_after) lost
    | inr (sig, is) ↦
        rw (is, state_after)
          (record {
            over = omega (arith, lost.over, votes-grow d c sig s.vote_map);
            no_qc = lost.no_qc;
          })
  ]

  -- Once a content without a certificate has more votes than the threshold, no sequence of later
  -- votes, for whatever contents and by whatever signers, makes a certificate for it.
  pub certificate_missed :
      (c : Bytes) (vs : List (Vote S)) (s : BbMod S)
      → IsMissed env c s
      → has_qc c (after_votes env vs s) ≡ false
  unfolding after_votes cast
  certificate_missed c [] s lost = lost.no_qc
  certificate_missed c (counted now d sig ∷ vs) s lost =
      certificate_missed c vs _ (count_vote-IsMissed now d c sig s lost)
  certificate_missed c (own d ∷ vs) s lost =
      certificate_missed c vs _ (own_vote-IsMissed d c s lost)
