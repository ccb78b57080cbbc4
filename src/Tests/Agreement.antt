-- ===== src/Tests/Agreement.antt =====
-- Two nodes of tbb that reach commit point 1; a third node votes for two contents.
use blockchain_simulator.Base.{
  ℕ, ◌≡◌, ◌⊎◌, refl, Bool, true, false, List, [], ◌∷◌, some, Bytes, ◌==◌, bytes_eq, nat_eq, nat_beq,
  bytes_beq_iff, if◌then◌else◌, arith, insert, lookup, sym, ap, ◌∙◌, Option,
}
use blockchain_simulator.Message.{Message, msg_vote}
use blockchain_simulator.Utils.Set.{elem, add, put}
use blockchain_simulator.Tbb.Bb.Defs.{
  returns, VoteContent, has_qc, sigs_of, aggregate_signatures, votes_at,
}
use blockchain_simulator.Tbb.Bb.Handlers.{
  vote, own_vote, handle_propose_msg as bb_propose, handle_vote_msg as bb_vote, count_vote,
}
use blockchain_simulator.Tbb.Bb.Bads.{fire}
use blockchain_simulator.Tbb.Bb.Signers.{issued}
use blockchain_simulator.Clock.{wait_below, round_at}
use blockchain_simulator.Ds.Defs.{handle_propose_msg as ds_propose}
use blockchain_simulator.Tbb.Defs.{
  TbbEnv, new_tbb_mod, TbbMod, registered, handle, handle_propose_msg, in_dbb, commit_point1,
}
use blockchain_simulator.Tbb.Answer.{answer}
use blockchain_simulator.Tbb.Turns.{Turn, arrives, fires, commit1, turn, turns_after}
use blockchain_simulator.Tbb.Agreement.{IsStart, AreGenuine, commit_point_1_agreement}
use blockchain_simulator.Tbb.Ballots.{one_ballot}
use blockchain_simulator.Tests.Protocols.{a_proposal, ticking}
use blockchain_simulator.Tests.Codecs.{vote_codec}
use blockchain_simulator.Tests.Start.{tbb_env}

-- Node i signs with the number i.
abbrev number : ℕ → Bytes → ℕ
number i c = i

abbrev fourth : ℕ → Bool
fourth i = nat_beq i 3

abbrev votes_cast : ℕ → Bytes → Bool
votes_cast i c = if fourth i then true else c == (7 ∷ [])

abbrev other_env : TbbEnv ℕ ℕ
other_env = record tbb_env { bb_env = record tbb_env.bb_env { nid = 2; sign = λ b. some 2 } }

abbrev a_vote : ℕ → Bytes → Message
a_vote i c = record {
  msg_type = msg_vote;
  content = vote_codec.encode (record { node_id = i; content = c; sig = some i });
}

abbrev one_round : List (Turn ℕ)
one_round =
    arrives 10 1 ticking (a_proposal 7)
    ∷ arrives 11 1 ticking (a_vote 0 (7 ∷ []))
    ∷ fires (votes_at 110)
    ∷ arrives 120 1 ticking (a_vote 2 (7 ∷ []))
    ∷ commit1
    ∷ []

abbrev other_round : List (Turn ℕ)
other_round =
    arrives 11 1 ticking (a_vote 3 (8 ∷ []))
    ∷ arrives 12 1 ticking (a_vote 3 (7 ∷ []))
    ∷ arrives 13 1 ticking (a_vote 0 (7 ∷ []))
    ∷ arrives 14 1 ticking (a_vote 1 (7 ∷ []))
    ∷ commit1
    ∷ []

fresh-IsStart : IsStart (new_tbb_mod {S = ℕ} 0)
unfolding new_tbb_mod
fresh-IsStart = record { no_votes = refl; not_committed = refl; not_triggered = refl; unset = refl }

one_vote_each :
    (i : ℕ) (c d : Bytes) → fourth i ≡ false → votes_cast i c ≡ true → votes_cast i d ≡ true → c ≡ d
one_vote_each i c d honest at_c at_d =
    (bytes_beq_iff c (7 ∷ [])).0 (rw honest at at_c)
    ∙ sym ((bytes_beq_iff d (7 ∷ [])).0 (rw honest at at_d))

vote_real :
    (i : ℕ) (c : Bytes)
    → elem i (issued number votes_cast 4 c) ≡ true
    → (v : VoteContent ℕ) (sig : ℕ) → vote_codec.decode (a_vote i c).content ≡ some v
    → v.sig ≡ some sig
    → elem sig (issued number votes_cast 4 v.content) ≡ true
vote_real i c real v sig is has =
    let w : VoteContent ℕ = record { node_id = i; content = c; sig = some i } in
    let both : some v ≡ some w = sym is ∙ vote_codec.decode-encode w in
    let same : v ≡ w = cc both in
    let sig_is : some i ≡ some sig = sym (ap (λ (x : VoteContent ℕ). x.sig) same) ∙ has in
    let signer : i ≡ sig = cc sig_is in rw same (rw (sym signer) real)

one_round_genuine : AreGenuine number votes_cast 4 tbb_env one_round (new_tbb_mod 0)
unfolding turn registered handle handle_propose_msg bb_propose in_dbb bb_vote count_vote put add
    new_tbb_mod issued elem sigs_of lookup ds_propose wait_below round_at
one_round_genuine = (
  ((λ h. cc h), (λ h. absurd (cc h))),
  (
    ((λ h. cc h), (λ h. vote_real 0 (7 ∷ []) refl)),
    (own_real, (((λ h. cc h), (λ h. vote_real 2 (7 ∷ []) refl)), (tt, tt))),
  ),
)
  where
    own_real :
        (c : Bytes) (sig : ℕ)
        → ◌≡◌ {A = List Bytes} ((7 ∷ []) ∷ []) (c ∷ [])
        → ◌≡◌ {A = Option ℕ} (some 1) (some sig)
        → elem sig (issued number votes_cast 4 c) ≡ true
    own_real c sig one is =
        let content : (7 ∷ []) ≡ c = cc one in
        let signer : 1 ≡ sig = cc is in rw (sym content) (rw (sym signer) refl)

other_round_genuine : AreGenuine number votes_cast 4 other_env other_round (new_tbb_mod 0)
unfolding issued elem put
other_round_genuine = (
  ((λ h. cc h), (λ h. vote_real 3 (8 ∷ []) refl)),
  (
    ((λ h. cc h), (λ h. vote_real 3 (7 ∷ []) refl)),
    (
      ((λ h. cc h), (λ h. vote_real 0 (7 ∷ []) refl)),
      (((λ h. cc h), (λ h. vote_real 1 (7 ∷ []) refl)), (tt, tt)),
    ),
  ),
)

commit_point_1_agreement_example :
    answer (turns_after tbb_env one_round (new_tbb_mod 0))
    ≡ answer (turns_after other_env other_round (new_tbb_mod 0))
unfolding turns_after turn registered handle handle_propose_msg bb_propose in_dbb bb_vote count_vote
    put add new_tbb_mod commit_point1 sigs_of lookup fire insert has_qc aggregate_signatures
    ds_propose wait_below round_at
commit_point_1_agreement_example =
    commit_point_1_agreement number votes_cast fourth tbb_env other_env one_round other_round
      (new_tbb_mod 0) (new_tbb_mod 0) refl refl (omega arith) (omega arith) one_vote_each
      fresh-IsStart fresh-IsStart one_round_genuine other_round_genuine refl refl

abbrev proposed : TbbMod ℕ
proposed = turn tbb_env (arrives 10 1 ticking (a_proposal 7)) (new_tbb_mod 0)

-- The vote timer fires, a vote comes, and the proposal is sent again.
abbrev later_events : List (Turn ℕ)
later_events =
    fires (votes_at 110)
    ∷ arrives 120 1 ticking (a_vote 2 (7 ∷ []))
    ∷ arrives 130 1 ticking (a_proposal 7)
    ∷ []

one_ballot_example :
    let b = proposed.dbb_mod in
    let b' = (turns_after tbb_env later_events proposed).dbb_mod in
    (vote tbb_env.bb_env b ≡ returns b [])
    ⊎ ((vote tbb_env.bb_env b' ≡ returns b' [])
        ⊎ ((c : Bytes) × (vote tbb_env.bb_env b ≡ own_vote tbb_env.bb_env c b)
            × (vote tbb_env.bb_env b' ≡ own_vote tbb_env.bb_env c b')))
one_ballot_example = one_ballot tbb_env later_events proposed (tt, ((λ h. cc h), ((λ h. cc h), tt)))
