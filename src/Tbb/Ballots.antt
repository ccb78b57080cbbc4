-- ===== src/Tbb/Ballots.antt =====
-- How a node that runs tbb/handler_tbb.go votes in one round.
use blockchain_simulator.Base.{
  ℕ, ◌≡◌, ◌≢◌, refl, true, List, [], ◌∷◌, Bytes, Eq, ==_refl, bytes_eq, bytes_beq_iff, insert,
  arith, All, Bool-cases, Option-cases, inl, inr, ◌⊎◌, sym,
}
use blockchain_simulator.Message.{Message, MessageType-eq, msg_init}
use blockchain_simulator.Utils.Set.{elem, add, contains}
use blockchain_simulator.Utils.Set.Members.{elem-put}
use blockchain_simulator.Tbb.Bb.Defs.{
  BbEnv, BbMod, Timer, ba_starts_at, final_commit_at, consensus_done_at, votes_at, forwards_at,
  returns, aggregate_signatures, sigs_of,
}
use blockchain_simulator.Tbb.Bb.Handlers.{
  vote, own_vote, make_qc, count_vote, handle_vote_msg, handle_propose_msg as bb_propose,
  handle_forward1_msg as bb_forward1,
}
use blockchain_simulator.Tbb.Bb.Handlers as Handlers
use blockchain_simulator.Tbb.Bb.Bads.{
  fire, ba_start, final_commit, collect, relay, handle_forward2_msg as bb_forward2,
}
use blockchain_simulator.Tbb.Bb.Certificates.{state_after}
use blockchain_simulator.Tbb.Defs.{
  TbbEnv, TbbMod, in_dbb, handle, registered, handle_propose_msg, handle_forward_msg,
}
use blockchain_simulator.Tbb.Turns.{
  Turn, arrives, fires, reference1, reference2, commit1, commit2, commit3, turn, turns_after,
  node_after, in_dbb_after, commit1_waits, commit1_sent, point_quiet,
}

module _ {S Addr : Type 0} ⦃es : Eq S⦄ ⦃e : Eq Addr⦄ (env : BbEnv S Addr) where
  -- The vote timer does nothing, or it votes for the only value that was proposed.
  pub vote_cases :
      (s : BbMod S)
      → (vote env s ≡ returns s [])
        ⊎ ((c : Bytes) × (s.propose_set.items ≡ c ∷ []) × (vote env s ≡ own_vote env c s))
  unfolding vote
  vote_cases s = of_items s.propose_set.items refl
    where
      of_items :
          (items : List Bytes)
          → s.propose_set.items ≡ items
          → (vote env s ≡ returns s [])
            ⊎ ((c : Bytes) × (s.propose_set.items ≡ c ∷ []) × (vote env s ≡ own_vote env c s))
      of_items [] is = inl (simp (is, vote) refl)
      of_items (c ∷ []) is = inr (c, is, simp (is, vote) refl)
      of_items (c ∷ d ∷ rest) is = inl (simp (is, vote) refl)

  make_qc_keeps :
      (now : ℕ) (c : Bytes) (agg : S) (back s : BbMod S)
      → (state_after back (make_qc env now c agg s)).propose_set ≡ s.propose_set
  unfolding make_qc
  make_qc_keeps now c agg back s = ground arith

  count_vote_keeps :
      (now : ℕ) (c : Bytes) (sig : S) (s : BbMod S)
      → (state_after s (count_vote env now c sig s)).propose_set ≡ s.propose_set
  unfolding count_vote
  count_vote_keeps now c sig s =
      let votes = add sig (sigs_of c s.vote_map) in
      let s' : BbMod S = record s { vote_map = insert c votes s.vote_map } in
      elim (Option-cases (aggregate_signatures env.aggregate votes.items)) [
        | inl is ↦ ground arith
        | inr (agg, is) ↦ ground (arith, make_qc_keeps now c agg s s')
      ]

  pub vote_msg_keeps :
      (now : ℕ) (msg : Message) (s : BbMod S)
      → (state_after s (handle_vote_msg env now msg s)).propose_set ≡ s.propose_set
  unfolding handle_vote_msg
  vote_msg_keeps now msg s = elim (Option-cases (env.vote_codec.decode msg.content)) [
    | inl bad ↦ ground arith
    | inr (v, is) ↦ elim (Option-cases v.sig) [
      | inl nil ↦ ground arith
      | inr (sig, has) ↦ ground (arith, count_vote_keeps now v.content sig s)
    ]
  ]

  pub fire_keeps :
      (timer : Timer S) (s : BbMod S)
      → (state_after s (fire env timer s).0).propose_set ≡ s.propose_set
  unfolding fire ba_start final_commit own_vote
  fire_keeps (ba_starts_at due) s = ground arith
  fire_keeps (final_commit_at due) s = ground arith
  fire_keeps (consensus_done_at due) s = refl
  fire_keeps (votes_at due) s = elim (vote_cases s) [
    | inl is ↦ rw is refl
    | inr (c, one, is) ↦ rw is (ground arith)
  ]
  fire_keeps (forwards_at due input agg) s = refl

  pub forward2_keeps :
      (now turns : ℕ) (clock : ℕ → ℕ) (msg : Message) (s : BbMod S)
      → (state_after s (bb_forward2 env now turns clock msg s)).propose_set ≡ s.propose_set
  unfolding bb_forward2 collect relay
  forward2_keeps now turns clock msg s = ground arith

  pub propose_grows :
      (now : ℕ) (msg : Message) (s : BbMod S) (c : Bytes)
      → contains c s.propose_set ≡ true
      → contains c (bb_propose env now msg s).0.propose_set ≡ true
  unfolding bb_propose add contains
  propose_grows now msg s c has = elim (Option-cases (env.request_codec.decode msg.content)) [
    | inl bad ↦ ground arith
    | inr (req, is) ↦ ground (arith, elem-put req.content c s.propose_set.items)
  ]

  pub forward1_grows :
      (msg : Message) (s : BbMod S) (c : Bytes)
      → contains c s.propose_set ≡ true
      → contains c (bb_forward1 env msg s).propose_set ≡ true
  unfolding bb_forward1 add contains
  forward1_grows msg s c has = elim (Option-cases (env.request_codec.decode msg.content)) [
    | inl bad ↦ ground arith
    | inr (req, is) ↦ ground (arith, elem-put req.content c s.propose_set.items)
  ]

module _ {S Addr : Type 0} ⦃es : Eq S⦄ ⦃e : Eq Addr⦄ (env : TbbEnv S Addr) where
  -- No round begins with the event.
  abbrev pub Continues : Turn S → Type 0
  Continues (arrives now turns clock msg) = msg.msg_type ≢ msg_init
  Continues _ = Unit

  abbrev IsProposed : Bytes → TbbMod S → Type 0
  IsProposed c s = contains c s.dbb_mod.propose_set ≡ true

  registered_grows :
      (now turns : ℕ) (clock : ℕ → ℕ) (msg : Message) (s : TbbMod S) (c : Bytes)
      → msg.msg_type ≢ msg_init
      → IsProposed c s
      → IsProposed c (node_after env s (registered env now turns clock msg s))
  unfolding registered handle in_dbb handle_propose_msg handle_forward_msg Handlers.handle_qc_msg
  registered_grows now turns clock msg s c start has = ground (
    arith,
    propose_grows env.bb_env now msg s.dbb_mod c,
    forward1_grows env.bb_env msg s.dbb_mod c,
    forward2_keeps env.bb_env now turns clock msg s.dbb_mod,
    vote_msg_keeps env.bb_env now msg s.dbb_mod,
  )

  turn_grows :
      (v : Turn S) (s : TbbMod S) (c : Bytes)
      → Continues v
      → IsProposed c s
      → IsProposed c (turn env v s)
  turn_grows (arrives now turns clock msg) s c on has =
      unfold turn in registered_grows now turns clock msg s c on has
  turn_grows (fires timer) s c on has =
      let o = (fire env.bb_env timer s.dbb_mod).0 in
      unfold turn in rw ((in_dbb_after env s o).0, fire_keeps env.bb_env timer s.dbb_mod) has
  turn_grows reference1 s c on has = unfold turn in rw (point_quiet env s).0.0 has
  turn_grows reference2 s c on has = unfold turn in rw (point_quiet env s).1.0 has
  turn_grows commit1 s c on has = elim (Bool-cases s.dbb_mod.trigger) [
    | inl sent ↦ rw (commit1_sent env s sent) has
    | inr waits ↦ rw (commit1_waits env s waits) has
  ]
  turn_grows commit2 s c on has = unfold turn in rw (point_quiet env s).2.0 has
  turn_grows commit3 s c on has = unfold turn in rw (point_quiet env s).3.0 has

  turns_grow :
      (vs : List (Turn S)) (s : TbbMod S) (c : Bytes)
      → All Continues vs
      → IsProposed c s
      → IsProposed c (turns_after env vs s)
  unfolding turns_after
  turns_grow [] s c on has = has
  turns_grow (v ∷ vs) s c on has = turns_grow vs (turn env v s) c on.1 (turn_grows v s c on.0 has)

  -- In one round a node votes for one content at most: if the vote timer fires twice, with any
  -- events between that start no round, then it does nothing one of the two times, or it votes for
  -- the same content both times.
  pub one_ballot :
      (vs : List (Turn S)) (s : TbbMod S)
      → All Continues vs
      → let b = s.dbb_mod in
        let b' = (turns_after env vs s).dbb_mod in
        (vote env.bb_env b ≡ returns b [])
        ⊎ ((vote env.bb_env b' ≡ returns b' [])
            ⊎ ((c : Bytes) × (vote env.bb_env b ≡ own_vote env.bb_env c b)
                × (vote env.bb_env b' ≡ own_vote env.bb_env c b')))
  unfolding contains elem
  one_ballot vs s on =
      let b = s.dbb_mod in
      let b' = (turns_after env vs s).dbb_mod in
      elim (vote_cases env.bb_env b) [
        | inl idle ↦ inl idle
        | inr (c, one, first) ↦ elim (vote_cases env.bb_env b') [
          | inl idle ↦ inr (inl idle)
          | inr (d, one', second) ↦
              let has = turns_grow vs s c on (rw (one, ==_refl c) refl) in
              let same : d ≡ c = ground (arith, rw one' at has, bytes_beq_iff d c) in
              inr (inr (c, first, rw (sym same) second))
        ]
      ]
