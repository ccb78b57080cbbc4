-- ===== src/Pbft/Rounds.antt =====
-- How the round of a PBFT node moves: with the commits of its addon on the view node, and not at
-- all on the others.
use blockchain_simulator.Base.{
  ℕ, ◌+◌, ◌≡◌, refl, List, [], ◌∷◌, Eq, if◌then◌else◌, arith, length, nat_beq, pick, Option-cases,
  inl, inr,
}
use blockchain_simulator.Message.{
  Message, MessageType, msg_propose, msg_pre_prepare, msg_prepare, msg_commit,
}
use blockchain_simulator.Pbft.Defs.{
  PbftMessage, PbftEnv, PbftMod, set_commit_broadcasted, set_reply_sent, inc_current_round,
  signal_done,
}
use blockchain_simulator.Pbft.Handlers.{
  Outcome, returns, commits, waits, tally_prepare, prepare_quorum, prepare_counted, prepare_addon,
  handle_prepare, pre_prepare_request, handle_pre_prepare, handle_propose, finish_round,
  commit_addon, commit_quorum, tally_commit, commit_counted, handle_commit, run_turn, run_block,
}
use blockchain_simulator.Pbft.System.{
  Node, Event, delivers, resumes_prepare, resumes_commit, handles_own, turns, blocks, after_prepare,
  after_commit, dispatch, step, run,
}
use blockchain_simulator.Pbft.Once.{state_of}

abbrev commits_of : {S Addr X : Type 0} → Outcome S Addr X → ℕ
commits_of (returns s sent) = 0
commits_of (commits s sent d) = 1
commits_of (waits s m) = 0

module _ {S Addr X : Type 0} ⦃e : Eq Addr⦄ (env : PbftEnv S Addr X) where
  -- A count on the view node, nothing on another node.
  abbrev pub on_view : ℕ → ℕ
  on_view k = if nat_beq env.nid env.view then k else 0

  prepare_addon-round :
      (m : PbftMessage S) (s : PbftMod S X)
      → (state_of (prepare_addon env m s)).current_round ≡ s.current_round
  unfolding prepare_addon prepare_counted prepare_quorum tally_prepare set_commit_broadcasted
  prepare_addon-round m s = ground arith

  handle_prepare-round :
      (msg : Message) (s : PbftMod S X)
      → (state_of (handle_prepare env msg s)).current_round ≡ s.current_round
  unfolding handle_prepare
  handle_prepare-round msg s = elim (Option-cases (env.pbft_codec.decode msg.content)) [
    | inl bad ↦ ground arith
    | inr (m, is) ↦ ground (arith, prepare_addon-round m s)
  ]

  handle_pre_prepare-round :
      (msg : Message) (s : PbftMod S X)
      → (handle_pre_prepare env msg s).0.current_round ≡ s.current_round
  unfolding handle_pre_prepare pre_prepare_request
  handle_pre_prepare-round msg s = ground arith

  handle_propose-round :
      (msg : Message) (s : PbftMod S X) → (handle_propose env msg s).current_round ≡ s.current_round
  unfolding handle_propose
  handle_propose-round msg s = ground arith

  pub commit_addon-round :
      (m : PbftMessage S) (s : PbftMod S X)
      → (state_of (commit_addon env m s)).current_round
        ≡ s.current_round + on_view (commits_of (commit_addon env m s))
  unfolding commit_addon finish_round signal_done inc_current_round
  commit_addon-round m s = ground arith

  handle_commit-round :
      (msg : Message) (s : PbftMod S X)
      → (state_of (handle_commit env msg s)).current_round
        ≡ s.current_round + on_view (commits_of (handle_commit env msg s))
  unfolding handle_commit commit_counted commit_quorum tally_commit set_reply_sent
  handle_commit-round msg s = elim (Option-cases (env.pbft_codec.decode msg.content)) [
    | inl bad ↦ ground arith
    | inr (m, is) ↦
        let u = (set_reply_sent m.request.digest (tally_commit m.request s).0).0 in
        ground (arith, commit_addon-round m u)
  ]

  -- The round of `n'` against that of `n`, by the commits between them.
  abbrev KeepsPace : Node S X → Node S X → Type 0
  KeepsPace n n' =
      n'.mod_state.current_round + on_view (length n.done)
      ≡ n.mod_state.current_round + on_view (length n'.done)

  after_prepare-pace :
      (n : Node S X) (o : Outcome S Addr X)
      → (state_of o).current_round ≡ n.mod_state.current_round
      → KeepsPace n (after_prepare n o).0
  unfolding after_prepare
  after_prepare-pace n (returns t sent) h = ground arith
  after_prepare-pace n (commits t sent k) h = ground arith
  after_prepare-pace n (waits t m) h = ground arith

  after_commit-pace :
      (n : Node S X) (o : Outcome S Addr X)
      → (state_of o).current_round ≡ n.mod_state.current_round + on_view (commits_of o)
      → KeepsPace n (after_commit n o).0
  unfolding after_commit
  after_commit-pace n (returns t sent) h = ground arith
  after_commit-pace n (commits t sent k) h = ground arith
  after_commit-pace n (waits t m) h = ground arith

  dispatch-pace :
      (t : MessageType) (msg : Message) (n : Node S X) → KeepsPace n (dispatch env t msg n).0
  unfolding dispatch
  dispatch-pace msg_propose msg n = ground (arith, handle_propose-round msg n.mod_state)
  dispatch-pace msg_pre_prepare msg n = ground (arith, handle_pre_prepare-round msg n.mod_state)
  dispatch-pace msg_prepare msg n =
      after_prepare-pace n (handle_prepare env msg n.mod_state)
        (handle_prepare-round msg n.mod_state)
  dispatch-pace msg_commit msg n =
      after_commit-pace n (handle_commit env msg n.mod_state) (handle_commit-round msg n.mod_state)
  dispatch-pace _ msg n = refl

  step-pace : (ev : Event) (n : Node S X) → KeepsPace n (step env ev n).0
  unfolding step run_block run_turn
  step-pace (delivers msg) n = dispatch-pace msg.msg_type msg n
  step-pace (resumes_prepare i) n = elim (Option-cases (pick i n.waiting_prepares)) [
    | inl out ↦ ground arith
    | inr (w, is) ↦
        let n' = record n { waiting_prepares = w.1 } in
        ground (
          arith,
          after_prepare-pace n' (prepare_addon env w.0 n.mod_state)
              (prepare_addon-round w.0 n.mod_state),
        )
  ]
  step-pace (resumes_commit i) n = elim (Option-cases (pick i n.waiting_commits)) [
    | inl out ↦ ground arith
    | inr (w, is) ↦
        let n' = record n { waiting_commits = w.1 } in
        ground (
          arith,
          after_commit-pace n' (commit_addon env w.0 n.mod_state)
              (commit_addon-round w.0 n.mod_state),
        )
  ]
  step-pace (handles_own i) n = elim (Option-cases (pick i n.own)) [
    | inl out ↦ ground arith
    | inr (w, is) ↦ ground (arith, handle_pre_prepare-round w.0 n.mod_state)
  ]
  step-pace turns n = ground arith
  step-pace blocks n = ground arith

  -- Over any events the view node's round grows by one with each commit that its addon makes, and
  -- the round of any other node stays what it was.
  pub run-pace :
      (evs : List Event) (n : Node S X)
      → (run env evs n).0.mod_state.current_round + on_view (length n.done)
        ≡ n.mod_state.current_round + on_view (length (run env evs n).0.done)
  unfolding run
  run-pace [] n = refl
  run-pace (ev ∷ evs) n = omega (arith, step-pace ev n, run-pace evs (step env ev n).0)
