-- ===== src/Pbft/Once/Commit.antt =====
-- A request is handed to the addon's commit at most once.
use blockchain_simulator.Base.{
  ◌+◌, ◌≤◌, ◌≡◌, refl, false, List, [], ◌∷◌, some, Bytes, Eq, ◌==◌, bytes_eq, arith, count-pick,
  All, inl, inr, pick, Option-cases,
}
use blockchain_simulator.Utils.Queue.{dequeue}
use blockchain_simulator.Message.{
  Message, MessageType, msg_propose, msg_pre_prepare, msg_prepare, msg_commit,
}
use blockchain_simulator.P2p.{Effect}
use blockchain_simulator.Pbft.Defs.{PbftEnv, PbftMod}
use blockchain_simulator.Pbft.Handlers.{
  Outcome, returns, commits, waits, prepare_addon, handle_prepare, commit_addon, handle_commit,
  run_turn, run_block,
}
use blockchain_simulator.Pbft.Pool.{flags-of_pool}
use blockchain_simulator.Pbft.System.{
  Node, Event, delivers, resumes_prepare, resumes_commit, handles_own, turns, blocks, after_prepare,
  after_commit, dispatch, step, run,
}
use blockchain_simulator.Pbft.Once.{state_of, proposes}
use blockchain_simulator.Pbft.Once.Costs.{
  done_for, waiting_for, reply_room, cost_of, prepare_addon-Keeps, handle_prepare-Keeps,
  handle_pre_prepare-Keeps, handle_propose-Keeps, commit_addon-costs, handle_commit-costs, budget,
}

module _ {S Addr X : Type 0} ⦃e : Eq Addr⦄ (env : PbftEnv S Addr X) (d : Bytes) where
  after_prepare-budget :
      (n : Node S X) (o : Outcome S Addr X)
      → budget env d (after_prepare n o).0
        ≡ done_for d n + waiting_for d n + reply_room d (state_of o)
  unfolding after_prepare
  after_prepare-budget n (returns t sent) = refl
  after_prepare-budget n (commits t sent k) = refl
  after_prepare-budget n (waits t m) = refl

  after_commit-budget :
      (n : Node S X) (o : Outcome S Addr X)
      → budget env d (after_commit n o).0
        ≡ done_for d n + waiting_for d n + cost_of d o + reply_room d (state_of o)
  unfolding after_commit
  after_commit-budget n (returns t sent) = omega arith
  after_commit-budget n (commits t sent k) = omega arith
  after_commit-budget n (waits t m) = omega arith

  dispatch-budget :
      (t : MessageType) (msg : Message) (n : Node S X)
      → proposes env d (delivers (record msg { msg_type = t })) ≡ false
      → budget env d (dispatch env t msg n).0 ≤ budget env d n
  unfolding dispatch
  dispatch-budget msg_propose msg n h = ground (arith, handle_propose-Keeps env d msg n.mod_state h)
  dispatch-budget msg_pre_prepare msg n h =
      ground (arith, handle_pre_prepare-Keeps env d msg n.mod_state)
  dispatch-budget msg_prepare msg n h =
      let o = handle_prepare env msg n.mod_state in
      ground (arith, after_prepare-budget n o, handle_prepare-Keeps env d msg n.mod_state)
  dispatch-budget msg_commit msg n h =
      let o = handle_commit env msg n.mod_state in
      omega (arith, after_commit-budget n o, handle_commit-costs env d msg n.mod_state)
  dispatch-budget _ msg n h = omega arith

  run_turn-keeps :
      (s t : PbftMod S X) (msg : Message) (sent : List (Effect Addr))
      → run_turn env s ≡ some (t, msg, sent)
      → t.request_pool ≡ s.request_pool
  unfolding run_turn
  run_turn-keeps s t msg sent h = elim (Option-cases (dequeue s.request_queue)) [
    | inl empty ↦ ground arith
    | inr (r, is) ↦ ground arith
  ]

  step-budget :
      (ev : Event) (n : Node S X)
      → proposes env d ev ≡ false
      → budget env d (step env ev n).0 ≤ budget env d n
  unfolding step run_block
  step-budget (delivers msg) n h = dispatch-budget msg.msg_type msg n h
  step-budget (resumes_prepare i) n h = elim (Option-cases (pick i n.waiting_prepares)) [
    | inl out ↦ ground arith
    | inr (w, is) ↦
        let n' = record n { waiting_prepares = w.1 } in
        let o = prepare_addon env w.0 n.mod_state in
        ground (arith, after_prepare-budget n' o, prepare_addon-Keeps env d w.0 n.mod_state)
  ]
  step-budget (resumes_commit i) n h = elim (Option-cases (pick i n.waiting_commits)) [
    | inl out ↦ ground arith
    | inr (w, is) ↦
        let n' = record n { waiting_commits = w.1 } in
        let o = commit_addon env w.0 n.mod_state in
        ground (
          arith,
          after_commit-budget n' o,
          commit_addon-costs env d w.0 n.mod_state,
          count-pick (λ m. m.request.digest == d) i n.waiting_commits is,
        )
  ]
  step-budget (handles_own i) n h = elim (Option-cases (pick i n.own)) [
    | inl out ↦ ground arith
    | inr (w, is) ↦ ground (arith, handle_pre_prepare-Keeps env d w.0 n.mod_state)
  ]
  step-budget turns n h = elim (Option-cases (run_turn env n.mod_state)) [
    | inl stays ↦ ground arith
    | inr (r, is) ↦
        ground (arith, flags-of_pool d r.0 n.mod_state (run_turn-keeps n.mod_state r.0 r.1 r.2 is))
  ]
  step-budget blocks n h =
      ground (arith, flags-of_pool d (run_block n.mod_state) n.mod_state (ground arith))

  -- While the digest is not proposed anew, over any events, each handled before the next one
  -- begins (a call of the addon that waits is left and taken up again): the commits of the digest that the
  -- addon has made, those that wait in the addon, and the one that is left while the reply flag is
  -- down, together never grow in number.
  pub run-budget :
      (evs : List Event) (n : Node S X)
      → All (λ ev. proposes env d ev ≡ false) evs
      → budget env d (run env evs n).0 ≤ budget env d n
  unfolding run
  run-budget [] n h = omega arith
  run-budget (ev ∷ evs) n h =
      omega (arith, step-budget ev n h.0, run-budget evs (step env ev n).0 h.1)
