-- ===== src/Pbft/Once/Broadcast.antt =====
-- The commit message of a request is broadcast at most once.
use blockchain_simulator.Base.{
  ◌+◌, ◌≤◌, ◌≡◌, refl, false, List, [], ◌∷◌, Bytes, Eq, bytes_eq, arith, count, All, inl, inr,
  count-append, pick, Option-cases, length,
}
use blockchain_simulator.Message.{
  Message, MessageType, msg_propose, msg_pre_prepare, msg_prepare, msg_commit,
}
use blockchain_simulator.Pbft.Defs.{PbftMessage, PbftEnv, PbftMod, set_reply_sent}
use blockchain_simulator.Pbft.Handlers.{
  Outcome, returns, commits, waits, prepare_addon, handle_prepare, commit_addon, commit_quorum,
  tally_commit, commit_counted, handle_commit, run_turn, run_block,
}
use blockchain_simulator.Pbft.Pool.{tally_commit-flags, set_reply_sent-flags, flags-of_pool}
use blockchain_simulator.Pbft.System.{
  Node, Event, delivers, resumes_prepare, resumes_commit, handles_own, turns, blocks, after_prepare,
  after_commit, dispatch, step, run,
}
use blockchain_simulator.Pbft.Once.{state_of, sent_of, commit_for, proposes, AddonIsQuiet, room}
use blockchain_simulator.Pbft.Once.Handled.{
  Spends, prepare_addon-Spends, handle_prepare-Spends, handle_pre_prepare-Spends, finish_round-room,
  handle_propose-room, run_turn-keeps,
}

module _ {S Addr X : Type 0} ⦃e : Eq Addr⦄ (env : PbftEnv S Addr X) (d : Bytes) where
  after_prepare-Spends :
      (s : PbftMod S X) (n : Node S X) (o : Outcome S Addr X)
      → Spends env d s (state_of o) (sent_of o)
      → Spends env d s (after_prepare n o).0.mod_state (after_prepare n o).1
  unfolding after_prepare
  after_prepare-Spends s n (returns t sent) h = h
  after_prepare-Spends s n (commits t sent k) h = h
  after_prepare-Spends s n (waits t m) h = h

  after_commit-Spends :
      (s : PbftMod S X) (n : Node S X) (o : Outcome S Addr X)
      → Spends env d s (state_of o) (sent_of o)
      → Spends env d s (after_commit n o).0.mod_state (after_commit n o).1
  unfolding after_commit
  after_commit-Spends s n (returns t sent) h = h
  after_commit-Spends s n (commits t sent k) h = h
  after_commit-Spends s n (waits t m) h = h

  module _ (quiet : AddonIsQuiet env d) where
    commit_addon-Spends :
        (m : PbftMessage S) (s : PbftMod S X)
        → Spends env d s (state_of (commit_addon env m s)) (sent_of (commit_addon env m s))
    unfolding commit_addon
    commit_addon-Spends m s =
        let n = length s.request_queue.items in
        elim (Option-cases (env.addon.handle_commit_addon s.addon_state m.request n)) [
          | inl wait ↦ ground arith
          | inr (ready, is) ↦
              let s' = record s { addon_state = ready.0 } in
              ground (
                arith,
                quiet s.addon_state m.request n,
                finish_round-room env d s',
                flags-of_pool d s' s refl,
              )
        ]

    handle_commit-Spends :
        (msg : Message) (s : PbftMod S X)
        → Spends env d s (state_of (handle_commit env msg s)) (sent_of (handle_commit env msg s))
    unfolding handle_commit commit_counted commit_quorum
    handle_commit-Spends msg s = elim (Option-cases (env.pbft_codec.decode msg.content)) [
      | inl bad ↦ ground arith
      | inr (m, is) ↦
          let t = (tally_commit m.request s).0 in
          let u = (set_reply_sent m.request.digest t).0 in
          ground (
            arith,
            tally_commit-flags d m.request s,
            set_reply_sent-flags d m.request.digest t,
            commit_addon-Spends m u,
          )
    ]

    dispatch-Spends :
        (t : MessageType) (msg : Message) (n : Node S X)
        → proposes env d (delivers (record msg { msg_type = t })) ≡ false
        → Spends env d n.mod_state (dispatch env t msg n).0.mod_state (dispatch env t msg n).1
    unfolding dispatch
    dispatch-Spends msg_propose msg n h = omega (arith, handle_propose-room env d msg n.mod_state h)
    dispatch-Spends msg_pre_prepare msg n h = handle_pre_prepare-Spends env d msg n.mod_state
    dispatch-Spends msg_prepare msg n h =
        after_prepare-Spends n.mod_state n (handle_prepare env msg n.mod_state)
          (handle_prepare-Spends env d msg n.mod_state)
    dispatch-Spends msg_commit msg n h =
        after_commit-Spends n.mod_state n (handle_commit env msg n.mod_state)
          (handle_commit-Spends msg n.mod_state)
    dispatch-Spends _ msg n h = omega arith

    step-Spends :
        (ev : Event) (n : Node S X)
        → proposes env d ev ≡ false
        → Spends env d n.mod_state (step env ev n).0.mod_state (step env ev n).1
    unfolding step run_block
    step-Spends (delivers msg) n h = dispatch-Spends msg.msg_type msg n h
    step-Spends (resumes_prepare i) n h = elim (Option-cases (pick i n.waiting_prepares)) [
      | inl out ↦ ground arith
      | inr (w, is) ↦
          let n' = record n { waiting_prepares = w.1 } in
          let o = prepare_addon env w.0 n.mod_state in
          ground (
            arith,
            after_prepare-Spends n.mod_state n' o (prepare_addon-Spends env d w.0 n.mod_state),
          )
    ]
    step-Spends (resumes_commit i) n h = elim (Option-cases (pick i n.waiting_commits)) [
      | inl out ↦ ground arith
      | inr (w, is) ↦
          let n' = record n { waiting_commits = w.1 } in
          let o = commit_addon env w.0 n.mod_state in
          ground (arith, after_commit-Spends n.mod_state n' o (commit_addon-Spends w.0 n.mod_state))
    ]
    step-Spends (handles_own i) n h = elim (Option-cases (pick i n.own)) [
      | inl out ↦ ground arith
      | inr (w, is) ↦ ground (arith, handle_pre_prepare-Spends env d w.0 n.mod_state)
    ]
    step-Spends turns n h = elim (Option-cases (run_turn env n.mod_state)) [
      | inl stays ↦ ground arith
      | inr (r, is) ↦
          let kept = run_turn-keeps env d n.mod_state r.0 r.1 r.2 is in
          ground (arith, kept, flags-of_pool d r.0 n.mod_state kept.0)
    ]
    step-Spends blocks n h =
        ground (arith, flags-of_pool d (run_block n.mod_state) n.mod_state (ground arith))

    -- With an addon whose commit sends no commit message for the digest, and while the digest is
    -- not proposed anew: over any events, each handled before the next one begins, the broadcasts
    -- of commit messages for it are at most one, and none once the flag of its entry is up.
    pub run-spends :
        (evs : List Event) (n : Node S X)
        → All (λ ev. proposes env d ev ≡ false) evs
        → count (commit_for env d) (run env evs n).1 + room env d (run env evs n).0.mod_state
          ≤ room env d n.mod_state
    unfolding run
    run-spends [] n h = omega arith
    run-spends (ev ∷ evs) n h =
        let n' = (step env ev n).0 in
        omega (
          arith,
          step-Spends ev n h.0,
          run-spends evs n' h.1,
          count-append (commit_for env d) (step env ev n).1 (run env evs n').1,
        )
