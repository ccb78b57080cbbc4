-- ===== src/Pbft/Once/Costs.antt =====
-- What the handlers hand to the addon's commit, against what the pool still allows.
use blockchain_simulator.Base.{
  ℕ, ◌+◌, ◌≤◌, ◌≡◌, refl, false, Bytes, Eq, ◌==◌, bytes_eq, if◌then◌else◌, arith, count, inl, inr,
  bytes_beq_iff, Option-cases, insert, length,
}
use blockchain_simulator.Message.{Message, msg_propose}
use blockchain_simulator.Pbft.Defs.{
  PbftMessage, PbftEnv, PbftMod, new_request_info, is_reply_sent, set_reply_sent, inc_current_round,
  signal_done,
}
use blockchain_simulator.Pbft.Handlers.{
  Outcome, returns, commits, waits, info_of, tally_prepare, prepare_quorum, prepare_counted,
  prepare_addon, handle_prepare, pre_prepare_request, handle_pre_prepare, handle_propose,
  finish_round, commit_addon, commit_quorum, tally_commit, commit_counted, handle_commit,
}
use blockchain_simulator.Pbft.Pool.{
  is_reply_sent-insert, tally_prepare-flags, tally_commit-flags, set_commit_broadcasted-flags,
  set_reply_sent-flags, tally_commit-found, pre_prepare-flags, flags-of_pool,
}
use blockchain_simulator.Pbft.System.{Node, delivers}
use blockchain_simulator.Pbft.Once.{state_of, proposes}

-- Commits of the digest in the history, and commit handlers for it that wait in the addon.
abbrev pub done_for : {S X : Type 0} → Bytes → Node S X → ℕ
done_for d n = count (λ k. k == d) n.done

abbrev pub waiting_for : {S X : Type 0} → Bytes → Node S X → ℕ
waiting_for d n = count (λ m. m.request.digest == d) n.waiting_commits

-- One commit is left while the reply flag is down.
abbrev pub reply_room : {S X : Type 0} → Bytes → PbftMod S X → ℕ
reply_room d s = if is_reply_sent d s then 0 else 1

-- What a commit handler uses up.
abbrev pub cost_of : {S Addr X : Type 0} → Bytes → Outcome S Addr X → ℕ
cost_of d (returns s sent) = 0
cost_of d (commits s sent k) = if k == d then 1 else 0
cost_of d (waits s m) = if m.request.digest == d then 1 else 0

module _ {S Addr X : Type 0} ⦃e : Eq Addr⦄ (env : PbftEnv S Addr X) (d : Bytes) where
  abbrev Keeps : PbftMod S X → PbftMod S X → Type 0
  Keeps s s' = is_reply_sent d s' ≡ is_reply_sent d s

  pub prepare_addon-Keeps :
      (m : PbftMessage S) (s : PbftMod S X) → Keeps s (state_of (prepare_addon env m s))
  unfolding prepare_addon prepare_counted prepare_quorum
  prepare_addon-Keeps m s =
      elim (Option-cases (env.addon.handle_prepare_addon s.addon_state m.request)) [
        | inl wait ↦ ground arith
        | inr (ready, is) ↦
            let s' = record s { addon_state = ready.0 } in
            let t = (tally_prepare m.request s').0 in
            ground (
              arith,
              flags-of_pool d s' s refl,
              tally_prepare-flags d m.request s',
              set_commit_broadcasted-flags d m.request.digest t,
            )
      ]

  pub handle_prepare-Keeps :
      (msg : Message) (s : PbftMod S X) → Keeps s (state_of (handle_prepare env msg s))
  unfolding handle_prepare
  handle_prepare-Keeps msg s = elim (Option-cases (env.pbft_codec.decode msg.content)) [
    | inl bad ↦ ground arith
    | inr (m, is) ↦ ground (arith, prepare_addon-Keeps m s)
  ]

  pub handle_pre_prepare-Keeps :
      (msg : Message) (s : PbftMod S X) → Keeps s (handle_pre_prepare env msg s).0
  unfolding handle_pre_prepare pre_prepare_request
  handle_pre_prepare-Keeps msg s = elim (Option-cases (env.pbft_codec.decode msg.content)) [
    | inl bad ↦ ground arith
    | inr (m, is) ↦
        let pool = insert m.request.digest (info_of m.request s) s.request_pool in
        let t = record s { request_pool = pool } in
        let x = (env.addon.handle_pre_prepare_addon s.addon_state m.request).0 in
        ground (
          arith,
          pre_prepare-flags d m.request s,
          flags-of_pool d (record t { addon_state = x }) t refl,
        )
  ]

  pub handle_propose-Keeps :
      (msg : Message) (s : PbftMod S X)
      → proposes env d (delivers (record msg { msg_type = msg_propose })) ≡ false
      → Keeps s (handle_propose env msg s)
  unfolding handle_propose proposes
  handle_propose-Keeps msg s other = elim (Option-cases (env.request_codec.decode msg.content)) [
    | inl bad ↦ ground arith
    | inr (req, is) ↦
        let info = new_request_info req in
        let t = record s { request_pool = insert req.digest info s.request_pool } in
        let same : (handle_propose env msg s).request_pool ≡ t.request_pool = ground arith in
        ground (
          arith,
          flags-of_pool d (handle_propose env msg s) t same,
          is_reply_sent-insert d req.digest info s,
        )
  ]

  finish_round-Keeps : (s : PbftMod S X) → Keeps s (finish_round env s)
  unfolding finish_round signal_done inc_current_round is_reply_sent
  finish_round-Keeps s = ground arith

  -- Resumed or not, the addon's commit is paid for by its own message.
  pub commit_addon-costs :
      (m : PbftMessage S) (s : PbftMod S X)
      → Keeps s (state_of (commit_addon env m s))
        × (cost_of d (commit_addon env m s) ≤ (if m.request.digest == d then 1 else 0))
  unfolding commit_addon
  commit_addon-costs m s =
      let n = length s.request_queue.items in
      elim (Option-cases (env.addon.handle_commit_addon s.addon_state m.request n)) [
        | inl wait ↦ ground arith
        | inr (ready, is) ↦
            let s' = record s { addon_state = ready.0 } in
            ground (arith, finish_round-Keeps s', flags-of_pool d s' s refl)
      ]

  pub handle_commit-costs :
      (msg : Message) (s : PbftMod S X)
      → cost_of d (handle_commit env msg s) + reply_room d (state_of (handle_commit env msg s))
        ≤ reply_room d s
  unfolding handle_commit commit_counted commit_quorum
  handle_commit-costs msg s = elim (Option-cases (env.pbft_codec.decode msg.content)) [
    | inl bad ↦ ground arith
    | inr (m, is) ↦
        let t = (tally_commit m.request s).0 in
        let u = (set_reply_sent m.request.digest t).0 in
        ground (
          arith,
          tally_commit-flags d m.request s,
          set_reply_sent-flags d m.request.digest t,
          tally_commit-found m.request s,
          commit_addon-costs m u,
          bytes_beq_iff m.request.digest d,
        )
  ]

  abbrev pub budget : Node S X → ℕ
  budget n = done_for d n + waiting_for d n + reply_room d n.mod_state
