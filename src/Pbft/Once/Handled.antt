-- ===== src/Pbft/Once/Handled.antt =====
-- What the handlers add to the commit messages of a request, against what the pool still allows.
use blockchain_simulator.Base.{
  ℕ, ◌+◌, ◌≤◌, ◌≡◌, refl, false, List, some, Bytes, Eq, bytes_eq, arith, count, inl, inr,
  bytes_beq_iff, Option-cases, insert,
}
use blockchain_simulator.Message.{Message, msg_propose, msg_pre_prepare, msg_prepare, msg_commit}
use blockchain_simulator.Utils.Queue.{dequeue}
use blockchain_simulator.P2p.{Effect}
use blockchain_simulator.Pbft.Defs.{
  PbftMessage, PbftEnv, PbftMod, new_request_info, is_commit_broadcasted, inc_current_round,
  signal_done,
}
use blockchain_simulator.Pbft.Handlers.{
  info_of, tally_prepare, prepare_quorum, prepare_counted, prepare_addon, handle_prepare,
  pre_prepare_request, handle_pre_prepare, handle_propose, finish_round, run_turn,
}
use blockchain_simulator.Pbft.Pool.{
  is_commit_broadcasted-insert, tally_prepare-flags, set_commit_broadcasted-flags,
  tally_prepare-found, pre_prepare-flags, flags-of_pool,
}
use blockchain_simulator.Pbft.System.{delivers}
use blockchain_simulator.Pbft.Once.{state_of, sent_of, commit_for, proposes, room, tell_shard-count}

module _ {S Addr X : Type 0} ⦃e : Eq Addr⦄ (env : PbftEnv S Addr X) (d : Bytes) where
  abbrev spent : List (Effect Addr) → ℕ
  spent sent = count (commit_for env d) sent

  prepare_counted-spends :
      (m : PbftMessage S) (s : PbftMod S X)
      → let (s', sent) = prepare_counted env m s in spent sent + room env d s' ≤ room env d s
  unfolding prepare_counted prepare_quorum
  prepare_counted-spends m s =
      let t = (tally_prepare m.request s).0 in
      ground (
        arith,
        tally_prepare-flags d m.request s,
        set_commit_broadcasted-flags d m.request.digest t,
        tally_prepare-found m.request s,
        tell_shard-count env d msg_commit m,
        bytes_beq_iff m.request.digest d,
      )

  -- A step that sends no commit broadcast for the digest and leaves its flag alone.
  abbrev pub Spends : PbftMod S X → PbftMod S X → List (Effect Addr) → Type 0
  Spends s s' sent = spent sent + room env d s' ≤ room env d s

  pub prepare_addon-Spends :
      (m : PbftMessage S) (s : PbftMod S X)
      → Spends s (state_of (prepare_addon env m s)) (sent_of (prepare_addon env m s))
  unfolding prepare_addon
  prepare_addon-Spends m s =
      elim (Option-cases (env.addon.handle_prepare_addon s.addon_state m.request)) [
        | inl wait ↦ ground arith
        | inr (ready, is) ↦
            let s' = record s { addon_state = ready.0 } in
            ground (arith, prepare_counted-spends m s', flags-of_pool d s' s refl)
      ]

  pub handle_prepare-Spends :
      (msg : Message) (s : PbftMod S X)
      → Spends s (state_of (handle_prepare env msg s)) (sent_of (handle_prepare env msg s))
  unfolding handle_prepare
  handle_prepare-Spends msg s = elim (Option-cases (env.pbft_codec.decode msg.content)) [
    | inl bad ↦ ground arith
    | inr (m, is) ↦ ground (arith, prepare_addon-Spends m s)
  ]

  pre_prepare_request-Spends :
      (m : PbftMessage S) (s : PbftMod S X)
      → Spends s (pre_prepare_request env m s).0 (pre_prepare_request env m s).1
  unfolding pre_prepare_request
  pre_prepare_request-Spends m s =
      let pool = insert m.request.digest (info_of m.request s) s.request_pool in
      let t = record s { request_pool = pool } in
      let x = (env.addon.handle_pre_prepare_addon s.addon_state m.request).0 in
      ground (
        arith,
        pre_prepare-flags d m.request s,
        flags-of_pool d (record t { addon_state = x }) t refl,
        tell_shard-count env d msg_prepare m,
      )

  pub handle_pre_prepare-Spends :
      (msg : Message) (s : PbftMod S X)
      → Spends s (handle_pre_prepare env msg s).0 (handle_pre_prepare env msg s).1
  unfolding handle_pre_prepare
  handle_pre_prepare-Spends msg s = elim (Option-cases (env.pbft_codec.decode msg.content)) [
    | inl bad ↦ ground arith
    | inr (m, is) ↦ ground (arith, pre_prepare_request-Spends m s)
  ]

  pub finish_round-room : (s : PbftMod S X) → room env d (finish_round env s) ≡ room env d s
  unfolding finish_round signal_done inc_current_round is_commit_broadcasted
  finish_round-room s = ground arith

  -- A proposal of another request leaves the entry of the digest alone.
  pub handle_propose-room :
      (msg : Message) (s : PbftMod S X)
      → proposes env d (delivers (record msg { msg_type = msg_propose })) ≡ false
      → room env d (handle_propose env msg s) ≡ room env d s
  unfolding handle_propose proposes
  handle_propose-room msg s other = elim (Option-cases (env.request_codec.decode msg.content)) [
    | inl bad ↦ ground arith
    | inr (req, is) ↦
        let info = new_request_info req in
        let t = record s { request_pool = insert req.digest info s.request_pool } in
        let same : (handle_propose env msg s).request_pool ≡ t.request_pool = ground arith in
        ground (
          arith,
          flags-of_pool d (handle_propose env msg s) t same,
          is_commit_broadcasted-insert d req.digest info s,
        )
  ]

  pub run_turn-keeps :
      (s t : PbftMod S X) (msg : Message) (sent : List (Effect Addr))
      → run_turn env s ≡ some (t, msg, sent)
      → (t.request_pool ≡ s.request_pool) × (spent sent ≡ 0)
  unfolding run_turn
  run_turn-keeps s t msg sent h = elim (Option-cases (dequeue s.request_queue)) [
    | inl empty ↦ ground arith
    | inr (r, is) ↦
        let m : PbftMessage S = record { request = r.0; round = s.current_round } in
        ground (arith, tell_shard-count env d msg_pre_prepare m)
  ]
