-- ===== src/Pbft/Threads/Race.antt =====
-- What two interleaved handlers of one request can do that none can do alone: between the check
-- of a flag and its raising another handler passes the same check.
use blockchain_simulator.Base.{
  ℕ, ◌+◌, ◌*◌, ◌≤◌, ◌≡◌, Bool, true, false, List, [], ◌∷◌, ◌++◌, Bytes, Eq, bytes_eq, leb, arith,
  Option-cases, inl, inr, count, count-append, lookup, lookup-insert_self, ==_refl, length,
}
use blockchain_simulator.Message.{msg_commit}
use blockchain_simulator.P2p.{Effect}
use blockchain_simulator.Pbft.Defs.{
  PbftMessage, PbftEnv, PbftMod, is_commit_broadcasted, set_commit_broadcasted, is_reply_sent,
  set_reply_sent,
}
use blockchain_simulator.Pbft.Handlers.{
  commits, tally_prepare, tally_commit, prepare_quorum, need_cnt, commit_addon, finish_round,
  tell_shard,
}
use blockchain_simulator.Pbft.Pool.{tally_prepare-found}
use blockchain_simulator.Pbft.Once.{commit_for, tell_shard-count}
use blockchain_simulator.Pbft.Quorum.Counts.{
  prepares_for, commits_for, tally_prepare-counts, tally_commit-counts,
}
use blockchain_simulator.Pbft.Liveness.{AddonIsReady}
use blockchain_simulator.Pbft.Threads.{prepare_check, commit_check, both}

-- Each goroutine moves in turn.
abbrev pub in_turn : ℕ → List Bool
in_turn ℕ.zero = []
in_turn (ℕ.suc n) = true ∷ false ∷ in_turn n

module _ {S Addr X : Type 0} ⦃e : Eq Addr⦄ (env : PbftEnv S Addr X) where
  set_twice-found :
      (d : Bytes) (s : PbftMod S X)
      → (set_commit_broadcasted d s).1 ≡ true
      → (set_commit_broadcasted d (set_commit_broadcasted d s).0).1 ≡ true
  unfolding set_commit_broadcasted
  set_twice-found d s h = elim (Option-cases (lookup d s.request_pool)) [
    | inl missing ↦ ground arith
    | inr (info, found) ↦
        let info' = record info { is_commit_broadcast = true } in
        ground (arith, lookup-insert_self d info' s.request_pool)
  ]

  prepare_quorum-sends :
      (m : PbftMessage S) (cnt : ℕ) (s : PbftMod S X)
      → leb (need_cnt env) cnt ≡ true
      → (set_commit_broadcasted m.request.digest s).1 ≡ true
      → prepare_quorum env m cnt s
        ≡ ((set_commit_broadcasted m.request.digest s).0, tell_shard env msg_commit m)
  unfolding prepare_quorum
  prepare_quorum-sends m cnt s h f = ground arith

  -- Two prepare messages for one request, of which the first already makes the needed count: if
  -- both goroutines check the flag before either raises it, the commit message goes out twice.
  pub race_broadcasts_twice :
      (m m' : PbftMessage S) (s : PbftMod S X)
      → m'.request.digest ≡ m.request.digest
      → is_commit_broadcasted m.request.digest s ≡ false
      → need_cnt env ≤ prepares_for m.request.digest s + 1
      → count
          (commit_for env m.request.digest)
          (both env (in_turn 3) (prepare_check m) (prepare_check m') s).1
        ≡ 2
  unfolding both
  race_broadcasts_twice m m' s same down enough =
      let d = m.request.digest in
      let t = (tally_prepare m.request s).0 in
      let t' = (tally_prepare m'.request t).0 in
      let u = (set_commit_broadcasted d t').0 in
      let found : (set_commit_broadcasted d t').1 ≡ true =
        ground (arith, tally_prepare-found m'.request t) in
      let found' = set_twice-found d t' found in
      let first =
        prepare_quorum-sends m (tally_prepare m.request s).1 t'
          (ground (arith, tally_prepare-counts m.request s)) found in
      let second =
        prepare_quorum-sends m' (tally_prepare m'.request t).1 u
          (ground (arith, tally_prepare-counts m.request s, tally_prepare-counts m'.request t))
          (ground (arith, found')) in
      let sent = tell_shard env msg_commit m in
      let sent' = tell_shard env msg_commit m' in
      ground (
        arith,
        count-append (commit_for env d) sent (sent' ++ []),
        count-append (commit_for env d) sent' [],
        tell_shard-count env d msg_commit m,
        tell_shard-count env d msg_commit m',
        ==_refl d,
      )

  commit_addon-commits :
      (m : PbftMessage S) (s : PbftMod S X)
      → AddonIsReady env
      → (s' : PbftMod S X) × (sent : List (Effect Addr)) × (commit_addon env m s
          ≡ commits s' sent m.request.digest)
  unfolding commit_addon
  commit_addon-commits m s ready =
      let (r, is) = ready s.addon_state m.request (length s.request_queue.items) in
      (finish_round env (record s { addon_state = r.0 }), r.2, ground arith)

  -- Two commit messages for one request, of which the first already makes the needed count, with
  -- an addon that does not wait: if both goroutines read the reply flag before either raises it,
  -- the addon commits the request twice.
  race_commits_twice :
      (m m' : PbftMessage S) (s : PbftMod S X)
      → AddonIsReady env
      → m'.request.digest ≡ m.request.digest
      → is_reply_sent m.request.digest s ≡ false
      → 2 * env.malicious_num ≤ commits_for m.request.digest s + 1
      → (both env (in_turn 4) (commit_check m) (commit_check m') s).2
        ≡ m.request.digest ∷ m.request.digest ∷ []
  unfolding both
  race_commits_twice m m' s ready same down enough =
      let t = (tally_commit m.request s).0 in
      let t' = (tally_commit m'.request t).0 in
      let u = (set_reply_sent m.request.digest t').0 in
      let u' = (set_reply_sent m'.request.digest u).0 in
      let (v, sent, is) = commit_addon-commits m u' ready in
      let (w, sent', is') = commit_addon-commits m' v ready in
      ground (arith, tally_commit-counts m.request s, tally_commit-counts m'.request t, is, is')
