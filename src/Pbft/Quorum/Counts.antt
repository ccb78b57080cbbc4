-- ===== src/Pbft/Quorum/Counts.antt =====
-- The counters of a request's entry, and what one prepare message does to them.
use blockchain_simulator.Base.{
  Option-cases, inl, inr, ℕ, ◌+◌, ◌≡◌, true, false, [], none, some, Bytes, Eq, bytes_eq,
  if◌then◌else◌, arith, count, leb, lookup, lookup-insert_self, ==_refl,
}
use blockchain_simulator.Message.{Request, msg_commit}
use blockchain_simulator.Pbft.Defs.{
  PbftMessage, new_request_info, PbftEnv, PbftMod, is_commit_broadcasted, set_commit_broadcasted,
  set_reply_sent,
}
use blockchain_simulator.Pbft.Handlers.{
  need_cnt, info_of, tally_prepare, tally_commit, prepare_quorum, prepare_counted,
}
use blockchain_simulator.Pbft.Pool.{
  tally_prepare-flags, set_commit_broadcasted-flags, tally_prepare-found,
}
use blockchain_simulator.Pbft.Once.{commit_for, tell_shard-count}

module _ {S X : Type 0} where
  -- The counters of an entry; a missing entry has counted nothing.
  unfoldable pub prepares_for : Bytes → PbftMod S X → ℕ
  prepares_for d s = elim (lookup d s.request_pool) [
    | none ↦ 0
    | some info ↦ info.cnt_prepare_confirm
  ]

  unfoldable pub commits_for : Bytes → PbftMod S X → ℕ
  commits_for d s = elim (lookup d s.request_pool) [
    | none ↦ 0
    | some info ↦ info.cnt_commit_confirm
  ]

  pub tally_prepare-counts :
      (req : Request S) (s : PbftMod S X)
      → ((tally_prepare req s).1 ≡ prepares_for req.digest s + 1)
        × (prepares_for req.digest (tally_prepare req s).0 ≡ prepares_for req.digest s + 1)
  unfolding tally_prepare prepares_for info_of new_request_info
  tally_prepare-counts req s =
      let info = info_of req s in
      let info' = record info { cnt_prepare_confirm = info.cnt_prepare_confirm + 1 } in
      ground (arith, lookup-insert_self req.digest info' s.request_pool)

  pub tally_commit-counts :
      (req : Request S) (s : PbftMod S X)
      → ((tally_commit req s).1 ≡ commits_for req.digest s + 1)
        × (commits_for req.digest (tally_commit req s).0 ≡ commits_for req.digest s + 1)
  unfolding tally_commit commits_for info_of new_request_info
  tally_commit-counts req s =
      let info = info_of req s in
      let info' = record info { cnt_commit_confirm = info.cnt_commit_confirm + 1 } in
      ground (arith, lookup-insert_self req.digest info' s.request_pool)

  set_commit_broadcasted-counts :
      (d : Bytes) (s : PbftMod S X)
      → prepares_for d (set_commit_broadcasted d s).0 ≡ prepares_for d s
  unfolding set_commit_broadcasted prepares_for
  set_commit_broadcasted-counts d s = elim (Option-cases (lookup d s.request_pool)) [
    | inl missing ↦ ground arith
    | inr (info, found) ↦
        let info' = record info { is_commit_broadcast = true } in
        ground (arith, lookup-insert_self d info' s.request_pool)
  ]

  pub set_reply_sent-counts :
      (d : Bytes) (s : PbftMod S X) → commits_for d (set_reply_sent d s).0 ≡ commits_for d s
  unfolding set_reply_sent commits_for
  set_reply_sent-counts d s = elim (Option-cases (lookup d s.request_pool)) [
    | inl missing ↦ ground arith
    | inr (info, found) ↦
        let info' = record info { is_reply = true } in
        ground (arith, lookup-insert_self d info' s.request_pool)
  ]

module _ {S Addr X : Type 0} ⦃e : Eq Addr⦄ (env : PbftEnv S Addr X) where
  -- A prepare message before the commit broadcast is counted, and if the count suffices the
  -- broadcast is made and noted.
  pub prepare_counted-first :
      (m : PbftMessage S) (s : PbftMod S X)
      → let d = m.request.digest in
        let (s', sent) = prepare_counted env m s in
        let enough = leb (need_cnt env) (prepares_for d s + 1) in
        is_commit_broadcasted d s ≡ false
        → (prepares_for d s' ≡ prepares_for d s + 1)
          × (is_commit_broadcasted d s' ≡ enough)
          × (count (commit_for env d) sent ≡ (if enough then 1 else 0))
  unfolding prepare_counted prepare_quorum
  prepare_counted-first m s h =
      let d = m.request.digest in
      let t = (tally_prepare m.request s).0 in
      ground (
        arith,
        tally_prepare-counts m.request s,
        tally_prepare-flags d m.request s,
        set_commit_broadcasted-flags d d t,
        set_commit_broadcasted-counts d t,
        tally_prepare-found m.request s,
        tell_shard-count env d msg_commit m,
        ==_refl d,
      )

  -- After the commit broadcast a prepare message changes nothing.
  pub prepare_counted-later :
      (m : PbftMessage S) (s : PbftMod S X)
      → is_commit_broadcasted m.request.digest s ≡ true
      → prepare_counted env m s ≡ (s, [])
  unfolding prepare_counted
  prepare_counted-later m s h = ground arith
