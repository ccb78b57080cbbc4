-- ===== src/Pbft/Liveness.antt =====
-- The end of a round on the view node: enough commit messages end it and wake Run, unless Run has
-- not blocked yet.
use Prim.Native.Nat.{max}
use mathlib.Core.Path.{subst}
use blockchain_simulator.Base.{
  ℕ, ◌+◌, ◌*◌, ◌≤◌, ◌<◌, ◌≡◌, refl, sym, Bool, true, false, List, [], ◌∷◌, none, some, Bytes, Eq,
  if◌then◌else◌, arith, length, nat_beq, inl, inr, leb, All, Bool-cases, bytes_eq,
}
use blockchain_simulator.Message.{Message, Request}
use blockchain_simulator.P2p.{Effect}
use blockchain_simulator.Pbft.Defs.{
  PbftMessage, PbftEnv, PbftMod, set_reply_sent, inc_current_round, signal_done, is_reply_sent,
  RunPc, told, blocked, polling,
}
use blockchain_simulator.Pbft.Handlers.{
  finish_round, commit_addon, commit_quorum, tally_commit, commit_counted, handle_commit, run_block,
  run_turn,
}
use blockchain_simulator.Pbft.Pool.{tally_commit-flags}
use blockchain_simulator.Pbft.Quorum.Counts.{commits_for, tally_commit-counts}
use blockchain_simulator.Pbft.Once.{state_of}

module _ {S Addr X : Type 0} ⦃e : Eq Addr⦄ (env : PbftEnv S Addr X) where
  -- The addon's commit never waits.
  abbrev pub AddonIsReady : Type 0
  AddonIsReady =
      (x : X) (req : Request S) (n : ℕ)
      → (r : X × Bool × List (Effect Addr)) × (env.addon.handle_commit_addon x req n ≡ some r)

  -- A commit message for the digest in the round.
  abbrev pub IsCommitOf : Bytes → ℕ → Message → Type 0
  IsCommitOf d r msg =
      (m : PbftMessage S) × (env.pbft_codec.decode msg.content ≡ some m)
      × (m.request.digest ≡ d)
      × (m.round ≡ r)

  -- Commit messages, handled one after the other.
  unfoldable pub commit_all : List Message → PbftMod S X → PbftMod S X
  commit_all [] s = s
  commit_all (msg ∷ msgs) s = commit_all msgs (state_of (handle_commit env msg s))

  abbrev pub wake : RunPc → RunPc
  wake polling = polling
  wake told = told
  wake blocked = polling

  tally_commit-keeps :
      (req : Request S) (s : PbftMod S X)
      → ((tally_commit req s).0.current_round ≡ s.current_round)
        × ((tally_commit req s).0.run_pc ≡ s.run_pc)
  unfolding tally_commit
  tally_commit-keeps req s = (refl, refl)

  set_reply_sent-keeps :
      (d : Bytes) (s : PbftMod S X)
      → ((set_reply_sent d s).0.current_round ≡ s.current_round)
        × ((set_reply_sent d s).0.run_pc ≡ s.run_pc)
  unfolding set_reply_sent
  set_reply_sent-keeps d s = ground arith

  commit_addon-ends :
      (m : PbftMessage S) (s : PbftMod S X)
      → AddonIsReady
      → nat_beq env.nid env.view ≡ true
      → let s' = state_of (commit_addon env m s) in
        (s'.current_round ≡ s.current_round + 1) × (s'.run_pc ≡ wake s.run_pc)
  unfolding commit_addon finish_round signal_done inc_current_round
  commit_addon-ends m s ready view =
      ground (arith, ready s.addon_state m.request (length s.request_queue.items))

  handle_commit-more :
      (d : Bytes) (msg : Message) (s : PbftMod S X)
      → IsCommitOf d s.current_round msg
      → is_reply_sent d s ≡ false
      → leb (2 * env.malicious_num) (commits_for d s + 1) ≡ false
      → let s' = state_of (handle_commit env msg s) in
        (s'.current_round ≡ s.current_round)
        × (s'.run_pc ≡ s.run_pc)
        × (commits_for d s' ≡ commits_for d s + 1)
        × (is_reply_sent d s' ≡ false)
  unfolding handle_commit commit_counted commit_quorum
  handle_commit-more d msg s is down more =
      let m = is.0 in
      let t = (tally_commit m.request s).0 in
      ground (
        arith,
        tally_commit-counts m.request s,
        tally_commit-flags d m.request s,
        tally_commit-keeps m.request s,
      )

  handle_commit-enough :
      (d : Bytes) (msg : Message) (s : PbftMod S X)
      → AddonIsReady
      → nat_beq env.nid env.view ≡ true
      → IsCommitOf d s.current_round msg
      → is_reply_sent d s ≡ false
      → leb (2 * env.malicious_num) (commits_for d s + 1) ≡ true
      → let s' = state_of (handle_commit env msg s) in
        (s'.current_round ≡ s.current_round + 1) × (s'.run_pc ≡ wake s.run_pc)
  unfolding handle_commit commit_counted commit_quorum
  handle_commit-enough d msg s ready view is down enough =
      let m = is.0 in
      let t = (tally_commit m.request s).0 in
      let u = (set_reply_sent m.request.digest t).0 in
      ground (
        arith,
        tally_commit-counts m.request s,
        tally_commit-keeps m.request s,
        set_reply_sent-keeps m.request.digest t,
        commit_addon-ends m u ready view,
      )

  commit_all-outdated :
      (d : Bytes) (r : ℕ) (msgs : List Message) (s : PbftMod S X)
      → All (IsCommitOf d r) msgs
      → r < s.current_round
      → commit_all msgs s ≡ s
  unfolding commit_all handle_commit
  commit_all-outdated d r [] s is late = refl
  commit_all-outdated d r (msg ∷ msgs) s is late =
      let m = is.0.0 in
      let dropped : state_of (handle_commit env msg s) ≡ s = ground arith in
      rw dropped (commit_all-outdated d r msgs s is.1 late)

  -- The commit message that ends a round, the first where none is needed.
  abbrev pub commit_quorum_cnt : ℕ
  commit_quorum_cnt = max 1 (2 * env.malicious_num)

  -- On the view node, with an addon that does not wait, commit messages of the current round for a
  -- request that is not replied and has fewer counted so far than are needed: the round ends, by
  -- one step of the counter, exactly when the needed number is reached, whatever number of
  -- messages follow, and then Run goes back to polling if it was blocked; otherwise neither moves.
  pub view_round_completes :
      (d : Bytes) (msgs : List Message) (s : PbftMod S X)
      → AddonIsReady
      → nat_beq env.nid env.view ≡ true
      → All (IsCommitOf d s.current_round) msgs
      → is_reply_sent d s ≡ false
      → commits_for d s < commit_quorum_cnt
      → let s' = commit_all msgs s in
        let ended = leb commit_quorum_cnt (commits_for d s + length msgs) in
        (s'.current_round ≡ s.current_round + (if ended then 1 else 0))
        × (s'.run_pc ≡ (if ended then wake s.run_pc else s.run_pc))
  unfolding commit_all
  view_round_completes d [] s ready view is down few = ground arith
  view_round_completes d (msg ∷ msgs) s ready view is down few =
      let s' = state_of (handle_commit env msg s) in
      elim (Bool-cases (leb (2 * env.malicious_num) (commits_for d s + 1))) [
        | inl enough ↦
            let ends = handle_commit-enough d msg s ready view is.0 down enough in
            let late = commit_all-outdated d s.current_round msgs s' is.1 (omega (arith, ends.0)) in
            ground (arith, ends, late)
        | inr more ↦
            let goes = handle_commit-more d msg s is.0 down more in
            let still = subst (λ r. All (IsCommitOf d r) msgs) (sym goes.0) is.1 in
            let few' : commits_for d s' < commit_quorum_cnt = ground arith in
            ground (arith, goes, view_round_completes d msgs s' ready view still goes.3 few')
      ]

  -- If the round ends after Run has told the shard of the request and before it blocks, the signal
  -- is lost: Run blocks all the same, in a round that is over, and every further commit message of
  -- the round that it told is dropped.
  pub lost_wakeup :
      (d : Bytes) (msgs more : List Message) (s : PbftMod S X)
      → AddonIsReady
      → nat_beq env.nid env.view ≡ true
      → All (IsCommitOf d s.current_round) msgs
      → All (IsCommitOf d s.current_round) more
      → is_reply_sent d s ≡ false
      → commits_for d s < commit_quorum_cnt
      → commit_quorum_cnt ≤ commits_for d s + length msgs
      → s.run_pc ≡ told
      → let s' = run_block (commit_all msgs s) in
        (s'.run_pc ≡ blocked)
        × (commit_all more s' ≡ s')
        × (run_turn env (commit_all more s') ≡ none)
  unfolding run_block run_turn
  lost_wakeup d msgs more s ready view is is' down few reached pc =
      let ends = view_round_completes d msgs s ready view is down few in
      let s' = run_block (commit_all msgs s) in
      let late : s.current_round < s'.current_round = ground (arith, ends) in
      let stuck = commit_all-outdated d s.current_round more s' is' late in
      ground (arith, ends, stuck)
