-- ===== src/Pbft/Once.antt =====
-- A PBFT node broadcasts the commit message of a request at most once, and hands a request to its
-- addon's commit at most once, as long as its handlers run without interruption.
pub mod Handled
pub mod Broadcast
pub mod Costs
pub mod Commit
use blockchain_simulator.Base.{
  ℕ, ◌+◌, ◌≤◌, ◌≡◌, refl, Bool, true, false, List, [], ◌∷◌, Option, none, some, Bytes, Eq, ◌==◌,
  bytes_eq, if◌then◌else◌, arith, count, All, ==_refl, Bool-cases, inl, inr,
}
use blockchain_simulator.Message.{
  Message, MessageType, Request, msg_propose, msg_pre_prepare, msg_prepare, msg_commit,
}
use blockchain_simulator.P2p.{Effect, sends, broadcasts, broadcast}
use blockchain_simulator.Pbft.Defs.{
  PbftMessage, PbftEnv, PbftMod, is_commit_broadcasted, is_reply_sent,
}
use blockchain_simulator.Pbft.Handlers.{Outcome, returns, commits, waits, tell_shard}
use blockchain_simulator.Pbft.System.{
  Event, delivers, resumes_prepare, resumes_commit, handles_own, turns, blocks,
}

abbrev pub is_msg_commit : MessageType → Bool
is_msg_commit msg_commit = true
is_msg_commit _ = false

abbrev pub is_msg_propose : MessageType → Bool
is_msg_propose msg_propose = true
is_msg_propose _ = false

module _ {S Addr X : Type 0} where
  abbrev pub state_of : Outcome S Addr X → PbftMod S X
  state_of (returns s sent) = s
  state_of (commits s sent d) = s
  state_of (waits s m) = s

  abbrev pub sent_of : Outcome S Addr X → List (Effect Addr)
  sent_of (returns s sent) = sent
  sent_of (commits s sent d) = sent
  sent_of (waits s m) = []

module _ {S Addr X : Type 0} ⦃e : Eq Addr⦄ (env : PbftEnv S Addr X) (d : Bytes) where
  -- Is this the broadcast of a commit message for the digest?
  unfoldable pub commit_for : Effect Addr → Bool
  commit_for (sends addr m) = false
  commit_for (broadcasts addrs m) =
      if is_msg_commit m.msg_type
      then elim (env.pbft_codec.decode m.content) [
        | none ↦ false
        | some pm ↦ pm.request.digest == d
      ]
      else false

  -- Does this event propose a request with the digest (again)?
  unfoldable pub proposes : Event → Bool
  proposes (delivers msg) =
      if is_msg_propose msg.msg_type
      then elim (env.request_codec.decode msg.content) [ none ↦ false | some req ↦ req.digest == d ]
      else false
  proposes _ = false

  -- How many commit broadcasts for the digest an addon's commit sends.
  abbrev pub addon_count : Option (X × Bool × List (Effect Addr)) → ℕ
  addon_count none = 0
  addon_count (some (x, flag, sent)) = count commit_for sent

  -- The addon sends no commit message for the digest.
  abbrev pub AddonIsQuiet : Type 0
  AddonIsQuiet =
      (x : X) (req : Request S) (n : ℕ) → addon_count (env.addon.handle_commit_addon x req n) ≡ 0

  -- One broadcast is left while the flag is down.
  abbrev pub room : PbftMod S X → ℕ
  room s = if is_commit_broadcasted d s then 0 else 1

  pub tell_shard-count :
      (t : MessageType) (m : PbftMessage S)
      → count commit_for (tell_shard env t m)
        ≡ (if is_msg_commit t then (if m.request.digest == d then 1 else 0) else 0)
  unfolding tell_shard broadcast commit_for
  tell_shard-count t m = ground (arith, env.pbft_codec.decode-encode m)
