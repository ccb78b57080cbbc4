-- ===== src/Pbft/System.antt =====
-- A PBFT node as an event loop: messages arrive in any order, Run moves, and handlers that wait in
-- their addon are resumed. Here a handler runs without interruption up to its end or its wait;
-- `Threads` lets handlers interleave.
use blockchain_simulator.Base.{List, [], ◌∷◌, ◌++◌, none, some, Bytes, Eq, bytes_eq, pick, ℕ}
use blockchain_simulator.Message.{
  Message, MessageType, msg_propose, msg_pre_prepare, msg_prepare, msg_commit,
}
use blockchain_simulator.P2p.{Effect}
use blockchain_simulator.Pbft.Defs.{PbftMessage, PbftEnv, PbftMod, new_pbft_mod}
use blockchain_simulator.Pbft.Handlers.{
  Outcome, returns, commits, waits, handle_propose, handle_pre_prepare, prepare_addon,
  handle_prepare, commit_addon, handle_commit, run_turn, run_block,
}

-- `own` holds the pre-prepare messages that Run gave to the node's own handler; `done` lists the
-- digests whose commit was handed to the addon and came back, the newest first. It is a history
-- that no handler reads.
pub record Node (S X : Type 0) : Type 0 where
  pub mod_state : PbftMod S X
  pub waiting_prepares : List (PbftMessage S)
  pub waiting_commits : List (PbftMessage S)
  pub own : List Message
  pub done : List Bytes

-- The environment chooses which waiting handler goes on.
pub data Event : Type 0 where
  delivers : Message → Event
  resumes_prepare resumes_commit handles_own : ℕ → Event
  turns blocks : Event

abbrev pub new_node : {S X : Type 0} → X → Node S X
new_node x = record {
  mod_state = new_pbft_mod x;
  waiting_prepares = [];
  waiting_commits = [];
  own = [];
  done = [];
}

module _ {S Addr X : Type 0} where
  unfoldable pub after_prepare : Node S X → Outcome S Addr X → Node S X × List (Effect Addr)
  after_prepare n (returns s sent) = (record n { mod_state = s }, sent)
  after_prepare n (commits s sent d) = (record n { mod_state = s }, sent)
  after_prepare n (waits s m) =
      (record n { mod_state = s; waiting_prepares = m ∷ n.waiting_prepares }, [])

  unfoldable pub after_commit : Node S X → Outcome S Addr X → Node S X × List (Effect Addr)
  after_commit n (returns s sent) = (record n { mod_state = s }, sent)
  after_commit n (commits s sent d) = (record n { mod_state = s; done = d ∷ n.done }, sent)
  after_commit n (waits s m) =
      (record n { mod_state = s; waiting_commits = m ∷ n.waiting_commits }, [])

  unfoldable pub after_pre_prepare :
      Node S X → PbftMod S X × List (Effect Addr) → Node S X × List (Effect Addr)
  after_pre_prepare n (s, sent) = (record n { mod_state = s }, sent)

module _ {S Addr X : Type 0} ⦃e : Eq Addr⦄ (env : PbftEnv S Addr X) where
  -- RegisterHandlers: the handler of each type of message; other types have none in this module.
  unfoldable pub dispatch : MessageType → Message → Node S X → Node S X × List (Effect Addr)
  unfolding after_prepare after_commit after_pre_prepare
  dispatch msg_propose msg n = (record n { mod_state = handle_propose env msg n.mod_state }, [])
  dispatch msg_pre_prepare msg n = after_pre_prepare n (handle_pre_prepare env msg n.mod_state)
  dispatch msg_prepare msg n = after_prepare n (handle_prepare env msg n.mod_state)
  dispatch msg_commit msg n = after_commit n (handle_commit env msg n.mod_state)
  dispatch _ msg n = (n, [])

  unfoldable pub step : Event → Node S X → Node S X × List (Effect Addr)
  unfolding dispatch
  step (delivers msg) n = dispatch msg.msg_type msg n
  step (resumes_prepare i) n = elim (pick i n.waiting_prepares) [
    | none ↦ (n, [])
    | some (m, ms) ↦
        after_prepare (record n { waiting_prepares = ms }) (prepare_addon env m n.mod_state)
  ]
  step (resumes_commit i) n = elim (pick i n.waiting_commits) [
    | none ↦ (n, [])
    | some (m, ms) ↦
        after_commit (record n { waiting_commits = ms }) (commit_addon env m n.mod_state)
  ]
  step (handles_own i) n = elim (pick i n.own) [
    | none ↦ (n, [])
    | some (msg, msgs) ↦
        after_pre_prepare (record n { own = msgs }) (handle_pre_prepare env msg n.mod_state)
  ]
  step turns n = elim (run_turn env n.mod_state) [
    | none ↦ (n, [])
    | some (s, msg, sent) ↦ (record n { mod_state = s; own = msg ∷ n.own }, sent)
  ]
  step blocks n = (record n { mod_state = run_block n.mod_state }, [])

  -- All that is sent over a list of events, in order.
  unfoldable pub run : List Event → Node S X → Node S X × List (Effect Addr)
  run [] n = (n, [])
  run (ev ∷ evs) n =
      let (n', sent) = step ev n in let (n'', later) = run evs n' in (n'', sent ++ later)
