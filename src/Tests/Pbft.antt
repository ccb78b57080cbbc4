-- ===== src/Tests/Pbft.antt =====
-- Runs of pbft on four nodes: node 0 is the view node of shard 0.
use blockchain_simulator.Base.{
  ℕ, ◌+◌, ◌≤◌, ◌≡◌, refl, true, false, List, [], ◌∷◌, none, some, nat_eq, lookup, All, arith, count,
  length,
}
use blockchain_simulator.Message.{
  Message, Request, req_verify_string, msg_prepare, msg_commit, msg_pre_prepare,
}
use blockchain_simulator.Pbft.Defs.{
  PbftMessage, PbftEnv, PbftMod, PbftAddon, new_pbft_mod, told, blocked, polling,
  is_commit_broadcasted, is_reply_sent,
}
use blockchain_simulator.Pbft.Handlers.{need_cnt, run_block, run_turn, commit_counted}
use blockchain_simulator.Pbft.System.{Event, new_node, delivers, run}
use blockchain_simulator.Pbft.Once.{commit_for, proposes, room}
use blockchain_simulator.Pbft.Once.Broadcast.{run-spends}
use blockchain_simulator.Pbft.Once.Costs.{budget}
use blockchain_simulator.Pbft.Once.Commit.{run-budget}
use blockchain_simulator.Pbft.Once.{state_of}
use blockchain_simulator.Pbft.Rounds.{run-pace}
use blockchain_simulator.Pbft.Quorum.{prepare_all, prepare_all_correct}
use blockchain_simulator.Pbft.Quorum.Counts.{prepares_for, commits_for}
use blockchain_simulator.Pbft.Liveness.{
  AddonIsReady, IsCommitOf, commit_all, view_round_completes, lost_wakeup,
}
use blockchain_simulator.Pbft.Threads.{both, prepare_check}
use blockchain_simulator.Pbft.Threads.Race.{in_turn, race_broadcasts_twice}
use blockchain_simulator.Tests.Codecs.{request_codec, pbft_codec}

abbrev quiet_addon : PbftAddon ℕ ℕ ℕ
quiet_addon = record {
  handle_propose_addon = λ x req. (x, true);
  handle_pre_prepare_addon = λ x req. (x, true);
  handle_prepare_addon = λ x req. some (x, true);
  handle_commit_addon = λ x req n. some (x, true, []);
}

abbrev node_env : ℕ → PbftEnv ℕ ℕ ℕ
node_env nid = record {
  nid = nid;
  ipaddr = nid + 10;
  view = 0;
  malicious_num = 1;
  ip_map = (0, (0, 10) ∷ (1, 11) ∷ (2, 12) ∷ (3, 13) ∷ []) ∷ [];
  request_codec = request_codec;
  pbft_codec = pbft_codec;
  addon = quiet_addon;
}

abbrev pub a_request : Request ℕ
a_request = record {
  shard_id = 0;
  req_type = req_verify_string;
  content = 7 ∷ [];
  req_time = 1;
  digest = 5 ∷ [];
  sig = none;
}

abbrev pub in_round : ℕ → PbftMessage ℕ
in_round r = record { request = a_request; round = r }

abbrev pub a_prepare : Message
a_prepare = record { msg_type = msg_prepare; content = pbft_codec.encode (in_round 0) }

abbrev pub a_commit : Message
a_commit = record { msg_type = msg_commit; content = pbft_codec.encode (in_round 0) }

abbrev pub a_pre_prepare : Message
a_pre_prepare = record { msg_type = msg_pre_prepare; content = pbft_codec.encode (in_round 0) }

abbrev pub a_run : List Event
a_run =
    delivers a_pre_prepare
    ∷ delivers a_prepare
    ∷ delivers a_prepare
    ∷ delivers a_prepare
    ∷ delivers a_commit
    ∷ delivers a_commit
    ∷ delivers a_commit
    ∷ []

a_run-proposes_nothing : All (λ ev. proposes (node_env 1) (5 ∷ []) ev ≡ false) a_run
unfolding proposes
a_run-proposes_nothing = (refl, (refl, (refl, (refl, (refl, (refl, (refl, tt)))))))

run-spends_example :
    count (commit_for (node_env 1) (5 ∷ [])) (run (node_env 1) a_run (new_node 0)).1
      + room (node_env 1) (5 ∷ []) (run (node_env 1) a_run (new_node 0)).0.mod_state
    ≤ room (node_env 1) (5 ∷ []) (new_pbft_mod 0)
run-spends_example =
    run-spends (node_env 1) (5 ∷ []) (λ x req n. refl) a_run (new_node 0) a_run-proposes_nothing

run-budget_example :
    budget (node_env 1) (5 ∷ []) (run (node_env 1) a_run (new_node 0)).0
    ≤ budget (node_env 1) (5 ∷ []) (new_node 0)
run-budget_example = run-budget (node_env 1) (5 ∷ []) a_run (new_node 0) a_run-proposes_nothing

run-pace_example :
    (run (node_env 0) a_run (new_node 0)).0.mod_state.current_round + 0
    ≡ 0 + length (run (node_env 0) a_run (new_node 0)).0.done
unfolding new_pbft_mod
run-pace_example = run-pace (node_env 0) a_run (new_node 0)

abbrev three_prepares : List (PbftMessage ℕ)
three_prepares = in_round 0 ∷ in_round 0 ∷ in_round 0 ∷ []

prepare_all_correct_example :
    let (s', sent) = prepare_all (node_env 0) three_prepares (new_pbft_mod 0) in
    (prepares_for (5 ∷ []) s' ≡ 2)
    × (is_commit_broadcasted (5 ∷ []) s' ≡ true)
    × (count (commit_for (node_env 0) (5 ∷ [])) sent ≡ 1)
unfolding prepares_for is_commit_broadcasted lookup new_pbft_mod need_cnt
prepare_all_correct_example =
    prepare_all_correct (node_env 0) (5 ∷ []) three_prepares (new_pbft_mod 0)
      (refl, (refl, (refl, tt))) refl (omega arith)

abbrev three_commits : List Message
three_commits = a_commit ∷ a_commit ∷ a_commit ∷ []

is_ready : AddonIsReady (node_env 0)
is_ready = λ x req n. ((x, true, []), refl)

are_commits : All (IsCommitOf (node_env 0) (5 ∷ []) 0) three_commits
are_commits =
    let one : IsCommitOf (node_env 0) (5 ∷ []) 0 a_commit = (in_round 0, refl, refl, refl) in
    (one, (one, (one, tt)))

-- Run has told the shard of the request.
abbrev after_telling : PbftMod ℕ ℕ
after_telling = record (new_pbft_mod 0) { run_pc = told }

view_round_completes_example :
    let s' = commit_all (node_env 0) three_commits (record after_telling { run_pc = blocked }) in
    (s'.current_round ≡ 1) × (s'.run_pc ≡ polling)
unfolding commits_for is_reply_sent new_pbft_mod lookup
view_round_completes_example =
    view_round_completes (node_env 0) (5 ∷ []) three_commits
      (record after_telling { run_pc = blocked }) is_ready refl are_commits refl (omega arith)

lost_wakeup_example :
    let s = commit_all (node_env 0) three_commits after_telling in
    let s' = run_block s in
    (s'.run_pc ≡ blocked)
    × (commit_all (node_env 0) three_commits s' ≡ s')
    × (run_turn (node_env 0) (commit_all (node_env 0) three_commits s') ≡ none)
unfolding commits_for is_reply_sent new_pbft_mod lookup
lost_wakeup_example =
    lost_wakeup (node_env 0) (5 ∷ []) three_commits three_commits after_telling is_ready refl
      are_commits are_commits refl (omega arith) (omega arith) refl

-- One prepare is needed at a node other than the view node.
race_broadcasts_twice_example :
    count
      (commit_for (node_env 1) (5 ∷ []))
      (both
        (node_env 1)
        (in_turn 3)
        (prepare_check (in_round 0))
        (prepare_check (in_round 0))
        (new_pbft_mod 0)).1
    ≡ 2
unfolding prepares_for need_cnt is_commit_broadcasted lookup new_pbft_mod
race_broadcasts_twice_example =
    race_broadcasts_twice (node_env 1) (in_round 0) (in_round 0) (new_pbft_mod 0) refl refl
      (omega arith)

abbrev one_commit_counted : PbftMod ℕ ℕ
one_commit_counted = state_of (commit_counted (node_env 1) (in_round 0) (new_pbft_mod 0))
