-- ===== src/Tbb/Bb/Bads.antt =====
-- BADS*, embedded in tbb/handler_1deltaBB.go: the second half of its rounds, and all its timers.
use blockchain_simulator.Base.{
  ℕ, ◌+◌, ◌*◌, Bool, true, false, [], ◌∷◌, ◌++◌, none, some, insert, Eq, bytes_eq, nat_beq, ltb,
  if◌then◌else◌, length,
}
use blockchain_simulator.Base.Int.{pos, negsuc}
use blockchain_simulator.Message.{Message, msg_forward2, no_nil}
use blockchain_simulator.Utils.Set.{add, contains, size}
use blockchain_simulator.Clock.{wait_below}
use blockchain_simulator.Ds.Defs.{only_value}
use blockchain_simulator.Tbb.Bb.Defs.{
  SigListContent, Timer, ba_starts_at, final_commit_at, consensus_done_at, votes_at, forwards_at,
  BbEnv, BbMod, Outcome, returns, panics, sigs_of, aggregate_signatures,
}
use blockchain_simulator.Tbb.Bb.Handlers.{check_sig_list, tell, threshold, vote}

module _ {S Addr : Type 0} ⦃es : Eq S⦄ ⦃e : Eq Addr⦄ (env : BbEnv S Addr) where
  -- The goroutine behind the timer of 4Δ.
  unfoldable pub ba_start : BbMod S → Outcome S Addr
  unfolding tell
  ba_start s =
      let input = only_value s.blck_set in
      elim (env.sign input) [
        | none ↦ panics
        | some sig ↦
            let m = s.ba_propose_map in
            returns (record s { ba_propose_map = insert input (add sig (sigs_of input m)) m })
              (tell env (record {
                msg_type = msg_forward2;
                content = env.sig_list_codec.encode (record {
                  input = input;
                  sig_list = some sig ∷ [];
                  node_list = pos env.nid ∷ [];
                });
              }))
      ]

  -- The goroutine behind the timer of f + 6.
  unfoldable pub final_commit : BbMod S → BbMod S
  final_commit s = if s.is_commit then s else record s { commit_value = only_value s.ba_blck_set }

  -- Before 5Δ: the signature of the input's proposer is collected; the number that is needed sets
  -- a timer for 6Δ that sends their aggregate.
  unfoldable pub collect : SigListContent S → S → BbMod S → BbMod S
  collect content sig s =
      let input = content.input in
      let sigs = add sig (sigs_of input s.ba_propose_map) in
      let s' = record s { ba_propose_map = insert input sigs s.ba_propose_map } in
      if nat_beq (size sigs) (threshold env)
      then elim (aggregate_signatures env.aggregate sigs.items) [
        | none ↦ s'
        | some agg ↦ record s' {
          timers = s.timers ++ (forwards_at (s.start_time + 6 * env.tick_interval) input agg ∷ []);
        }
      ]
      else s'

  -- From 5Δ on: as in the Dolev-Strong protocol, five rounds later; a nil signature in the list
  -- makes gob panic.
  unfoldable pub relay : (turns : ℕ) (clock : ℕ → ℕ) → SigListContent S → BbMod S → Outcome S Addr
  unfolding tell
  relay turns clock content s =
      let input = content.input in
      let s' = record s { ba_blck_set = add input s.ba_blck_set } in
      let signed = record content {
        sig_list = content.sig_list ++ (env.sign input ∷ []);
        node_list = content.node_list ++ (pos env.nid ∷ []);
      } in
      let k = length content.sig_list + 5 in
      let m : Message = record {
        msg_type = msg_forward2;
        content = env.sig_list_codec.encode signed;
      } in
      if contains input s.ba_blck_set
      then returns s []
      else elim (wait_below turns env.tick_interval s.start_time k clock 0) [
        | none ↦ returns s' []
        | some _ ↦ if no_nil signed.sig_list then returns s' (tell env m) else panics
      ]

  unfoldable pub handle_forward2_msg :
      (now turns : ℕ) (clock : ℕ → ℕ) → Message → BbMod S → Outcome S Addr
  unfolding collect relay
  handle_forward2_msg now turns clock msg s = elim (env.sig_list_codec.decode msg.content) [
    | none ↦ returns s []
    | some content ↦
        if check_sig_list content.sig_list
        then (if ltb now (s.start_time + 5 * env.tick_interval)
            then elim content.sig_list [
              | [] ↦ panics
              | first ∷ _ ↦ elim first [
                | none ↦ panics
                | some sig ↦ returns (collect content sig s) []
              ]
            ]
            else relay turns clock content s)
        else returns s []
  ]

  -- A timer's action; `true` is a call of the handler of MsgConsensusDone.
  unfoldable pub fire : Timer S → BbMod S → Outcome S Addr × Bool
  unfolding ba_start final_commit vote tell
  fire (ba_starts_at due) s = (ba_start s, false)
  fire (final_commit_at due) s = (returns (final_commit s) [], false)
  fire (consensus_done_at due) s = (returns s [], true)
  fire (votes_at due) s = (vote env s, false)
  fire (forwards_at due input agg) s = (
    returns s (
        tell env (record {
          msg_type = msg_forward2;
          content =
              env.sig_list_codec.encode
                (record { input = input; sig_list = some agg ∷ []; node_list = negsuc 0 ∷ [] });
        })),
    false,
  )
