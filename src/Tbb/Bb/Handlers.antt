-- ===== src/Tbb/Bb/Handlers.antt =====
-- The proposals and votes of tbb/handler_1deltaBB.go. checkSig and checkSigList are not
-- implemented in the source: they accept everything.
use blockchain_simulator.Base.{
  ℕ, ◌+◌, ◌*◌, ◌-◌, Bool, true, false, ◌&&◌, List, [], ◌∷◌, ◌++◌, Option, none, some, Bytes, insert,
  Eq, bytes_eq, nat_beq, ltb, if◌then◌else◌,
}
use blockchain_simulator.Message.{Message, msg_vote, msg_qc, msg_forward1}
use blockchain_simulator.P2p.{Effect, broadcast}
use blockchain_simulator.Utils.Set.{add, contains, clear, size}
use blockchain_simulator.Utils.Shard.{get_neighbours}
use blockchain_simulator.Tbb.Bb.Defs.{
  ba_starts_at, final_commit_at, consensus_done_at, votes_at, BbEnv, BbMod, Outcome, returns,
  panics, blocks, sigs_of, has_qc, aggregate_signatures,
}

abbrev pub check_sig : {S : Type 0} → Option S → Bool
check_sig sig = true

abbrev pub check_sig_list : {S : Type 0} → List (Option S) → Bool
check_sig_list sigs = true

module _ {S Addr : Type 0} ⦃es : Eq S⦄ ⦃e : Eq Addr⦄ (env : BbEnv S Addr) where
  unfoldable pub tell : Message → List (Effect Addr)
  tell m = broadcast env.ipaddr (get_neighbours env.shard_ips env.ipaddr) m

  -- The number of votes, the node's own among them, that makes a certificate.
  abbrev pub threshold : ℕ
  threshold = env.node_num - env.malicious_num

  unfoldable pub handle_init_msg : (now : ℕ) → Message → BbMod S → BbMod S
  handle_init_msg now msg s = elim (env.time_codec.decode msg.content) [
    | none ↦ s
    | some start ↦
        let ba_start = ba_starts_at (start + 4 * env.tick_interval) in
        let final = final_commit_at (start + (env.malicious_num + 6) * env.tick_interval) in
        let done = consensus_done_at (now + env.tick_interval * (env.node_num + 7)) in
        record {
          start_time = start;
          vote_map = [];
          qc_map = [];
          propose_set = clear s.propose_set;
          blck_set = clear s.blck_set;
          ba_propose_map = [];
          ba_blck_set = clear s.ba_blck_set;
          trigger = false;
          is_commit = false;
          commit_value = [];
          timers =
              s.timers ++ (ba_start ∷ final ∷ (if nat_beq env.nid env.view then done ∷ [] else []));
        }
  ]

  unfoldable pub handle_propose_msg : (now : ℕ) → Message → BbMod S → BbMod S × List (Effect Addr)
  unfolding tell
  handle_propose_msg now msg s = elim (env.request_codec.decode msg.content) [
    | none ↦ (s, [])
    | some req ↦
        let s' = record s {
          propose_set = add req.content s.propose_set;
          timers = s.timers ++ (votes_at (now + env.tick_interval) ∷ []);
        } in
        let m : Message = record {
          msg_type = msg_forward1;
          content = env.request_codec.encode req;
        } in
        if check_sig req.sig then (s', if nat_beq env.nid env.view then [] else tell m) else (s, [])
  ]

  -- The node's own vote for a content: the set of votes grows, and no certificate is looked for.
  unfoldable pub own_vote : Bytes → BbMod S → Outcome S Addr
  unfolding tell
  own_vote content s = elim (env.sign content) [
    | none ↦ panics
    | some sig ↦
        let votes = add sig (sigs_of content s.vote_map) in
        returns (record s { vote_map = insert content votes s.vote_map })
          (tell (record {
            msg_type = msg_vote;
            content =
                env.vote_codec.encode
                  (record { node_id = env.nid; content = content; sig = some sig });
          }))
  ]

  -- The goroutine behind the vote timer: a vote if one value alone was proposed.
  unfoldable pub vote : BbMod S → Outcome S Addr
  unfolding own_vote
  vote s = elim s.propose_set.items [
    | [] ↦ returns s []
    | x ∷ rest ↦ elim rest [ [] ↦ own_vote x s | _ ∷ _ ↦ returns s [] ]
  ]

  unfoldable pub handle_forward1_msg : Message → BbMod S → BbMod S
  handle_forward1_msg msg s = elim (env.request_codec.decode msg.content) [
    | none ↦ s
    | some req ↦
        if check_sig req.sig
        then (if contains req.content s.propose_set
            then s
            else record s { propose_set = add req.content s.propose_set })
        else s
  ]

  -- A certificate: it is noted, and if it is the only one and 3Δ are not over the value is
  -- committed, the trigger is sent and the certificate is told to the others.
  unfoldable pub make_qc : (now : ℕ) → Bytes → S → BbMod S → Outcome S Addr
  unfolding tell
  make_qc now content agg s =
      let noted = record s {
        qc_map = insert content agg s.qc_map;
        blck_set = add content s.blck_set;
      } in
      let committed = record noted { commit_value = content; is_commit = true } in
      let qc : Message = record {
        msg_type = msg_qc;
        content = env.qc_codec.encode (record { content = content; sig = some agg });
      } in
      if nat_beq (size noted.blck_set) 1 && ltb now (s.start_time + 3 * env.tick_interval)
      then (if s.trigger
          then blocks committed
          else returns (record committed { trigger = true }) (tell qc))
      else returns noted []

  -- A vote is counted; the certificate is made when the count equals the threshold.
  unfoldable pub count_vote : (now : ℕ) → Bytes → S → BbMod S → Outcome S Addr
  unfolding make_qc
  count_vote now content sig s =
      let votes = add sig (sigs_of content s.vote_map) in
      let s' = record s { vote_map = insert content votes s.vote_map } in
      if nat_beq (size votes) threshold
      then (if has_qc content s
          then returns s' []
          else elim (aggregate_signatures env.aggregate votes.items) [
            | none ↦ returns s' []
            | some agg ↦ make_qc now content agg s'
          ])
      else returns s' []

  unfoldable pub handle_vote_msg : (now : ℕ) → Message → BbMod S → Outcome S Addr
  unfolding count_vote
  handle_vote_msg now msg s = elim (env.vote_codec.decode msg.content) [
    | none ↦ returns s []
    | some v ↦
        if check_sig v.sig
        then elim v.sig [ none ↦ panics | some sig ↦ count_vote now v.content sig s ]
        else returns s []
  ]

  -- The detection of a dishonest majority is not implemented in the source.
  unfoldable pub handle_qc_msg : Message → BbMod S → BbMod S
  handle_qc_msg msg s = s
