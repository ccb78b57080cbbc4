-- ===== src/Pbft/Handlers.antt =====
-- The handlers of pbft/handler_pbft.go. A handler is cut where another goroutine can come between:
-- at each lock that it takes and at each wait of its addon. The parts of a handler stand in the
-- order in which it runs them; a handler that is not interrupted is their composition.
use blockchain_simulator.Base.{
  ℕ, Bytes, ◌+◌, ◌-◌, ◌*◌, Bool, ◌&&◌, not, List, [], Option, none, some, Map, lookup, insert, Eq,
  bytes_eq, nat_eq, ltb, leb, nat_beq, if◌then◌else◌,
}
use blockchain_simulator.Message.{
  Message, MessageType, Request, msg_pre_prepare, msg_prepare, msg_commit,
}
use blockchain_simulator.P2p.{Effect, broadcast}
use blockchain_simulator.Utils.Queue
use blockchain_simulator.Utils.Queue.{Queue, enqueue, dequeue}
use blockchain_simulator.Utils.Shard.{get_neighbours}
use blockchain_simulator.Pbft.Defs.{
  PbftMessage, RequestInfo, new_request_info, PbftEnv, PbftMod, inc_current_round, signal_done,
  polling, told, blocked, is_commit_broadcasted, set_commit_broadcasted, is_reply_sent,
  set_reply_sent,
}

-- How a handler ends: it returns, with what it sent; it returns after its addon has committed the
-- request; or it waits in its addon, and `rest` is the message that it goes on with.
pub data Outcome (S Addr X : Type 0) : Type 0 where
  returns : PbftMod S X → List (Effect Addr) → Outcome S Addr X
  commits : PbftMod S X → List (Effect Addr) → Bytes → Outcome S Addr X
  waits : PbftMod S X → (rest : PbftMessage S) → Outcome S Addr X

module _ {S X : Type 0} where
  -- The entry of a request, made if it is not there.
  unfoldable pub info_of : Request S → PbftMod S X → RequestInfo S
  info_of req s = elim (lookup req.digest s.request_pool) [
    | none ↦ new_request_info req
    | some info ↦ info
  ]

  -- Under the pool's lock: the entry is made if it is missing, counted up and read.
  unfoldable pub tally_prepare : Request S → PbftMod S X → PbftMod S X × ℕ
  tally_prepare req s =
      let info = info_of req s in
      let n = info.cnt_prepare_confirm + 1 in
      (
        record s {
          request_pool = insert req.digest (record info { cnt_prepare_confirm = n }) s.request_pool;
        },
        n,
      )

  unfoldable pub tally_commit : Request S → PbftMod S X → PbftMod S X × ℕ
  tally_commit req s =
      let info = info_of req s in
      let n = info.cnt_commit_confirm + 1 in
      (
        record s {
          request_pool = insert req.digest (record info { cnt_commit_confirm = n }) s.request_pool;
        },
        n,
      )

  -- After that Run blocks on `consensusDone`.
  unfoldable pub run_block : PbftMod S X → PbftMod S X
  run_block s = record s {
    run_pc = elim s.run_pc [ polling ↦ polling | told ↦ blocked | blocked ↦ blocked ];
  }

module _ {S Addr X : Type 0} ⦃e : Eq Addr⦄ (env : PbftEnv S Addr X) where
  -- A missing shard has no addresses.
  unfoldable pub shard_ips : ℕ → Map ℕ Addr
  shard_ips sid = elim (lookup sid env.ip_map) [ none ↦ [] | some ips ↦ ips ]

  -- A PBFT message to every other node of the request's shard.
  unfoldable pub tell_shard : MessageType → PbftMessage S → List (Effect Addr)
  unfolding shard_ips
  tell_shard t m =
      broadcast env.ipaddr (get_neighbours (shard_ips m.request.shard_id) env.ipaddr)
        (record { msg_type = t; content = env.pbft_codec.encode m })

  unfoldable pub handle_propose : Message → PbftMod S X → PbftMod S X
  handle_propose msg s = elim (env.request_codec.decode msg.content) [
    | none ↦ s
    | some req ↦
        let (x, flag) = env.addon.handle_propose_addon s.addon_state req in
        let pooled = record s {
          request_pool = insert req.digest (new_request_info req) s.request_pool;
          addon_state = x;
        } in
        if flag then record pooled { request_queue = enqueue req s.request_queue } else pooled
  ]

  unfoldable pub pre_prepare_request :
      PbftMessage S → PbftMod S X → PbftMod S X × List (Effect Addr)
  unfolding info_of tell_shard
  pre_prepare_request m s =
      let req = m.request in
      let pool = insert req.digest (info_of req s) s.request_pool in
      let (x, flag) = env.addon.handle_pre_prepare_addon s.addon_state req in
      (
        record s { request_pool = pool; addon_state = x },
        if flag then tell_shard msg_prepare m else [],
      )

  unfoldable pub handle_pre_prepare : Message → PbftMod S X → PbftMod S X × List (Effect Addr)
  unfolding pre_prepare_request
  handle_pre_prepare msg s = elim (env.pbft_codec.decode msg.content) [
    | none ↦ (s, [])
    | some m ↦ if ltb m.round s.current_round then (s, []) else pre_prepare_request m s
  ]

  -- On the view node 2f; on another node one less, stopping at 0 where the source has -1: no
  -- count is below either.
  unfoldable pub need_cnt : ℕ
  need_cnt = if nat_beq env.nid env.view then 2 * env.malicious_num else 2 * env.malicious_num - 1

  -- With `cnt` prepares counted: the commit message, if they are enough.
  unfoldable pub prepare_quorum : PbftMessage S → ℕ → PbftMod S X → PbftMod S X × List (Effect Addr)
  unfolding need_cnt tell_shard
  prepare_quorum m cnt s =
      if leb need_cnt cnt
      then (let (s', found) = set_commit_broadcasted m.request.digest s in
          (s', if found then tell_shard msg_commit m else []))
      else (s, [])

  -- After the addon: nothing more if the commit message is out.
  unfoldable pub prepare_counted : PbftMessage S → PbftMod S X → PbftMod S X × List (Effect Addr)
  unfolding tally_prepare prepare_quorum
  prepare_counted m s =
      let (s', cnt) = tally_prepare m.request s in
      let sent = prepare_quorum m cnt s' in
      if is_commit_broadcasted m.request.digest s then (s, []) else sent

  -- The addon's answer is not used.
  unfoldable pub prepare_addon : PbftMessage S → PbftMod S X → Outcome S Addr X
  unfolding prepare_counted
  prepare_addon m s = elim (env.addon.handle_prepare_addon s.addon_state m.request) [
    | none ↦ waits s m
    | some (x, _) ↦
        let (s', sent) = prepare_counted m (record s { addon_state = x }) in returns s' sent
  ]

  unfoldable pub handle_prepare : Message → PbftMod S X → Outcome S Addr X
  unfolding prepare_addon
  handle_prepare msg s = elim (env.pbft_codec.decode msg.content) [
    | none ↦ returns s []
    | some m ↦ if ltb m.round s.current_round then returns s [] else prepare_addon m s
  ]

  -- The view node goes to the next round and signals Run.
  unfoldable pub finish_round : PbftMod S X → PbftMod S X
  finish_round s = if nat_beq env.nid env.view then signal_done (inc_current_round s) else s

  -- The addon commits; its answer is not used.
  unfoldable pub commit_addon : PbftMessage S → PbftMod S X → Outcome S Addr X
  unfolding finish_round
  commit_addon m s =
      elim (env.addon.handle_commit_addon s.addon_state m.request (Queue.size s.request_queue)) [
        | none ↦ waits s m
        | some (x, _, sent) ↦
            commits (finish_round (record s { addon_state = x })) sent m.request.digest
      ]

  -- With `cnt` commits counted, and `replied` read before they were.
  unfoldable pub commit_quorum : PbftMessage S → Bool → ℕ → PbftMod S X → Outcome S Addr X
  unfolding commit_addon
  commit_quorum m replied cnt s =
      if leb (2 * env.malicious_num) cnt && not replied
      then commit_addon m (set_reply_sent m.request.digest s).0
      else returns s []

  unfoldable pub commit_counted : PbftMessage S → PbftMod S X → Outcome S Addr X
  unfolding tally_commit commit_quorum
  commit_counted m s =
      let (s', cnt) = tally_commit m.request s in
      commit_quorum m (is_reply_sent m.request.digest s) cnt s'

  unfoldable pub handle_commit : Message → PbftMod S X → Outcome S Addr X
  unfolding commit_counted
  handle_commit msg s = elim (env.pbft_codec.decode msg.content) [
    | none ↦ returns s []
    | some m ↦ if ltb m.round s.current_round then returns s [] else commit_counted m s
  ]

  -- One turn of Run's loop on the view node: the next request is told to the shard, and the node
  -- itself handles the same message in a goroutine. `none`: Run is elsewhere, or the queue is
  -- empty and Run sleeps.
  unfoldable pub run_turn : PbftMod S X → Option (PbftMod S X × Message × List (Effect Addr))
  unfolding tell_shard
  run_turn s = elim s.run_pc [
    | polling ↦ elim (dequeue s.request_queue) [
      | none ↦ none
      | some (req, q) ↦
          let m : PbftMessage S = record { request = req; round = s.current_round } in
          some (
            record s { request_queue = q; run_pc = told },
            record { msg_type = msg_pre_prepare; content = env.pbft_codec.encode m },
            tell_shard msg_pre_prepare m,
          )
    ]
    | told ↦ none
    | blocked ↦ none
  ]
