-- ===== src/Ds/Defs.antt =====
-- ds/handler_ds.go and ds/handler_ds_m.go. A timer is an entry of a list until the event that fires
-- it; times are milliseconds. `malicious_num` is the whole part of MaliciousRatio * NodeNum.
use blockchain_simulator.Base.{
  ℕ, ◌+◌, ◌*◌, Bool, true, false, List, [], ◌∷◌, ◌++◌, Option, none, some, Bytes, Map, Eq, bytes_eq,
  nat_beq, leb, if◌then◌else◌, length,
}
use blockchain_simulator.Message.{Message, Request, Codec, no_nil, msg_forward, msg_reply_query}
use blockchain_simulator.P2p.{Effect, sends, broadcast}
use blockchain_simulator.Utils.Set.{Set, new_set, add, contains, clear}
use blockchain_simulator.Utils.Shard.{get_neighbours}
use blockchain_simulator.Clock.{wait_below}

-- `SigListContent`: a request with the signatures that it collected and who signed.
pub record SigListContent (S : Type 0) : Type 0 where
  pub req : Request S
  pub sig_list : List (Option S)
  pub node_list : List ℕ

pub data Timer : Type 0 where
  commits_at consensus_done_at : ℕ → Timer

pub record DsEnv (S Addr : Type 0) : Type 0 where
  pub nid : ℕ
  pub ipaddr : Addr
  pub view : ℕ
  pub node_num : ℕ
  pub malicious_num : ℕ
  pub tick_interval : ℕ
  pub shard_ips : Map ℕ Addr
  pub sign : Bytes → Option S
  pub time_codec : Codec ℕ
  pub request_codec : Codec (Request S)
  pub sig_list_codec : Codec (SigListContent S)
  pub addr_codec : Codec Addr
  pub value_codec : Codec Bytes

pub record DsMod : Type 0 where
  pub start_time : ℕ
  pub extr_set : Set Bytes
  pub commit_value : Bytes
  pub timers : List Timer

-- How a handler ends: it returns, or it panics in gob and the process of the node ends, with the
-- state as it was then.
pub data Outcome (Addr : Type 0) : Type 0 where
  returns : DsMod → List (Effect Addr) → Outcome Addr
  panics : DsMod → Outcome Addr

abbrev pub state_after : {Addr : Type 0} → Outcome Addr → DsMod
state_after (returns s sent) = s
state_after (panics s) = s

abbrev pub sent_by : {Addr : Type 0} → Outcome Addr → List (Effect Addr)
sent_by (returns s sent) = sent
sent_by (panics s) = []

-- "0", the value that is committed where no single value was extracted.
abbrev pub zero_value : Bytes
zero_value = b'0' ∷ []

unfoldable pub new_ds_mod : (now : ℕ) → DsMod
new_ds_mod now = record { start_time = now; extr_set = new_set; commit_value = []; timers = [] }

-- The value of a set that has one item, and "0" for any other set.
unfoldable pub only_value : Set Bytes → Bytes
only_value s = elim s.items [
  | [] ↦ zero_value
  | x ∷ rest ↦ elim rest [ [] ↦ x | _ ∷ _ ↦ zero_value ]
]

-- checkSigList is not implemented in the source: it accepts every list.
abbrev pub check_sig_list : {S : Type 0} → List (Option S) → Bool
check_sig_list sigs = true

module _ {S Addr : Type 0} ⦃e : Eq Addr⦄ (env : DsEnv S Addr) where
  -- `now` is the time of the call: the second timer runs from it, the first from the start.
  unfoldable pub handle_init_msg : (now : ℕ) → Message → DsMod → DsMod
  handle_init_msg now msg s = elim (env.time_codec.decode msg.content) [
    | none ↦ s
    | some start ↦
        let commit_timer = commits_at (start + (env.malicious_num + 1) * env.tick_interval) in
        let done_timer = consensus_done_at (now + env.tick_interval * (env.node_num + 7)) in
        let started = record s {
          start_time = start;
          extr_set = clear s.extr_set;
          timers = s.timers ++ (commit_timer ∷ []);
        } in
        if nat_beq env.nid env.view
        then record started { timers = started.timers ++ (done_timer ∷ []) }
        else started
  ]

  -- The goroutine behind the commit timer.
  unfoldable pub commit : DsMod → DsMod
  commit s = record s { commit_value = only_value s.extr_set }

  -- A timer fires, not before its time; `true` is a call of the handler of MsgConsensusDone.
  unfoldable pub fire : (now : ℕ) → Timer → DsMod → DsMod × Bool
  unfolding commit
  fire now (commits_at due) s = if leb due now then (commit s, false) else (s, false)
  fire now (consensus_done_at due) s = (s, leb due now)

  unfoldable pub tell : Message → List (Effect Addr)
  tell m = broadcast env.ipaddr (get_neighbours env.shard_ips env.ipaddr) m

  -- The wait for the round, and what is sent if it ends within the turns given; a nil signature in
  -- the list makes gob panic then.
  unfoldable pub forward_below :
      (turns : ℕ) (clock : ℕ → ℕ) → ℕ → SigListContent S → DsMod → Outcome Addr
  unfolding tell
  forward_below turns clock k content s =
      elim (wait_below turns env.tick_interval s.start_time k clock 0) [
        | none ↦ returns s []
        | some _ ↦
            if no_nil content.sig_list
            then returns s (
                tell
                  (record { msg_type = msg_forward; content = env.sig_list_codec.encode content }))
            else panics s
      ]

  unfoldable pub handle_propose_msg : (turns : ℕ) (clock : ℕ → ℕ) → Message → DsMod → Outcome Addr
  unfolding forward_below
  handle_propose_msg turns clock msg s = elim (env.request_codec.decode msg.content) [
    | none ↦ returns s []
    | some req ↦
        let s' = record s { extr_set = add req.content s.extr_set } in
        if nat_beq env.nid env.view
        then returns s' []
        else forward_below turns clock 1
            (record {
              req = req;
              sig_list = req.sig ∷ env.sign req.content ∷ [];
              node_list = env.view ∷ env.nid ∷ [];
            })
            s'
  ]

  -- A signature list of the wrong length is only logged.
  unfoldable pub handle_forward_msg : (turns : ℕ) (clock : ℕ → ℕ) → Message → DsMod → Outcome Addr
  unfolding forward_below
  handle_forward_msg turns clock msg s = elim (env.sig_list_codec.decode msg.content) [
    | none ↦ returns s []
    | some content ↦
        let value = content.req.content in
        let s' = record s { extr_set = add value s.extr_set } in
        let signed = record content {
          sig_list = content.sig_list ++ (env.sign value ∷ []);
          node_list = content.node_list ++ (env.nid ∷ []);
        } in
        if contains value s.extr_set
        then returns s []
        else if check_sig_list content.sig_list
        then forward_below turns clock (length content.sig_list) signed s'
        else returns s []
  ]

  unfoldable pub handle_query_msg : Message → DsMod → List (Effect Addr)
  handle_query_msg msg s = elim (env.addr_codec.decode msg.content) [
    | none ↦ []
    | some ip ↦
        sends ip
          (record { msg_type = msg_reply_query; content = env.value_codec.encode s.commit_value })
        ∷ []
  ]
