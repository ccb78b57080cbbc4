-- ===== src/Pbft/Defs.antt =====
-- pbft/structs.go and the types and constructor of pbft/handler_pbft.go.
use blockchain_simulator.Base.{
  ℕ, ◌+◌, ◌-◌, ◌/◌, Bool, true, false, List, [], Option, none, some, Bytes, Map, lookup, insert,
  bytes_eq,
}
use blockchain_simulator.Message.{Request, Codec}
use blockchain_simulator.P2p.{Effect}
use blockchain_simulator.Utils.Queue.{Queue, new_queue}

pub record PbftMessage (S : Type 0) : Type 0 where
  pub request : Request S
  pub round : ℕ

pub record RequestInfo (S : Type 0) : Type 0 where
  pub req : Request S
  pub cnt_prepare_confirm : ℕ
  pub cnt_commit_confirm : ℕ
  pub is_commit_broadcast : Bool
  pub is_reply : Bool

unfoldable pub new_request_info : {S : Type 0} → Request S → RequestInfo S
new_request_info req = record {
  req = req;
  cnt_prepare_confirm = 0;
  cnt_commit_confirm = 0;
  is_commit_broadcast = false;
  is_reply = false;
}

-- The interface of pbft/addon_interface.go over the state `X` of an addon. `none` is a call that
-- waits: the addon's condition is not met yet.
pub record PbftAddon (S Addr X : Type 0) : Type 0 where
  pub handle_propose_addon : X → Request S → X × Bool
  pub handle_pre_prepare_addon : X → Request S → X × Bool
  pub handle_prepare_addon : X → Request S → Option (X × Bool)
  pub handle_commit_addon : X → Request S → ℕ → Option (X × Bool × List (Effect Addr))

-- What does not change while a node runs: its attributes, the addresses of the shards, the
-- decoders of what it receives, and its addon.
pub record PbftEnv (S Addr X : Type 0) : Type 0 where
  pub nid : ℕ
  pub ipaddr : Addr
  pub view : ℕ
  pub malicious_num : ℕ
  pub ip_map : Map ℕ (Map ℕ Addr)
  pub request_codec : Codec (Request S)
  pub pbft_codec : Codec (PbftMessage S)
  pub addon : PbftAddon S Addr X

-- Where Run stands on the view node: it polls the request queue, it has told the shard of a
-- request, or it is blocked in its select on `consensusDone`.
pub data RunPc : Type 0 where
  polling told blocked : RunPc

-- The fields of PbftCosensusMod that change, and where Run stands.
pub record PbftMod (S X : Type 0) : Type 0 where
  pub request_queue : Queue (Request S)
  pub request_pool : Map Bytes (RequestInfo S)
  pub run_pc : RunPc
  pub current_round : ℕ
  pub addon_state : X

-- `pbftMod.malicious_num = (pbftMod.pbft_num - 1) / 3`
abbrev pub max_malicious : ℕ → ℕ
max_malicious pbft_num = (pbft_num - 1) / 3

unfoldable pub new_pbft_mod : {S X : Type 0} → X → PbftMod S X
new_pbft_mod x = record {
  request_queue = new_queue;
  request_pool = [];
  run_pc = polling;
  current_round = 0;
  addon_state = x;
}

module _ {S X : Type 0} where
  abbrev pub get_current_round : PbftMod S X → ℕ
  get_current_round s = s.current_round

  unfoldable pub inc_current_round : PbftMod S X → PbftMod S X
  inc_current_round s = record s { current_round = s.current_round + 1 }

  -- A send on `consensusDone` with a default case: the channel has no buffer, so the send wakes
  -- Run if Run is blocked on it, and is dropped if not.
  unfoldable pub signal_done : PbftMod S X → PbftMod S X
  signal_done s = record s {
    run_pc = elim s.run_pc [ polling ↦ polling | told ↦ told | blocked ↦ polling ];
  }

  unfoldable pub is_commit_broadcasted : Bytes → PbftMod S X → Bool
  is_commit_broadcasted d s = elim (lookup d s.request_pool) [
    | none ↦ false
    | some info ↦ info.is_commit_broadcast
  ]

  unfoldable pub set_commit_broadcasted : Bytes → PbftMod S X → PbftMod S X × Bool
  set_commit_broadcasted d s = elim (lookup d s.request_pool) [
    | none ↦ (s, false)
    | some info ↦ (
      record s {
        request_pool = insert d (record info { is_commit_broadcast = true }) s.request_pool;
      },
      true,
    )
  ]

  unfoldable pub is_reply_sent : Bytes → PbftMod S X → Bool
  is_reply_sent d s = elim (lookup d s.request_pool) [ none ↦ false | some info ↦ info.is_reply ]

  unfoldable pub set_reply_sent : Bytes → PbftMod S X → PbftMod S X × Bool
  set_reply_sent d s = elim (lookup d s.request_pool) [
    | none ↦ (s, false)
    | some info ↦ (
      record s { request_pool = insert d (record info { is_reply = true }) s.request_pool },
      true,
    )
  ]
