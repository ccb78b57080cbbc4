-- ===== src/Tbb/Defs.antt =====
-- tbb/handler_tbb.go and tbb/handler_tbb_m.go. localSetA is the set of 1Δ-BB* and localSetC the set
-- of Dolev-Strong, shared by pointer and cleared in place: here they are read in the parts.
-- `resilient_num` is the whole part of ResilientRatio * NodeNum. Times are milliseconds; a goroutine
-- that waits is an entry of `waiting` until it runs.
use blockchain_simulator.Base.{
  ℕ, ◌+◌, ◌*◌, Bool, true, false, not, ◌&&◌, List, [], ◌∷◌, ◌++◌, Option, none, some, Bytes, Map,
  Eq, ◌==◌, bytes_eq, nat_beq, nat_eq, if◌then◌else◌, set,
}
use blockchain_simulator.Message.{
  Message, Codec, msg_reply_query, msg_init, msg_propose, msg_forward, msg_forward1, msg_forward2,
  msg_vote, msg_qc, msg_query,
}
use blockchain_simulator.P2p.{Effect, sends}
use blockchain_simulator.Utils.Set.{Set}
use blockchain_simulator.Ds.Defs.{
  DsEnv, DsMod, new_ds_mod, handle_init_msg as ds_init, handle_propose_msg as ds_propose,
  handle_forward_msg as ds_forward, returns as ds_returns, panics as ds_panics,
}
use blockchain_simulator.Tbb.Bb.Defs.{BbEnv, BbMod, new_bb_mod, Outcome, returns, panics, blocks}
use blockchain_simulator.Tbb.Bb.Bads.{handle_forward2_msg as bb_forward2}
use blockchain_simulator.Tbb.Bb.Handlers.{
  handle_init_msg as bb_init, handle_propose_msg as bb_propose, handle_forward1_msg as bb_forward1,
  handle_vote_msg as bb_vote, handle_qc_msg as bb_qc,
}

pub record ReplyValue (S : Type 0) : Type 0 where
  pub value : Bytes
  pub qc_map : Map Bytes S

pub record TbbEnv (S Addr : Type 0) : Type 0 where
  pub ds_env : DsEnv S Addr
  pub bb_env : BbEnv S Addr
  pub is_malicious : Bool
  pub resilient_num : ℕ
  pub reply_codec : Codec (ReplyValue S)

-- The goroutines that handleInitMsg starts; all but the first of the commit points have a time.
pub data Waiting : Type 0 where
  reference_point1_at reference_point2_at commit_point2_at commit_point3_at : ℕ → Waiting
  commit_point1_waits : Waiting

pub record TbbMod (S : Type 0) : Type 0 where
  pub start_time : ℕ
  pub ds_mod : DsMod
  pub dbb_mod : BbMod S
  pub local_set_d : List Bytes
  pub reference_value1 : Bytes
  pub reference_value2 : Bytes
  pub is_commit : Bool
  pub waiting : List Waiting

unfoldable pub new_tbb_mod : {S : Type 0} → (now : ℕ) → TbbMod S
unfolding new_ds_mod new_bb_mod
new_tbb_mod now = record {
  start_time = now;
  ds_mod = new_ds_mod now;
  dbb_mod = new_bb_mod now;
  local_set_d = [] ∷ [] ∷ [] ∷ [];
  reference_value1 = [];
  reference_value2 = [];
  is_commit = false;
  waiting = [];
}

-- How a handler ends, as for 1Δ-BB*; what it sent before the node stops.
pub data Result (S Addr : Type 0) : Type 0 where
  ends : TbbMod S → List (Effect Addr) → Result S Addr
  stops : List (Effect Addr) → Result S Addr
  stuck : TbbMod S → Result S Addr

-- The first of the values of set D that is not empty, and the empty one if there is none.
unfoldable pub first_value : List Bytes → Bytes
first_value [] = []
first_value (x ∷ xs) = if x == [] then first_value xs else x

module _ {S Addr : Type 0} ⦃es : Eq S⦄ ⦃e : Eq Addr⦄ (env : TbbEnv S Addr) where
  unfoldable pub in_dbb : TbbMod S → Outcome S Addr → Result S Addr
  in_dbb s (returns bb sent) = ends (record s { dbb_mod = bb }) sent
  in_dbb s panics = stops []
  in_dbb s (blocks bb) = stuck (record s { dbb_mod = bb })

  unfoldable pub handle_init_msg : (now : ℕ) → Message → TbbMod S → TbbMod S
  handle_init_msg now msg s = elim (env.bb_env.time_codec.decode msg.content) [
    | none ↦ s
    | some start ↦
        let tick = env.bb_env.tick_interval in
        let node_num = env.bb_env.node_num in
        record {
          start_time = start;
          ds_mod = ds_init env.ds_env now msg s.ds_mod;
          dbb_mod = bb_init env.bb_env now msg s.dbb_mod;
          local_set_d = [] ∷ [] ∷ [] ∷ [];
          reference_value1 = [];
          reference_value2 = [];
          is_commit = false;
          waiting =
              s.waiting
              ++ (reference_point1_at (start + env.resilient_num * tick)
                  ∷ reference_point2_at (start + node_num * tick)
                  ∷ commit_point1_waits
                  ∷ commit_point2_at (start + (env.resilient_num + 5) * tick)
                  ∷ commit_point3_at (start + (node_num + 5) * tick)
                  ∷ []);
        }
  ]

  -- 1Δ-BB* handles the proposal first, then Dolev-Strong.
  unfoldable pub handle_propose_msg :
      (now turns : ℕ) (clock : ℕ → ℕ) → Message → TbbMod S → Result S Addr
  handle_propose_msg now turns clock msg s =
      let b = bb_propose env.bb_env now msg s.dbb_mod in
      let d = ds_propose env.ds_env turns clock msg s.ds_mod in
      elim d [
        | ds_returns t told ↦ ends (record s { dbb_mod = b.0; ds_mod = t }) (b.1 ++ told)
        | ds_panics t ↦ stops b.1
      ]

  unfoldable pub handle_forward_msg :
      (turns : ℕ) (clock : ℕ → ℕ) → Message → TbbMod S → Result S Addr
  handle_forward_msg turns clock msg s = elim (ds_forward env.ds_env turns clock msg s.ds_mod) [
    | ds_returns t told ↦ ends (record s { ds_mod = t }) told
    | ds_panics t ↦ stops []
  ]

  unfoldable pub handle_query_msg : Message → TbbMod S → List (Effect Addr)
  handle_query_msg msg s = elim (env.ds_env.addr_codec.decode msg.content) [
    | none ↦ []
    | some ip ↦
        sends ip (record {
          msg_type = msg_reply_query;
          content =
              env.reply_codec.encode
                (record { value = first_value s.local_set_d; qc_map = s.dbb_mod.qc_map });
        })
        ∷ []
  ]

  -- The handler of a message's type at an honest node; no other type is registered here.
  unfoldable pub handle : (now turns : ℕ) (clock : ℕ → ℕ) → Message → TbbMod S → Result S Addr
  unfolding in_dbb handle_init_msg handle_propose_msg handle_forward_msg handle_query_msg
  handle now turns clock msg s = elim msg.msg_type [
    | msg_init ↦ ends (handle_init_msg now msg s) []
    | msg_propose ↦ handle_propose_msg now turns clock msg s
    | msg_forward ↦ handle_forward_msg turns clock msg s
    | msg_forward1 ↦ ends (record s { dbb_mod = bb_forward1 env.bb_env msg s.dbb_mod }) []
    | msg_forward2 ↦ in_dbb s (bb_forward2 env.bb_env now turns clock msg s.dbb_mod)
    | msg_vote ↦ in_dbb s (bb_vote env.bb_env now msg s.dbb_mod)
    | msg_qc ↦ ends (record s { dbb_mod = bb_qc env.bb_env msg s.dbb_mod }) []
    | msg_query ↦ ends s (handle_query_msg msg s)
    | _ ↦ ends s []
  ]

  -- RegisterHandlers: a malicious node other than the view node does nothing on a message.
  unfoldable pub registered : (now turns : ℕ) (clock : ℕ → ℕ) → Message → TbbMod S → Result S Addr
  unfolding handle
  registered now turns clock msg s =
      if env.is_malicious && not (nat_beq env.bb_env.nid env.bb_env.view)
      then ends s []
      else handle now turns clock msg s

-- The value of set C at a reference point, if it is the only one and the committed one.
unfoldable pub reference : DsMod → Option Bytes
reference d = elim d.extr_set.items [
  | [] ↦ none
  | x ∷ rest ↦ elim rest [ [] ↦ if d.commit_value == x then some x else none | _ ∷ _ ↦ none ]
]

-- The value of set A at a commit point, or else the reference value.
unfoldable pub point_value : Set Bytes → Bytes → Option Bytes
point_value a ref = elim a.items [
  | [] ↦ if ref == [] then none else some ref
  | x ∷ rest ↦ elim rest [ [] ↦ some x | _ ∷ _ ↦ if ref == [] then none else some ref ]
]

module _ {S : Type 0} where
  unfoldable pub reference_point1 : TbbMod S → TbbMod S
  reference_point1 s = elim (reference s.ds_mod) [
    | none ↦ s
    | some x ↦ record s { reference_value1 = x }
  ]

  unfoldable pub reference_point2 : TbbMod S → TbbMod S
  reference_point2 s = elim (reference s.ds_mod) [
    | none ↦ s
    | some x ↦ record s { reference_value2 = x }
  ]

  -- The goroutine goes on when the trigger was sent, and takes it from the channel.
  unfoldable pub commit_point1 : TbbMod S → Option (TbbMod S)
  commit_point1 s =
      let value = s.dbb_mod.commit_value in
      if s.dbb_mod.trigger
      then some (record s {
        local_set_d = set s.local_set_d 0 value;
        is_commit = true;
        dbb_mod = record s.dbb_mod { trigger = false };
      })
      else none

  unfoldable pub commit_point2 : TbbMod S → TbbMod S
  commit_point2 s =
      if s.is_commit then s else elim (point_value s.dbb_mod.blck_set s.reference_value1) [
        | none ↦ s
        | some x ↦ record s { local_set_d = set s.local_set_d 1 x }
      ]

  unfoldable pub commit_point3 : TbbMod S → TbbMod S
  commit_point3 s = elim (point_value s.dbb_mod.blck_set s.reference_value2) [
    | none ↦ s
    | some x ↦ record s { local_set_d = set s.local_set_d 2 x }
  ]
