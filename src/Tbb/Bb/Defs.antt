-- ===== src/Tbb/Bb/Defs.antt =====
-- The state of tbb/handler_1deltaBB.go. `S` is bls.Sign: two signatures can be compared, and
-- `aggregate` is bls's Aggregate. `malicious_num` is the whole part of MaliciousRatio * NodeNum.
-- Times are milliseconds; a timer is an entry of a list until the event that fires it.
use blockchain_simulator.Base.{
  ℕ, Bool, true, false, List, [], ◌∷◌, Option, none, some, Bytes, Map, lookup, bytes_eq,
}
use blockchain_simulator.Base.Int.{ℤ}
use blockchain_simulator.Message.{Request, Codec}
use blockchain_simulator.P2p.{Effect}
use blockchain_simulator.Utils.Set.{Set, new_set}

pub record VoteContent (S : Type 0) : Type 0 where
  pub node_id : ℕ
  pub content : Bytes
  pub sig : Option S

pub record QcContent (S : Type 0) : Type 0 where
  pub content : Bytes
  pub sig : Option S

-- `SigListContent` of tbb/handler_tbb.go; the node id -1 marks an aggregate signature.
pub record SigListContent (S : Type 0) : Type 0 where
  pub input : Bytes
  pub sig_list : List (Option S)
  pub node_list : List ℤ

pub data Timer (S : Type 0) : Type 0 where
  ba_starts_at final_commit_at consensus_done_at votes_at : ℕ → Timer S
  forwards_at : ℕ → (input : Bytes) → (agg_sig : S) → Timer S

pub record BbEnv (S Addr : Type 0) : Type 0 where
  pub nid : ℕ
  pub ipaddr : Addr
  pub view : ℕ
  pub node_num : ℕ
  pub malicious_num : ℕ
  pub tick_interval : ℕ
  pub shard_ips : Map ℕ Addr
  pub sign : Bytes → Option S
  pub aggregate : List S → S
  pub time_codec : Codec ℕ
  pub request_codec : Codec (Request S)
  pub vote_codec : Codec (VoteContent S)
  pub qc_codec : Codec (QcContent S)
  pub sig_list_codec : Codec (SigListContent S)

-- `trigger` tells whether the one place of CommitPoint1Trigger is taken.
pub record BbMod (S : Type 0) : Type 0 where
  pub start_time : ℕ
  pub vote_map : Map Bytes (Set S)
  pub qc_map : Map Bytes S
  pub propose_set : Set Bytes
  pub blck_set : Set Bytes
  pub ba_propose_map : Map Bytes (Set S)
  pub ba_blck_set : Set Bytes
  pub trigger : Bool
  pub is_commit : Bool
  pub commit_value : Bytes
  pub timers : List (Timer S)

unfoldable pub new_bb_mod : {S : Type 0} → (now : ℕ) → BbMod S
new_bb_mod now = record {
  start_time = now;
  vote_map = [];
  qc_map = [];
  propose_set = new_set;
  blck_set = new_set;
  ba_propose_map = [];
  ba_blck_set = new_set;
  trigger = false;
  is_commit = false;
  commit_value = [];
  timers = [];
}

-- How a handler ends: it returns; it dereferences a nil signature, or indexes an empty list, and
-- the node stops; or it blocks in a send to a channel that is full.
pub data Outcome (S Addr : Type 0) : Type 0 where
  returns : BbMod S → List (Effect Addr) → Outcome S Addr
  panics : Outcome S Addr
  blocks : BbMod S → Outcome S Addr

module _ {S : Type 0} where
  -- The set of a content in a map of sets, made if it is missing.
  unfoldable pub sigs_of : Bytes → Map Bytes (Set S) → Set S
  sigs_of content m = elim (lookup content m) [ none ↦ new_set | some sigs ↦ sigs ]

  unfoldable pub has_qc : Bytes → BbMod S → Bool
  has_qc content s = elim (lookup content s.qc_map) [ none ↦ false | some _ ↦ true ]

  -- signature.AggregateSignatures over signatures that are there: an error for none at all.
  unfoldable pub aggregate_signatures : (List S → S) → List S → Option S
  aggregate_signatures aggregate [] = none
  aggregate_signatures aggregate (x ∷ xs) = some (aggregate (x ∷ xs))
