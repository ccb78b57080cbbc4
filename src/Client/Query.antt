-- ===== src/Client/Query.antt =====
-- query.go and query_tbb.go of node/runningMod/clientMod. Times are nanoseconds from a fixed
-- instant; a timer is a goroutine that waits for a time and then half a tick and sends a query, and
-- is kept as the time it waits for.
use blockchain_simulator.Base.{
  Bool, true, false, ℕ, ◌+◌, ◌*◌, ◌/◌, List, [], ◌∷◌, ◌++◌, Option, none, some, Bytes, leb, length,
  if◌then◌else◌,
}
use blockchain_simulator.Base.Int.{ℤ, pos, ◌+ℤ◌, ◌-ℤ◌, ltb_ℤ, mul_ℕ}
use blockchain_simulator.Message.{Codec, msg_query}
use blockchain_simulator.P2p.{Effect, sends}

-- What a reply carries: the value and how many certificates come with it.
pub record ReplyValue (Sig : Type 0) : Type 0 where
  pub value : Bytes
  pub qc_map : List (Bytes × Sig)

-- `resilient` is `int(float64(config.NodeNum)*config.ResilientRatio)` and `malicious_nodes`
-- `int64(config.MaliciousRatio*float64(config.NodeNum))`; ticks are milliseconds.
pub record QueryEnv (Sig Addr : Type 0) : Type 0 where
  pub ipaddr : Addr
  pub view_addr : Addr
  pub node_num : ℕ
  pub resilient : ℕ
  pub malicious_nodes : ℕ
  pub tick_interval : ℕ
  pub time_codec : Codec ℤ
  pub addr_codec : Codec Addr
  pub reply_codec : Codec (ReplyValue Sig)

pub record QueryMod : Type 0 where
  pub start_time : ℤ
  pub latencys : List ℤ
  pub timers : List ℤ

unfoldable pub new_query_mod : (now : ℤ) → QueryMod
new_query_mod now = record { start_time = now; latencys = []; timers = [] }

module _ {Sig Addr : Type 0} (env : QueryEnv Sig Addr) where
  -- `k` ticks in nanoseconds.
  abbrev pub ticks : ℤ → ℤ
  ticks k = mul_ℕ k (env.tick_interval * 1000000)

  abbrev pub t1 : ℤ
  t1 = pos env.resilient -ℤ pos 1

  abbrev pub t2 : ℤ
  t2 = pos env.node_num -ℤ pos 1

  abbrev pub point1_end : ℤ
  point1_end = ticks (t1 +ℤ pos 6)

  abbrev pub point2_end : ℤ
  point2_end = ticks (t2 +ℤ pos 6)

  unfoldable pub query_tbb_init : (content : Bytes) → QueryMod → QueryMod
  query_tbb_init content q = elim (env.time_codec.decode content) [
    | none ↦ q
    | some start ↦ record q {
      start_time = start;
      timers = (start +ℤ ticks (pos 3)) ∷ (start +ℤ point2_end) ∷ q.timers;
    }
  ]

  -- What a value, empty for none, does at the points 1 and 2, and what the latencies do at 3.
  unfoldable pub at_point1 : (since : ℤ) (value : Bytes) → QueryMod → QueryMod
  at_point1 since [] q = record q { timers = (q.start_time +ℤ point1_end) ∷ q.timers }
  at_point1 since (_ ∷ _) q = record q { latencys = q.latencys ++ (since ∷ []) }

  unfoldable pub at_point2 : (since : ℤ) (value : Bytes) → QueryMod → QueryMod
  at_point2 since [] q = q
  at_point2 since (_ ∷ _) q = record q { latencys = q.latencys ++ (since ∷ []) }

  unfoldable pub at_point3 : (since : ℤ) (latencys : List ℤ) → QueryMod → QueryMod
  at_point3 since [] q = record q { latencys = since ∷ [] }
  at_point3 since (_ ∷ _) q = q

  -- The answer by whether the time since the start is before the ends of the points 1 and 2.
  unfoldable pub reply_in : (first second : Bool) (since : ℤ) → ReplyValue Sig → QueryMod → QueryMod
  reply_in true second since r q = if leb (length r.qc_map) 1 then at_point1 since r.value q else q
  reply_in false true since r q = at_point2 since r.value q
  reply_in false false since r q = at_point3 since q.latencys q

  unfoldable pub reply_at : (since : ℤ) → ReplyValue Sig → QueryMod → QueryMod
  reply_at since r q = reply_in (ltb_ℤ since point1_end) (ltb_ℤ since point2_end) since r q

  unfoldable pub query_tbb_reply : (now : ℤ) (content : Bytes) → QueryMod → QueryMod
  query_tbb_reply now content q = elim (env.reply_codec.decode content) [
    | none ↦ q
    | some r ↦ reply_at (now -ℤ q.start_time) r q
  ]

  -- When the query of a timer leaves, for a timer that is made at `now`.
  unfoldable pub query_leaves : (now deadline : ℤ) → ℤ
  query_leaves now deadline =
      (if ltb_ℤ now deadline then deadline else now) +ℤ pos (env.tick_interval / 2 * 1000000)

  abbrev pub send_query : List (Effect Addr)
  send_query =
      sends env.view_addr
        (record { msg_type = msg_query; content = env.addr_codec.encode env.ipaddr })
      ∷ []

  -- query.go: the time at which the one query leaves, a quarter of a tick behind the commit.
  unfoldable pub query_init : (now : ℤ) (content : Bytes) → Option ℤ
  query_init now content = elim (env.time_codec.decode content) [
    | none ↦ none
    | some start ↦
        let commit_time = start +ℤ ticks (pos (env.malicious_nodes + 1)) in
        some (
          (if ltb_ℤ now commit_time then commit_time else now)
          +ℤ pos (env.tick_interval / 4 * 1000000))
  ]
