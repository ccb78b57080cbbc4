-- ===== src/Client/Measure.antt =====
-- measure.go and the three measures of node/runningMod/clientMod: TPS, TCL and WaitLen. A reply is
-- what a measure reads of it; the files of the results are rows. `Sec` is the type of seconds as
-- floating-point numbers. Counts stay far below the bound of their integers.
use blockchain_simulator.Base.{
  ℕ, suc, ◌+◌, ◌-◌, List, [], ◌∷◌, ◌++◌, Option, none, some, Bytes, Map, insert, nat_eq, length,
  get_or, set, replicate, leb, nat_beq, if◌then◌else◌,
}
use blockchain_simulator.Message.{Codec, Request}

pub record Reply (S Time : Type 0) : Type 0 where
  pub req : Request S
  pub time : Time
  pub sid : ℕ
  pub req_queue_len : ℕ

-- The records, extended with zeros to the present second.
unfoldable pub extend : (elapsed : ℕ) → List ℕ → List ℕ
extend elapsed tps =
    if leb (length tps) elapsed then tps ++ replicate (elapsed + 1 - length tps) 0 else tps

-- measureAddon_TPS.go: `count_txs` decodes a block and counts its transactions.
module _ (count_txs : Bytes → Option ℕ) where
  unfoldable pub update_tps : {S Time : Type 0} → (elapsed : ℕ) → Reply S Time → List ℕ → List ℕ
  update_tps elapsed rep tps = elim (count_txs rep.req.content) [
    | none ↦ tps
    | some n ↦ let longer = extend elapsed tps in set longer elapsed (get_or longer elapsed 0 + n)
  ]

-- The rows of the result: the second, its count, the total so far and the seconds with a count so
-- far, whose quotient is the average.
unfoldable pub tps_rows : (second total busy : ℕ) → List ℕ → List (ℕ × ℕ × ℕ × ℕ)
tps_rows second total busy [] = []
tps_rows second total busy (n ∷ tps) =
    let total' = total + n in
    let busy' = if nat_beq n 0 then busy else busy + 1 in
    (second, n, total', busy') ∷ tps_rows (suc second) total' busy' tps

-- measureAddon_TCL.go: `seconds` is the time between the request and the reply.
unfoldable pub update_tcl :
    {S Time Sec : Type 0} (seconds : Time → ℕ → Sec) → Reply S Time → List Sec → List Sec
update_tcl seconds rep latencys = latencys ++ (seconds rep.time rep.req.req_time ∷ [])

-- measureAddon_WaitLen.go.
unfoldable pub update_wait_len : {S Time : Type 0} → Reply S Time → Map ℕ ℕ → Map ℕ ℕ
update_wait_len rep wait_len = insert rep.sid rep.req_queue_len wait_len

-- measure.go, with all three measures. `elapsed` is the second of the reply.
pub record Measures (Sec : Type 0) : Type 0 where
  pub tps : List ℕ
  pub latencys : List Sec
  pub wait_len : Map ℕ ℕ

unfoldable pub new_measures : {Sec : Type 0} → Measures Sec
new_measures = record { tps = []; latencys = []; wait_len = [] }

module _ {S Time Sec : Type 0} (codec : Codec (Reply S Time)) (count_txs : Bytes → Option ℕ)
    (seconds : Time → ℕ → Sec) where
  unfoldable pub handle_reply : (elapsed : ℕ) (content : Bytes) → Measures Sec → Measures Sec
  handle_reply elapsed content m = elim (codec.decode content) [
    | none ↦ m
    | some rep ↦ record {
      tps = update_tps count_txs elapsed rep m.tps;
      latencys = update_tcl seconds rep m.latencys;
      wait_len = update_wait_len rep m.wait_len;
    }
  ]
