-- ===== src/Client/Latency.antt =====
-- query_tbb.go: how often the client asks again.
use blockchain_simulator.Base.{
  ℕ, ◌*◌, ◌/◌, ◌≡◌, refl, ap, ◌∙◌, Bool, true, false, List, [], ◌∷◌, Bytes, if◌then◌else◌, arith,
}
use blockchain_simulator.Base.Int.{ℤ, pos, ◌+ℤ◌, ◌-ℤ◌, ◌≤ℤ◌, ltb_ℤ, +ℤ_parts, -ℤ_parts}
use blockchain_simulator.Client.Query.{
  QueryEnv, QueryMod, ReplyValue, reply_at, reply_in, at_point2, at_point3, query_leaves,
  point1_end, point2_end,
}

module _ {Sig Addr : Type 0} (env : QueryEnv Sig Addr) where
  leaves_late :
      (now start later p : ℤ) (half : ℕ)
      → ((if ltb_ℤ now (start +ℤ p) then start +ℤ p else now) +ℤ pos half) ≤ℤ later
      → ltb_ℤ (later -ℤ start) p ≡ false
  leaves_late now start later p half h = ground (
    arith,
    h,
    +ℤ_parts start p,
    +ℤ_parts (if ltb_ℤ now (start +ℤ p) then start +ℤ p else now) (pos half),
    -ℤ_parts later start,
  )

  point2-timers :
      (since : ℤ) (value : Bytes) (q : QueryMod) → (at_point2 env since value q).timers ≡ q.timers
  unfolding at_point2
  point2-timers since [] q = refl
  point2-timers since (x ∷ xs) q = refl

  point3-timers :
      (since : ℤ) (latencys : List ℤ) (q : QueryMod)
      → (at_point3 env since latencys q).timers ≡ q.timers
  unfolding at_point3
  point3-timers since [] q = refl
  point3-timers since (x ∷ xs) q = refl

  later-timers :
      (second : Bool) (since : ℤ) (r : ReplyValue Sig) (q : QueryMod)
      → (reply_in env false second since r q).timers ≡ q.timers
  unfolding reply_in
  later-timers true since r q = point2-timers since r.value q
  later-timers false since r q = point3-timers since q.latencys q

  -- A reply without a value sets a timer to ask again, and this ends: a reply that is handled not
  -- before the query of that timer leaves, with the same start time, sets no timer.
  pub retry_ends :
      (now later : ℤ) (r : ReplyValue Sig) (q : QueryMod)
      → query_leaves env now (q.start_time +ℤ point1_end env) ≤ℤ later
      → (reply_at env (later -ℤ q.start_time) r q).timers ≡ q.timers
  unfolding query_leaves reply_at
  retry_ends now later r q h =
      let since = later -ℤ q.start_time in
      let late =
        leaves_late now q.start_time later (point1_end env) (env.tick_interval / 2 * 1000000) h in
      ap (λ b. (reply_in env b (ltb_ℤ since (point2_end env)) since r q).timers) late
      ∙ later-timers (ltb_ℤ since (point2_end env)) since r q
