-- ===== src/Propose/Rounds.antt =====
-- node/runningMod/consensusMod/proposeString.go: the rounds of the proposer, over any order of the
-- messages that it receives and the turns of its loop.
use blockchain_simulator.Base.{
  ℕ, ◌+◌, ◌≤◌, ◌≡◌, refl, ap, ◌∙◌, Bool, true, false, List, [], ◌∷◌, ◌++◌, none, some, Bytes, Eq,
  if◌then◌else◌, arith, Option-cases, inl, inr, length, map, ◌==◌, Bool-cases, length-append,
}
use blockchain_simulator.Utils.Queue.{dequeue}
use blockchain_simulator.Message.{
  MessageType-eq, msg_propose, new_request_with_signature, cal_digest,
}
use blockchain_simulator.P2p.{Effect, broadcast}
use blockchain_simulator.Utils.Shard.{get_neighbours}
use blockchain_simulator.Propose.Strings.{
  sent, handled, shard_0, init_message, string_message, StringsEnv, StringsMod,
  handle_consensus_done, handle_string, strings_turn, Output, propose_string,
}

pub data StringsEvent : Type 0 where
  string_came : (content : Bytes) → StringsEvent
  done_came : StringsEvent
  turned : (now started : ℕ) → StringsEvent

-- One round may begin: a token is there, or the loop does not wait.
abbrev pub credit : StringsMod → ℕ
credit s = (if s.token then 1 else 0) + (if s.waiting then 0 else 1)

abbrev pub dones : List StringsEvent → ℕ
dones [] = 0
dones (done_came ∷ evs) = 1 + dones evs
dones (_ ∷ evs) = dones evs

module _ {S Addr : Type 0} ⦃e : Eq Addr⦄ (env : StringsEnv S Addr) where
  -- The string that a turn is to propose in this state.
  unfoldable proposes_now : StringsMod → List Bytes
  proposes_now s =
      if s.waiting then [] else elim s.string_queue.items [ [] ↦ [] | str ∷ strs ↦ str ∷ [] ]

  unfoldable pub strings_step : StringsEvent → StringsMod → StringsMod × List (Output Addr)
  strings_step (string_came content) s = (handle_string env content s, [])
  strings_step done_came s = (handle_consensus_done s, [])
  strings_step (turned now started) s = strings_turn env now started s

  unfoldable pub strings_run : List StringsEvent → StringsMod → StringsMod × List (Output Addr)
  strings_run [] s = (s, [])
  strings_run (ev ∷ evs) s =
      let now = strings_step ev s in let rest = strings_run evs now.0 in (rest.0, now.1 ++ rest.1)

  -- The contents of the proposals that a turn hands to the handler of its own node, in their order.
  unfoldable pub proposals : List (Output Addr) → List Bytes
  proposals [] = []
  proposals (sent eff ∷ os) = proposals os
  proposals (handled m ∷ os) =
      let rest = proposals os in
      if m.msg_type == msg_propose
      then (elim (env.request_codec.decode m.content) [
        | none ↦ rest
        | some req ↦ req.content ∷ rest
      ])
      else rest

  unfoldable pub all_proposed : List StringsEvent → StringsMod → List Bytes
  unfolding proposals
  all_proposed evs s = proposals (strings_run evs s).1

  -- What an event proposes, read from the state before it.
  abbrev proposed : StringsEvent → StringsMod → List Bytes
  proposed (turned now started) s = proposes_now s
  proposed _ s = []

  unfoldable expected : List StringsEvent → StringsMod → List Bytes
  expected [] s = []
  expected (ev ∷ evs) s = proposed ev s ++ expected evs (strings_step ev s).0

  abbrev state : List Bytes → (token waiting : Bool) → StringsMod
  state strs token waiting = record {
    string_queue = record { items = strs };
    token = token;
    waiting = waiting;
  }

  proposals-append :
      (xs ys : List (Output Addr)) → proposals (xs ++ ys) ≡ proposals xs ++ proposals ys
  unfolding proposals
  proposals-append [] ys = refl
  proposals-append (sent eff ∷ xs) ys = proposals-append xs ys
  proposals-append (handled m ∷ xs) ys = elim (Option-cases (env.request_codec.decode m.content)) [
    | inl bad ↦ ground (arith, proposals-append xs ys)
    | inr (req, is) ↦ ground (arith, proposals-append xs ys)
  ]

  proposals-map_sent :
      (effs : List (Effect Addr)) (os : List (Output Addr))
      → proposals (map sent effs ++ os) ≡ proposals os
  unfolding proposals
  proposals-map_sent [] os = refl
  proposals-map_sent (eff ∷ effs) os = proposals-map_sent effs os

  proposals-propose_string :
      (now started : ℕ) (str : Bytes) → proposals (propose_string env now started str) ≡ str ∷ []
  unfolding proposals propose_string new_request_with_signature cal_digest
  proposals-propose_string now started str =
      proposals-map_sent
        (broadcast env.ipaddr (get_neighbours (shard_0 env) env.ipaddr) (init_message env now)) _
      ∙ elim (Bool-cases env.is_malicious) [
        | inl bad ↦ rw bad (rw (env.request_codec.decode-encode _) refl)
        | inr good ↦ rw good (
            proposals-map_sent
              (broadcast env.ipaddr (get_neighbours (shard_0 env) env.ipaddr)
                (string_message env started str str))
              _
            ∙ rw (env.request_codec.decode-encode _) refl)
      ]

  turn_of-proposals :
      (now started : ℕ) (strs : List Bytes) (token waiting : Bool)
      → proposals (strings_turn env now started (state strs token waiting)).1
        ≡ proposes_now (state strs token waiting)
  unfolding strings_turn proposes_now dequeue proposals
  turn_of-proposals now started strs token true = refl
  turn_of-proposals now started [] token false = refl
  turn_of-proposals now started (str ∷ strs) token false = proposals-propose_string now started str

  step-proposals :
      (ev : StringsEvent) (s : StringsMod) → proposals (strings_step ev s).1 ≡ proposed ev s
  unfolding strings_step proposals
  step-proposals (string_came content) s = refl
  step-proposals done_came s = refl
  step-proposals (turned now started) s =
      turn_of-proposals now started s.string_queue.items s.token s.waiting

  all_proposed-expected :
      (evs : List StringsEvent) (s : StringsMod) → all_proposed evs s ≡ expected evs s
  unfolding all_proposed expected strings_run proposals
  all_proposed-expected [] s = refl
  all_proposed-expected (ev ∷ evs) s =
      let s1 = (strings_step ev s).0 in
      proposals-append (strings_step ev s).1 (strings_run evs s1).1
      ∙ ap (λ l. l ++ proposals (strings_run evs s1).1) (step-proposals ev s)
      ∙ ap (λ l. proposed ev s ++ l) (all_proposed-expected evs s1)

  turn_of-credit :
      (now started : ℕ) (strs : List Bytes) (token waiting : Bool)
      → length (proposes_now (state strs token waiting))
          + credit (strings_turn env now started (state strs token waiting)).0
        ≡ credit (state strs token waiting)
  unfolding strings_turn proposes_now dequeue
  turn_of-credit now started strs true true = refl
  turn_of-credit now started strs false true = refl
  turn_of-credit now started [] token false = omega arith
  turn_of-credit now started (str ∷ strs) token false = omega arith

  step-credit :
      (ev : StringsEvent) (s : StringsMod)
      → length (proposed ev s) + credit (strings_step ev s).0 ≤ credit s + dones (ev ∷ [])
  unfolding strings_step handle_consensus_done handle_string
  step-credit (string_came content) s = elim (Option-cases (env.string_codec.decode content)) [
    | inl is ↦ rw (is, handle_string) (omega arith)
    | inr (str, is) ↦ rw (is, handle_string) (omega arith)
  ]
  step-credit done_came s = ground arith
  step-credit (turned now started) s =
      omega (arith, turn_of-credit now started s.string_queue.items s.token s.waiting)

  dones-first :
      (ev : StringsEvent) (evs : List StringsEvent) → dones (ev ∷ evs) ≡ dones (ev ∷ []) + dones evs
  dones-first (string_came content) evs = omega arith
  dones-first done_came evs = omega arith
  dones-first (turned now started) evs = omega arith

  expected-paced :
      (evs : List StringsEvent) (s : StringsMod)
      → length (expected evs s) + credit (strings_run evs s).0 ≤ credit s + dones evs
  unfolding expected strings_run
  expected-paced [] s = omega arith
  expected-paced (ev ∷ evs) s = omega (
    arith,
    step-credit ev s,
    expected-paced evs (strings_step ev s).0,
    dones-first ev evs,
    length-append (proposed ev s) (expected evs (strings_step ev s).0),
  )

  -- The proposals that a node hands to its own handler over any messages and turns of the loop are
  -- at most as many as the messages that the consensus is done, with one more if at first the loop
  -- does not wait and one more if a token is there.
  pub proposed-paced :
      (evs : List StringsEvent) (s : StringsMod)
      → length (all_proposed evs s) + credit (strings_run evs s).0 ≤ credit s + dones evs
  proposed-paced evs s = rw (all_proposed-expected evs s) (expected-paced evs s)

  -- What the inject messages bring.
  abbrev pub strings_in : StringsEvent → List Bytes
  strings_in (string_came content) = elim (env.string_codec.decode content) [
    | none ↦ []
    | some str ↦ str ∷ []
  ]
  strings_in _ = []

  abbrev pub all_strings_in : List StringsEvent → List Bytes
  all_strings_in [] = []
  all_strings_in (ev ∷ evs) = strings_in ev ++ all_strings_in evs

  abbrev six : (now started : ℕ) → List StringsEvent
  six now started =
      done_came
      ∷ turned now started
      ∷ done_came
      ∷ turned now started
      ∷ turned now started
      ∷ turned now started
      ∷ []

  six_skip :
      (now started : ℕ) (a b : Bytes) (strs : List Bytes) (token : Bool)
      → expected (six now started) (state (a ∷ b ∷ strs) token true) ≡ a ∷ b ∷ []
  unfolding expected strings_step handle_consensus_done strings_turn proposes_now dequeue
  six_skip now started a b strs token = refl

  -- Two messages that the consensus of one round is done, the second behind the end of the wait:
  -- the next string is proposed, and its wait ends at the next turn, with no message that its
  -- consensus is done, so that the string after it is proposed as well.
  pub second_done_skips_wait :
      (now started : ℕ) (a b : Bytes) (strs : List Bytes) (s : StringsMod)
      → s.waiting ≡ true
      → s.string_queue.items ≡ a ∷ b ∷ strs
      → all_proposed
          (done_came
            ∷ turned now started
            ∷ done_came
            ∷ turned now started
            ∷ turned now started
            ∷ turned now started
            ∷ [])
          s
        ≡ a ∷ b ∷ []
  second_done_skips_wait now started a b strs s waits queued =
      all_proposed-expected (six now started) s
      ∙ ap (λ w. expected (six now started) (record s { waiting = w })) waits
      ∙ ap (λ l. expected (six now started) (state l s.token true)) queued
      ∙ six_skip now started a b strs s.token
