-- ===== src/Ds/Extracted.antt =====
-- What a Dolev-Strong node extracts, commits and forwards.
use mathlib.Core.Path.{subst}
use blockchain_simulator.Base.{
  sym, ◌∙◌, ℕ, suc, ◌≡◌, refl, Bool, true, false, ◌||◌, List, [], ◌∷◌, ◌++◌, none, some, Bytes, Eq,
  ◌==◌, bytes_eq, if◌then◌else◌, length, arith, Option-cases, Bool-cases, inl, inr, ==_refl,
  bytes_beq_iff,
}
use blockchain_simulator.Base.Int.{pos, ltb_ℤ}
use blockchain_simulator.Message.{Message, msg_forward, no_nil}
use blockchain_simulator.Utils.Set.{Set, new_set, add, contains, size, Distinct, elem}
use blockchain_simulator.Utils.Set.Members.{add_correct, items_of_one, size-eq_of_contains}
use blockchain_simulator.Clock.{IsClock, round_at, wait_below, wait_below_lem}
use blockchain_simulator.Ds.Defs.{
  SigListContent, DsEnv, DsMod, Outcome, returns, panics, state_after, forward_below, zero_value,
  only_value, handle_propose_msg, handle_forward_msg, commit, tell,
}

only_value-one : (s : Set Bytes) (v : Bytes) → size s ≡ 1 → contains v s ≡ true → only_value s ≡ v
unfolding only_value contains
only_value-one s v one is = ground (arith, items_of_one v s.items one is)

only_value-other : (s : Set Bytes) → (size s ≡ 1 → ⊥) → only_value s ≡ zero_value
unfolding only_value
only_value-other s other = ground arith

-- Two sets with the same members commit the same value, in whatever order these were added.
pub only_value-eq :
    (s t : Set Bytes)
    → Distinct s.items
    → Distinct t.items
    → ((v : Bytes) → contains v s ≡ contains v t)
    → only_value s ≡ only_value t
unfolding contains
only_value-eq s t ds dt same = go s.items refl
  where
    go : (xs : List Bytes) → s.items ≡ xs → only_value s ≡ only_value t
    go [] is =
        ground (arith, only_value-other s, only_value-other t, size-eq_of_contains s t ds dt same)
    go (x ∷ []) is =
        let here : contains x s ≡ true = unfold elem in ground (arith, ==_refl x) in
        let there : contains x t ≡ true = sym (same x) ∙ here in
        let one : size s ≡ 1 = ground arith in
        let one' : size t ≡ 1 = ground (arith, size-eq_of_contains s t ds dt same) in
        only_value-one s x one here ∙ sym (only_value-one t x one' there)
    go (x ∷ y ∷ xs) is =
        ground (arith, only_value-other s, only_value-other t, size-eq_of_contains s t ds dt same)

-- What a node receives; the clock gives the time at each turn of the wait that the message leads
-- to, of which so many turns are looked at.
pub data Event : Type 0 where
  proposes forwards : (turns : ℕ) → (clock : ℕ → ℕ) → Message → Event

module _ {S Addr : Type 0} ⦃e : Eq Addr⦄ (env : DsEnv S Addr) where
  unfoldable pub step : Event → DsMod → Outcome Addr
  step (proposes turns clock msg) s = handle_propose_msg env turns clock msg s
  step (forwards turns clock msg) s = handle_forward_msg env turns clock msg s

  -- What a node does that goes on behind a panic is more than what the one does that ends there.
  unfoldable pub run : List Event → DsMod → DsMod
  run [] s = s
  run (ev ∷ evs) s = run evs (state_after (step ev s))

  -- Does the message carry the value?
  unfoldable pub carries : Bytes → Event → Bool
  carries v (proposes turns clock msg) = elim (env.request_codec.decode msg.content) [
    | none ↦ false
    | some req ↦ req.content == v
  ]
  carries v (forwards turns clock msg) = elim (env.sig_list_codec.decode msg.content) [
    | none ↦ false
    | some content ↦ content.req.content == v
  ]

  unfoldable pub received : Bytes → List Event → Bool
  received v [] = false
  received v (ev ∷ evs) = carries v ev || received v evs

  -- An extracted set that is as it was, or has taken the value of the message.
  abbrev Extracts : Set Bytes → Event → Set Bytes → Type 0
  Extracts t ev t' =
      ((v : Bytes) → contains v t' ≡ (contains v t || carries v ev)) × Distinct t'.items

  Extracts-same :
      (t : Set Bytes) (ev : Event) (t' : Set Bytes)
      → Distinct t.items
      → t' ≡ t
      → ((v : Bytes) → carries v ev ≡ true → contains v t ≡ true)
      → Extracts t ev t'
  Extracts-same t ev t' d same old =
      ((λ v. ground (arith, old v)), subst (λ u. Distinct u.items) (sym same) d)

  Extracts-add :
      (t : Set Bytes) (ev : Event) (t' : Set Bytes) (w : Bytes)
      → Distinct t.items
      → t' ≡ add w t
      → ((v : Bytes) → carries v ev ≡ (w == v))
      → Extracts t ev t'
  Extracts-add t ev t' w d is new =
      let (members, counts, distinct) = add_correct w t d in
      ((λ v. ground (arith, new v, members v)), subst (λ u. Distinct u.items) (sym is) distinct)

  forward_below-state :
      (turns : ℕ) (clock : ℕ → ℕ) (k : ℕ) (content : SigListContent S) (s : DsMod)
      → state_after (forward_below env turns clock k content s) ≡ s
  unfolding forward_below
  forward_below-state turns clock k content s =
      elim (Option-cases (wait_below turns env.tick_interval s.start_time k clock 0)) [
        | inl is ↦ ground arith
        | inr (x, is) ↦ ground arith
      ]

  step-Extracts :
      (ev : Event) (s : DsMod)
      → Distinct s.extr_set.items
      → Extracts s.extr_set ev (state_after (step ev s)).extr_set
  unfolding step carries handle_propose_msg handle_forward_msg
  step-Extracts (proposes turns clock msg) s d =
      elim (Option-cases (env.request_codec.decode msg.content)) [
        | inl bad ↦
            Extracts-same s.extr_set (proposes turns clock msg) _ d (ground arith)
              (λ v c. ground arith)
        | inr (req, is) ↦
            let s' : DsMod = record s { extr_set = add req.content s.extr_set } in
            let signed : SigListContent S = record {
              req = req;
              sig_list = req.sig ∷ env.sign req.content ∷ [];
              node_list = env.view ∷ env.nid ∷ [];
            } in
            Extracts-add s.extr_set (proposes turns clock msg) _ req.content d
              (ground (arith, forward_below-state turns clock 1 signed s')) (λ v. ground arith)
      ]
  step-Extracts (forwards turns clock msg) s d =
      elim (Option-cases (env.sig_list_codec.decode msg.content)) [
        | inl bad ↦
            Extracts-same s.extr_set (forwards turns clock msg) _ d (ground arith)
              (λ v c. ground arith)
        | inr (content, is) ↦
            let w = content.req.content in
            let s' : DsMod = record s { extr_set = add w s.extr_set } in
            let signed : SigListContent S = record content {
              sig_list = content.sig_list ++ (env.sign w ∷ []);
              node_list = content.node_list ++ (env.nid ∷ []);
            } in
            elim (Bool-cases (contains w s.extr_set)) [
              | inl old ↦
                  Extracts-same s.extr_set (forwards turns clock msg) _ d (ground arith)
                    (λ v c. ground (arith, bytes_beq_iff w v))
              | inr new ↦
                  Extracts-add s.extr_set (forwards turns clock msg) _ w d
                    (ground
                      (arith, forward_below-state turns clock (length content.sig_list) signed s'))
                    (λ v. ground arith)
            ]
      ]

  -- Over any messages the extracted set gains exactly the values that the messages carry, each
  -- once.
  pub run-extracts :
      (evs : List Event) (s : DsMod)
      → Distinct s.extr_set.items
      → ((v : Bytes) → contains v (run evs s).extr_set ≡ (contains v s.extr_set || received v evs))
        × Distinct (run evs s).extr_set.items
  unfolding run received
  run-extracts [] s d = ((λ v. ground arith), d)
  run-extracts (ev ∷ evs) s d =
      let (one, distinct) = step-Extracts ev s d in
      let (all, distinct') = run-extracts evs (state_after (step ev s)) distinct in
      ((λ v. ground (arith, one v, all v)), distinct')

  -- A forward message with a new value, under a clock that does not go back: the value is taken,
  -- and if the round at the first look at the clock is below the number of signatures, the node
  -- sends the message on with its own signature, or panics where that or another one is nil; else
  -- it sends nothing, in however many turns of the wait.
  pub forward_sends :
      (turns : ℕ) (clock : ℕ → ℕ) (msg : Message) (content : SigListContent S) (s : DsMod)
      → IsClock clock
      → env.sig_list_codec.decode msg.content ≡ some content
      → contains content.req.content s.extr_set ≡ false
      → let s' = record s { extr_set = add content.req.content s.extr_set } in
        let sigs = content.sig_list ++ (env.sign content.req.content ∷ []) in
        handle_forward_msg env (suc turns) clock msg s ≡ (
          if ltb_ℤ
            (round_at env.tick_interval s.start_time (clock 0))
            (pos (length content.sig_list))
          then (if no_nil sigs
              then returns s' (
                  tell env (record {
                    msg_type = msg_forward;
                    content = env.sig_list_codec.encode (record content {
                      sig_list = sigs;
                      node_list = content.node_list ++ (env.nid ∷ []);
                    });
                  }))
              else panics s')
          else returns s' [])
  unfolding handle_forward_msg forward_below
  forward_sends turns clock msg content s mono is new =
      let k = length content.sig_list in
      ground (arith, wait_below_lem turns env.tick_interval s.start_time k clock 0 mono)

-- Two nodes that start with nothing extracted and receive the same values, in any order and any
-- number of times, by messages of either kind, commit the same value when their timers fire.
pub commit_agreement :
    {S Addr : Type 0} ⦃e : Eq Addr⦄ (env env' : DsEnv S Addr) (evs evs' : List Event) (s s' : DsMod)
    → s.extr_set ≡ new_set
    → s'.extr_set ≡ new_set
    → ((v : Bytes) → received env v evs ≡ received env' v evs')
    → (commit env (run env evs s)).commit_value ≡ (commit env' (run env' evs' s')).commit_value
unfolding commit
commit_agreement env env' evs evs' s s' fresh fresh' same =
    let start = subst (λ t. Distinct t.items) (sym fresh) tt in
    let start' = subst (λ t. Distinct t.items) (sym fresh') tt in
    let (all, distinct) = run-extracts env evs s start in
    let (all', distinct') = run-extracts env' evs' s' start' in
    only_value-eq (run env evs s).extr_set (run env' evs' s').extr_set distinct distinct'
      (λ v. rw (all v, all' v, same v, fresh, fresh'))
