-- ===== src/Ds/Network.antt =====
-- ds/handler_ds.go on two nodes of a shard: what one forwards reaches the other.
use mathlib.Core.Path.{subst}
use blockchain_simulator.Base.{
  sym, ◌∙◌, ap, ◌≡◌, true, false, List, [], ◌∷◌, ◌++◌, Bytes, Eq, bytes_eq, length, arith,
  Option-cases, Bool-cases, inl, inr, All, nat_beq,
}
use blockchain_simulator.Message.{Message}
use blockchain_simulator.Utils.Set.{new_set, contains, elem, Distinct}
use blockchain_simulator.Ds.Defs.{
  DsEnv, DsMod, state_after, sent_by, handle_propose_msg, handle_forward_msg, commit,
}
use blockchain_simulator.Ds.Extracted.{
  Event, proposes, forwards, step, run, carries, received, run-extracts, only_value-eq,
}
use blockchain_simulator.Ds.Mails.{
  carried, Hears, All-append, mails, in_time, all_in_time, run_sent, is_neighbour, mails-append,
  proposal_of, signed_of, propose_result, forward_unread, forward_known, forward_new, result-mails,
  propose_unread, ends_of, proposal_ends,
}

module _ {S Addr : Type 0} ⦃e : Eq Addr⦄ (env : DsEnv S Addr) where
  -- A node that is not the view node, in time, mails env every value that it takes.
  step-mails :
      (addr : Addr) (v : Bytes) (ev : Event) (s : DsMod)
      → Distinct s.extr_set.items
      → nat_beq env.nid env.view ≡ false
      → is_neighbour env addr ≡ true
      → in_time env ev s ≡ true
      → contains v s.extr_set ≡ false
      → contains v (state_after (step env ev s)).extr_set ≡ true
      → (m : Message) × (mails env addr (sent_by (step env ev s)) ≡ m ∷ [])
        × (carried env.sig_list_codec v m ≡ true)
  unfolding step in_time proposal_of signed_of
  step-mails addr v (proposes turns clock msg) s d other near time old now =
      elim (Option-cases (env.request_codec.decode msg.content)) [
        | inl bad ↦ ground (arith, propose_unread env turns clock msg s bad, old, now)
        | inr (req, is) ↦
            let ends = proposal_ends env turns clock msg s req is time in
            result-mails env addr v turns clock 1 s (proposal_of env req)
              (handle_propose_msg env turns clock msg s) d near
              (propose_result env turns clock msg s req is other) ends.0 ends.1 old now
      ]
  step-mails addr v (forwards turns clock msg) s d other near time old now =
      elim (Option-cases (env.sig_list_codec.decode msg.content)) [
        | inl bad ↦ ground (arith, forward_unread env turns clock msg s bad, old, now)
        | inr (content, is) ↦ elim (Bool-cases (contains content.req.content s.extr_set)) [
          | inl known ↦
              ground (arith, forward_known env turns clock msg s content is known, old, now)
          | inr new ↦
              let ends = ends_of env turns clock msg s content is new time in
              result-mails env addr v turns clock (length content.sig_list) s
                (signed_of env content) (handle_forward_msg env turns clock msg s) d near
                (forward_new env turns clock msg s content is new) ends.0 ends.1 old now
        ]
      ]

  -- Over a run: a value that is extracted in it is carried by a message that reaches the address.
  run-mails :
      (P : Message → Type 0) (addr : Addr) (v : Bytes) (evs : List Event) (s : DsMod)
      → Distinct s.extr_set.items
      → nat_beq env.nid env.view ≡ false
      → is_neighbour env addr ≡ true
      → all_in_time env evs s ≡ true
      → contains v s.extr_set ≡ false
      → contains v (run env evs s).extr_set ≡ true
      → All P (mails env addr (run_sent env evs s))
      → (m : Message) × P m × (carried env.sig_list_codec v m ≡ true)
  unfolding run run_sent all_in_time
  run-mails P addr v [] s d other near time old now all = ground (arith, old, now)
  run-mails P addr v (ev ∷ evs) s d other near time old now all =
      let s1 = state_after (step env ev s) in
      let both : All P
          (mails env addr (sent_by (step env ev s)) ++ mails env addr (run_sent env evs s1)) =
        subst (All P) (mails-append env addr (sent_by (step env ev s)) (run_sent env evs s1)) all in
      let (mine, later) =
        All-append P (mails env addr (sent_by (step env ev s)))
          (mails env addr (run_sent env evs s1)) both in
      let first : in_time env ev s ≡ true = ground (arith, time) in
      let rest : all_in_time env evs s1 ≡ true = ground (arith, time) in
      elim (Bool-cases (contains v s1.extr_set)) [
        | inl new ↦
            let (m, mailed, carries_v) = step-mails addr v ev s d other near first old new in
            let sent : All P (m ∷ []) = subst (All P) mailed mine in (m, sent.0, carries_v)
        | inr still ↦
            let distinct = (run-extracts env (ev ∷ []) s d).1 in
            run-mails P addr v evs s1 distinct other near rest still now later
      ]

-- A forward message that a node handles is received with its value.
Hears-received :
    {S Addr : Type 0} ⦃e : Eq Addr⦄ (env : DsEnv S Addr) (v : Bytes) (m : Message)
    (evs : List Event)
    → Hears m evs
    → carried env.sig_list_codec v m ≡ true
    → received env v evs ≡ true
unfolding received carries
Hears-received env v m [] heard is = ground (arith, heard)
Hears-received env v m (proposes turns clock msg ∷ evs) heard is =
    ground (arith, Hears-received env v m evs heard is)
Hears-received env v m (forwards turns clock msg ∷ evs) (inl same) is =
    let here : carries env v (forwards turns clock msg) ≡ true =
      ap (carried env.sig_list_codec v) same ∙ is in
    ground (arith, here)
Hears-received env v m (forwards turns clock msg ∷ evs) (inr heard) is =
    ground (arith, Hears-received env v m evs heard is)

module _ {S Addr : Type 0} ⦃e : Eq Addr⦄ where
  -- All that the first node forwards is handled by the second.
  abbrev pub IsHeardBy : (env env' : DsEnv S Addr) (evs evs' : List Event) (s : DsMod) → Type 0
  IsHeardBy env env' evs evs' s =
      All (λ m. Hears m evs') (mails env env'.ipaddr (run_sent env evs s))

  -- What a node extracts, another one extracts as well.
  relays :
      (env env' : DsEnv S Addr) (evs evs' : List Event) (s s' : DsMod) (v : Bytes)
      → s.extr_set ≡ new_set
      → s'.extr_set ≡ new_set
      → nat_beq env.nid env.view ≡ false
      → is_neighbour env env'.ipaddr ≡ true
      → env'.sig_list_codec ≡ env.sig_list_codec
      → all_in_time env evs s ≡ true
      → IsHeardBy env env' evs evs' s
      → contains v (run env evs s).extr_set ≡ true
      → contains v (run env' evs' s').extr_set ≡ true
  unfolding contains elem
  relays env env' evs evs' s s' v fresh fresh' other near codec time heard now =
      let d = subst (λ t. Distinct t.items) (sym fresh) tt in
      let d' = subst (λ t. Distinct t.items) (sym fresh') tt in
      let old : contains v s.extr_set ≡ false = ap (contains v) fresh in
      let (m, hears, is) =
        run-mails env (λ m. Hears m evs') env'.ipaddr v evs s d other near time old now heard in
      let is' : carried env'.sig_list_codec v m ≡ true = ap (λ c. carried c v m) codec ∙ is in
      let got = Hears-received env' v m evs' hears is' in
      let all = (run-extracts env' evs' s' d').0 v in ground (arith, got, all)

  -- Two nodes that are not the view node, that start without values and reach each other, that meet
  -- no nil signature in what they are to send, so that gob does not panic, whose waits all end and
  -- that handle each other's forward messages commit the same value.
  pub network_agreement :
      (env env' : DsEnv S Addr) (evs evs' : List Event) (s s' : DsMod)
      → s.extr_set ≡ new_set
      → s'.extr_set ≡ new_set
      → nat_beq env.nid env.view ≡ false
      → nat_beq env'.nid env'.view ≡ false
      → is_neighbour env env'.ipaddr ≡ true
      → is_neighbour env' env.ipaddr ≡ true
      → env'.sig_list_codec ≡ env.sig_list_codec
      → all_in_time env evs s ≡ true
      → all_in_time env' evs' s' ≡ true
      → IsHeardBy env env' evs evs' s
      → IsHeardBy env' env evs' evs s'
      → (commit env (run env evs s)).commit_value ≡ (commit env' (run env' evs' s')).commit_value
  unfolding commit
  network_agreement env env' evs evs' s s' fresh fresh' other other' near near' codec time time'
        heard heard' =
      let t = (run env evs s).extr_set in
      let t' = (run env' evs' s').extr_set in
      let there : (v : Bytes) → contains v t ≡ true → contains v t' ≡ true =
        λ v. relays env env' evs evs' s s' v fresh fresh' other near codec time heard in
      let back : (v : Bytes) → contains v t' ≡ true → contains v t ≡ true =
        λ v. relays env' env evs' evs s' s v fresh' fresh other' near' (sym codec) time' heard' in
      let same : (v : Bytes) → contains v t ≡ contains v t' = λ v.
        elim (Bool-cases (contains v t)) [
          | inl h ↦ h ∙ sym (there v h)
          | inr h ↦ elim (Bool-cases (contains v t')) [
            | inl h' ↦ back v h' ∙ sym h'
            | inr h' ↦ h ∙ sym h'
          ]
        ] in
      let d = subst (λ x. Distinct x.items) (sym fresh) tt in
      let d' = subst (λ x. Distinct x.items) (sym fresh') tt in
      only_value-eq t t' (run-extracts env evs s d).1 (run-extracts env' evs' s' d').1 same
