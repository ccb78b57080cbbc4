-- ===== src/Ds/Mails.antt =====
-- ds/handler_ds.go: what a node sends to one of its neighbours, and the results of its handlers.
use blockchain_simulator.Base.{
  sym, ◌∙◌, ap, ℕ, ◌≡◌, ◌⊎◌, refl, Bool, true, false, ◌&&◌, ◌||◌, List, [], ◌∷◌, ◌++◌, Option, none,
  some, Bytes, Eq, ◌==◌, bytes_eq, if◌then◌else◌, length, arith, Option-cases, Bool-cases, inl, inr,
  All, nat_beq,
}
use blockchain_simulator.Message.{Message, Request, Codec, no_nil, msg_forward}
use blockchain_simulator.P2p.{Effect, sends, broadcasts, broadcast, recipients}
use blockchain_simulator.Utils.Set.{Set, add, contains, elem, Distinct}
use blockchain_simulator.Utils.Set.Members.{add_correct}
use blockchain_simulator.Utils.Shard.{get_neighbours}
use blockchain_simulator.Clock.{wait_below}
use blockchain_simulator.Ds.Defs.{
  SigListContent, DsEnv, DsMod, Outcome, returns, state_after, sent_by, handle_propose_msg,
  handle_forward_msg, forward_below, tell,
}
use blockchain_simulator.Ds.Extracted.{Event, proposes, forwards, step}

-- Does a forward message carry the value?
abbrev pub carried : {S : Type 0} → Codec (SigListContent S) → Bytes → Message → Bool
carried c v m = elim (c.decode m.content) [ none ↦ false | some x ↦ x.req.content == v ]

-- The forward message is among those that a node handles.
abbrev pub Hears : Message → List Event → Type 0
Hears m [] = ⊥
Hears m (proposes turns clock msg ∷ evs) = Hears m evs
Hears m (forwards turns clock msg ∷ evs) = (msg ≡ m) ⊎ Hears m evs

abbrev is_some : {A : Type 0} → Option A → Bool
is_some none = false
is_some (some a) = true

pub All-append :
    {A : Type 0} (P : A → Type 0) (xs ys : List A) → All P (xs ++ ys) → All P xs × All P ys
All-append P [] ys all = (tt, all)
All-append P (x ∷ xs) ys (p, all) = let (l, r) = All-append P xs ys all in ((p, l), r)

module _ {S Addr : Type 0} ⦃e : Eq Addr⦄ (env : DsEnv S Addr) where
  -- What reaches an address.
  unfoldable pub mails : Addr → List (Effect Addr) → List Message
  mails addr [] = []
  mails addr (sends a m ∷ es) = let rest = mails addr es in if a == addr then m ∷ rest else rest
  mails addr (broadcasts addrs m ∷ es) =
      let rest = mails addr es in if elem addr addrs then m ∷ rest else rest

  -- The wait that an event leads to ends within its turns, and the list to be sent has no nil
  -- signature; a known value leads to none.
  unfoldable pub in_time : Event → DsMod → Bool
  in_time (proposes turns clock msg) s =
      is_some (wait_below turns env.tick_interval s.start_time 1 clock 0)
      && (elim (env.request_codec.decode msg.content) [
        | none ↦ true
        | some req ↦ no_nil (req.sig ∷ env.sign req.content ∷ [])
      ])
  in_time (forwards turns clock msg) s = elim (env.sig_list_codec.decode msg.content) [
    | none ↦ true
    | some content ↦
        contains content.req.content s.extr_set
        || (is_some
              (wait_below turns env.tick_interval s.start_time (length content.sig_list) clock 0)
            && no_nil (content.sig_list ++ (env.sign content.req.content ∷ [])))
  ]

  unfoldable pub all_in_time : List Event → DsMod → Bool
  all_in_time [] s = true
  all_in_time (ev ∷ evs) s = in_time ev s && all_in_time evs (state_after (step env ev s))

  -- All that a node sends.
  unfoldable pub run_sent : List Event → DsMod → List (Effect Addr)
  run_sent [] s = []
  run_sent (ev ∷ evs) s = sent_by (step env ev s) ++ run_sent evs (state_after (step env ev s))

  -- The address is one to which the node forwards.
  abbrev pub is_neighbour : Addr → Bool
  is_neighbour addr = elem addr (recipients env.ipaddr (get_neighbours env.shard_ips env.ipaddr))

  tell-mails :
      (addr : Addr) (m : Message) → is_neighbour addr ≡ true → mails addr (tell env m) ≡ m ∷ []
  unfolding mails tell broadcast
  tell-mails addr m near = rw near refl

  pub mails-append :
      (addr : Addr) (xs ys : List (Effect Addr))
      → mails addr (xs ++ ys) ≡ mails addr xs ++ mails addr ys
  unfolding mails
  mails-append addr [] ys = refl
  mails-append addr (sends a m ∷ xs) ys = elim (Bool-cases (a == addr)) [
    | inl h ↦ rw h (ap (λ l. m ∷ l) (mails-append addr xs ys))
    | inr h ↦ rw h (mails-append addr xs ys)
  ]
  mails-append addr (broadcasts addrs m ∷ xs) ys = elim (Bool-cases (elem addr addrs)) [
    | inl h ↦ rw h (ap (λ l. m ∷ l) (mails-append addr xs ys))
    | inr h ↦ rw h (mails-append addr xs ys)
  ]

  -- A wait that ends sends the message on, if no signature is nil.
  forward_below-tells :
      (turns : ℕ) (clock : ℕ → ℕ) (k : ℕ) (content : SigListContent S) (s : DsMod)
      → is_some (wait_below turns env.tick_interval s.start_time k clock 0) ≡ true
      → no_nil content.sig_list ≡ true
      → forward_below env turns clock k content s
        ≡ returns s (
            tell env
              (record { msg_type = msg_forward; content = env.sig_list_codec.encode content }))
  unfolding forward_below
  forward_below-tells turns clock k content s ends signed =
      elim (Option-cases (wait_below turns env.tick_interval s.start_time k clock 0)) [
        | inl h ↦ ground (arith, h, ends)
        | inr (i, h) ↦ rw (h, forward_below) (rw signed refl)
      ]

  -- A value that is new behind an event was added by it.
  added_now :
      (w v : Bytes) (t : Set Bytes)
      → Distinct t.items
      → contains v t ≡ false
      → contains v (add w t) ≡ true
      → (w == v) ≡ true
  added_now w v t d old now = ground (arith, (add_correct w t d).0 v, old, now)

  encoded-carried :
      (v : Bytes) (content : SigListContent S)
      → (content.req.content == v) ≡ true
      → carried env.sig_list_codec v
          (record { msg_type = msg_forward; content = env.sig_list_codec.encode content })
        ≡ true
  encoded-carried v content is = rw (env.sig_list_codec.decode-encode content, carried) is

  unfoldable pub after_add : Bytes → DsMod → DsMod
  after_add w s = record s { extr_set = add w s.extr_set }

  unfoldable pub proposal_of : Request S → SigListContent S
  proposal_of req = record {
    req = req;
    sig_list = req.sig ∷ env.sign req.content ∷ [];
    node_list = env.view ∷ env.nid ∷ [];
  }

  unfoldable pub signed_of : SigListContent S → SigListContent S
  signed_of content = record content {
    sig_list = content.sig_list ++ (env.sign content.req.content ∷ []);
    node_list = content.node_list ++ (env.nid ∷ []);
  }

  pub propose_result :
      (turns : ℕ) (clock : ℕ → ℕ) (msg : Message) (s : DsMod) (req : Request S)
      → env.request_codec.decode msg.content ≡ some req
      → nat_beq env.nid env.view ≡ false
      → handle_propose_msg env turns clock msg s
        ≡ forward_below env turns clock 1 (proposal_of req) (after_add req.content s)
  unfolding handle_propose_msg after_add proposal_of
  propose_result turns clock msg s req is other = rw (is, handle_propose_msg) (rw other refl)

  pub forward_unread :
      (turns : ℕ) (clock : ℕ → ℕ) (msg : Message) (s : DsMod)
      → env.sig_list_codec.decode msg.content ≡ none
      → handle_forward_msg env turns clock msg s ≡ returns s []
  unfolding handle_forward_msg
  forward_unread turns clock msg s bad = rw (bad, handle_forward_msg) refl

  pub forward_known :
      (turns : ℕ) (clock : ℕ → ℕ) (msg : Message) (s : DsMod) (content : SigListContent S)
      → env.sig_list_codec.decode msg.content ≡ some content
      → contains content.req.content s.extr_set ≡ true
      → handle_forward_msg env turns clock msg s ≡ returns s []
  unfolding handle_forward_msg
  forward_known turns clock msg s content is known = rw (is, handle_forward_msg) (rw known refl)

  pub forward_new :
      (turns : ℕ) (clock : ℕ → ℕ) (msg : Message) (s : DsMod) (content : SigListContent S)
      → env.sig_list_codec.decode msg.content ≡ some content
      → contains content.req.content s.extr_set ≡ false
      → handle_forward_msg env turns clock msg s
        ≡ forward_below env turns clock
            (length content.sig_list)
            (signed_of content)
            (after_add content.req.content s)
  unfolding handle_forward_msg after_add signed_of
  forward_new turns clock msg s content is new = rw (is, handle_forward_msg) (rw new refl)

  -- What an event with this result mails.
  pub result-mails :
      (addr : Addr) (v : Bytes) (turns : ℕ) (clock : ℕ → ℕ) (k : ℕ) (s : DsMod)
      (content : SigListContent S) (r : Outcome Addr)
      → Distinct s.extr_set.items
      → is_neighbour addr ≡ true
      → r ≡ forward_below env turns clock k content (after_add content.req.content s)
      → is_some (wait_below turns env.tick_interval s.start_time k clock 0) ≡ true
      → no_nil content.sig_list ≡ true
      → contains v s.extr_set ≡ false
      → contains v (state_after r).extr_set ≡ true
      → (m : Message) × (mails addr (sent_by r) ≡ m ∷ []) × (carried env.sig_list_codec v m ≡ true)
  unfolding after_add
  result-mails addr v turns clock k s content r d near is ends signed old now =
      let w = content.req.content in
      let m : Message = record {
        msg_type = msg_forward;
        content = env.sig_list_codec.encode content;
      } in
      let told : r ≡ returns (after_add w s) (tell env m) =
        is ∙ forward_below-tells turns clock k content (after_add w s) ends signed in
      let taken : contains v (add w s.extr_set) ≡ true =
        sym (ap (λ o. contains v (state_after o).extr_set) told) ∙ now in
      (
        m,
        ap (λ o. mails addr (sent_by o)) told ∙ tell-mails addr m near,
        encoded-carried v content (added_now w v s.extr_set d old taken),
      )

  pub propose_unread :
      (turns : ℕ) (clock : ℕ → ℕ) (msg : Message) (s : DsMod)
      → env.request_codec.decode msg.content ≡ none
      → handle_propose_msg env turns clock msg s ≡ returns s []
  unfolding handle_propose_msg
  propose_unread turns clock msg s bad = rw (bad, handle_propose_msg) refl

  pub proposal_ends :
      (turns : ℕ) (clock : ℕ → ℕ) (msg : Message) (s : DsMod) (req : Request S)
      → env.request_codec.decode msg.content ≡ some req
      → in_time (proposes turns clock msg) s ≡ true
      → (is_some (wait_below turns env.tick_interval s.start_time 1 clock 0) ≡ true)
        × (no_nil (req.sig ∷ env.sign req.content ∷ []) ≡ true)
  unfolding in_time
  proposal_ends turns clock msg s req is time = ground (arith, is, time)

  pub ends_of :
      (turns : ℕ) (clock : ℕ → ℕ) (msg : Message) (s : DsMod) (content : SigListContent S)
      → env.sig_list_codec.decode msg.content ≡ some content
      → contains content.req.content s.extr_set ≡ false
      → in_time (forwards turns clock msg) s ≡ true
      → (is_some (wait_below turns env.tick_interval s.start_time (length content.sig_list) clock 0)
          ≡ true)
        × (no_nil (content.sig_list ++ (env.sign content.req.content ∷ [])) ≡ true)
  unfolding in_time
  ends_of turns clock msg s content is new time = ground (arith, is, new, time)
