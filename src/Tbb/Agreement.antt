-- ===== src/Tbb/Agreement.antt =====
-- What commit point 1 of tbb/handler_tbb.go promises two nodes. The source does not check a vote's
-- signature: what is shown supposes that every vote that arrives was really signed.
use blockchain_simulator.Base.{
  ℕ, ◌*◌, ◌≤◌, ◌<◌, ◌≡◌, ◌≢◌, refl, Bool, true, false, List, [], ◌∷◌, some, Bytes, Eq, ◌==◌,
  bytes_eq, bytes_beq_iff, arith, get_or, set, Bool-cases, inl, inr, ◌⊎◌, ◌∙◌, sym, ap,
}
use blockchain_simulator.Message.{Message, MessageType-eq, msg_init, msg_vote}
use blockchain_simulator.Utils.Set.{elem}
use blockchain_simulator.Tbb.Bb.Defs.{VoteContent}
use blockchain_simulator.Tbb.Bb.Handlers.{threshold}
use blockchain_simulator.Tbb.Bb.Handlers as Handlers
use blockchain_simulator.Tbb.Bb.Bads.{fire}
use blockchain_simulator.Tbb.Bb.Signers.{below, issued, quorums_agree}
use blockchain_simulator.Tbb.Bb.Backed.{IsBacked, kept-IsBacked, fresh-IsBacked, signers_of_commit}
use blockchain_simulator.Tbb.Bb.Backed.Handled.{vote_msg-IsBacked, fire-IsBacked}
use blockchain_simulator.Tbb.Defs.{TbbEnv, TbbMod, first_value, handle_init_msg}
use blockchain_simulator.Tbb.Answer.{answer}
use blockchain_simulator.Tbb.Turns.{
  Turn, arrives, fires, reference1, reference2, commit1, commit2, commit3, turn, turns_after,
  in_dbb_after, registered_vote, registered-Quiet, point_quiet, commit1_waits, commit1_sent,
}

-- As handleInitMsg leaves a node: no votes, no commit, and set D empty.
pub record IsStart {S : Type 0} (s : TbbMod S) : Type 0 where
  pub no_votes : s.dbb_mod.vote_map ≡ []
  pub not_committed : s.dbb_mod.is_commit ≡ false
  pub not_triggered : s.dbb_mod.trigger ≡ false
  pub unset : get_or s.local_set_d 0 [] ≡ []

set_first :
    (x : Bytes) (d : List Bytes) → (get_or (set d 0 x) 0 [] ≡ []) ⊎ (get_or (set d 0 x) 0 [] ≡ x)
set_first x [] = inl refl
set_first x (y ∷ d) = inr refl

first_value-first : (d : List Bytes) → (get_or d 0 [] == []) ≡ false → first_value d ≡ get_or d 0 []
unfolding first_value
first_value-first [] full = refl
first_value-first (x ∷ d) full = rw full refl

module _ {S Addr : Type 0} ⦃es : Eq S⦄ ⦃e : Eq Addr⦄ (sign : ℕ → Bytes → S)
    (signed : ℕ → Bytes → Bool) (n : ℕ) (env : TbbEnv S Addr) where
  pub init-IsStart :
      (now start : ℕ) (msg : Message) (s : TbbMod S)
      → env.bb_env.time_codec.decode msg.content ≡ some start
      → IsStart (handle_init_msg env now msg s)
  unfolding handle_init_msg Handlers.handle_init_msg
  init-IsStart now start msg s is = record {
    no_votes = ground (arith, is);
    not_committed = ground (arith, is);
    not_triggered = ground (arith, is);
    unset = ground (arith, is);
  }

  -- No round begins with the event; a vote that it brings, or that the node casts at it, carries a
  -- signature that a node of the shard has made for the vote's content.
  abbrev pub IsGenuine : Turn S → TbbMod S → Type 0
  IsGenuine (arrives now turns clock msg) s =
      (msg.msg_type ≢ msg_init)
      × (msg.msg_type ≡ msg_vote
          → (v : VoteContent S) (sig : S) → env.bb_env.vote_codec.decode msg.content ≡ some v
          → v.sig ≡ some sig
          → elem sig (issued sign signed n v.content) ≡ true)
  IsGenuine (fires timer) s =
      (c : Bytes) (sig : S)
      → s.dbb_mod.propose_set.items ≡ c ∷ []
      → env.bb_env.sign c ≡ some sig
      → elem sig (issued sign signed n c) ≡ true
  IsGenuine _ s = Unit

  abbrev pub AreGenuine : List (Turn S) → TbbMod S → Type 0
  AreGenuine [] s = Unit
  AreGenuine (v ∷ vs) s = IsGenuine v s × AreGenuine vs (turn env v s)

  -- A value has as many signers as a commit needs.
  abbrev HasQuorum : Bytes → Type 0
  HasQuorum c = threshold env.bb_env ≤ below n (λ i. signed i c)

  record IsSafe (s : TbbMod S) : Type 0 where
    pub backed : IsBacked sign signed n env.bb_env s.dbb_mod
    pub first : (get_or s.local_set_d 0 [] ≡ []) ⊎ HasQuorum (get_or s.local_set_d 0 [])

  first_kept :
      (s t : TbbMod S)
      → IsSafe s
      → IsBacked sign signed n env.bb_env t.dbb_mod
      → get_or t.local_set_d 0 [] ≡ get_or s.local_set_d 0 []
      → IsSafe t
  first_kept s t ok backed same = record { backed = backed; first = rw same ok.first }

  start-IsSafe : (s : TbbMod S) → IsStart s → IsSafe s
  start-IsSafe s new = record {
    backed =
        fresh-IsBacked sign signed n env.bb_env s.dbb_mod new.no_votes new.not_committed
          new.not_triggered;
    first = inl new.unset;
  }

  commit1-IsSafe : (s : TbbMod S) → IsSafe s → IsSafe (turn env commit1 s)
  commit1-IsSafe s ok = elim (Bool-cases s.dbb_mod.trigger) [
    | inr waits ↦ rw (commit1_waits env s waits) ok
    | inl sent ↦ rw (commit1_sent env s sent) (
        let up = ok.backed.triggered sent in
        record {
          backed =
              kept-IsBacked sign signed n env.bb_env s.dbb_mod _ ok.backed refl refl (λ h. refl)
                (λ h. sent);
          first = elim (set_first s.dbb_mod.commit_value s.local_set_d) [
            | inl is ↦ inl is
            | inr is ↦
                inr (rw is (signers_of_commit sign signed n env.bb_env s.dbb_mod ok.backed up))
          ];
        })
  ]

  turn-IsSafe : (v : Turn S) (s : TbbMod S) → IsSafe s → IsGenuine v s → IsSafe (turn env v s)
  unfolding turn
  turn-IsSafe (arrives now turns clock msg) s ok real =
      elim (Bool-cases (msg.msg_type == msg_vote)) [
        | inl voting ↦
            let is = (MessageType-eq.beq_iff msg.msg_type msg_vote).0 voting in
            let (kept, change) = registered_vote env now turns clock msg s is in
            first_kept s _ ok
              (elim change [
                | inl same ↦ rw same ok.backed
                | inr counted ↦ rw counted (
                    vote_msg-IsBacked sign signed n env.bb_env now msg s.dbb_mod ok.backed
                      (real.1 is))
              ])
              (ap (λ d. get_or d 0 []) kept)
        | inr other ↦
            let is : msg.msg_type ≢ msg_vote =
              λ h. absurd (ground (arith, (MessageType-eq.beq_iff msg.msg_type msg_vote).1 h)) in
            let quiet = registered-Quiet env now turns clock msg s real.0 is in
            first_kept s _ ok
              (kept-IsBacked sign signed n env.bb_env s.dbb_mod _ ok.backed quiet.0 quiet.1
                (λ h. quiet.2) (λ h. sym quiet.3 ∙ h))
              (ap (λ d. get_or d 0 []) quiet.4)
      ]
  turn-IsSafe (fires timer) s ok real =
      let kept = in_dbb_after env s (fire env.bb_env timer s.dbb_mod).0 in
      first_kept s _ ok
        (rw kept.0 (fire-IsBacked sign signed n env.bb_env timer s.dbb_mod ok.backed real))
        (ap (λ d. get_or d 0 []) kept.1)
  turn-IsSafe reference1 s ok real =
      let q = (point_quiet env s).0 in first_kept s _ ok (rw q.0 ok.backed) q.1
  turn-IsSafe reference2 s ok real =
      let q = (point_quiet env s).1 in first_kept s _ ok (rw q.0 ok.backed) q.1
  turn-IsSafe commit1 s ok real = commit1-IsSafe s ok
  turn-IsSafe commit2 s ok real =
      let q = (point_quiet env s).2 in first_kept s _ ok (rw q.0 ok.backed) q.1
  turn-IsSafe commit3 s ok real =
      let q = (point_quiet env s).3 in first_kept s _ ok (rw q.0 ok.backed) q.1

  turns-IsSafe :
      (vs : List (Turn S)) (s : TbbMod S)
      → IsSafe s
      → AreGenuine vs s
      → IsSafe (turns_after env vs s)
  unfolding turns_after
  turns-IsSafe [] s ok real = ok
  turns-IsSafe (v ∷ vs) s ok real =
      turns-IsSafe vs (turn env v s) (turn-IsSafe v s ok real.0) real.1

  first_quorum :
      (s : TbbMod S)
      → IsSafe s
      → (get_or s.local_set_d 0 [] == []) ≡ false
      → HasQuorum (get_or s.local_set_d 0 [])
  first_quorum s ok full = elim ok.first [
    | inl is ↦ absurd (ground (arith, is, bytes_beq_iff (get_or s.local_set_d 0 []) []))
    | inr enough ↦ enough
  ]

module _ {S Addr : Type 0} ⦃es : Eq S⦄ ⦃e : Eq Addr⦄ (sign : ℕ → Bytes → S)
    (signed : ℕ → Bytes → Bool) (faulty : ℕ → Bool) where
  -- Two nodes of one shard go through any events of one round, each from the state that
  -- handleInitMsg leaves: messages, timers and commit points, in any order. Every vote that they
  -- count or cast was really signed; fewer than a third of the nodes are faulty, and the others
  -- sign votes for one content at most. If commit point 1 has given both nodes a value, then both
  -- answer a query with the same value.
  pub commit_point_1_agreement :
      (env env' : TbbEnv S Addr) (vs vs' : List (Turn S)) (s s' : TbbMod S)
      → env'.bb_env.node_num ≡ env.bb_env.node_num
      → env'.bb_env.malicious_num ≡ env.bb_env.malicious_num
      → 3 * env.bb_env.malicious_num < env.bb_env.node_num
      → below env.bb_env.node_num faulty ≤ env.bb_env.malicious_num
      → ((i : ℕ) (c d : Bytes) → faulty i ≡ false → signed i c ≡ true → signed i d ≡ true → c ≡ d)
      → IsStart s
      → IsStart s'
      → AreGenuine sign signed env.bb_env.node_num env vs s
      → AreGenuine sign signed env.bb_env.node_num env' vs' s'
      → (get_or (turns_after env vs s).local_set_d 0 [] == []) ≡ false
      → (get_or (turns_after env' vs' s').local_set_d 0 [] == []) ≡ false
      → answer (turns_after env vs s) ≡ answer (turns_after env' vs' s')
  commit_point_1_agreement env env' vs vs' s s' nodes faults third few once new new' real real' full
        full' =
      let n = env.bb_env.node_num in
      let f = env.bb_env.malicious_num in
      let t = turns_after env vs s in
      let t' = turns_after env' vs' s' in
      let safe = turns-IsSafe sign signed n env vs s (start-IsSafe sign signed n env s new) real in
      let safe' =
        turns-IsSafe sign signed n env' vs' s' (start-IsSafe sign signed n env' s' new') real' in
      let c = first_quorum sign signed n env t safe full in
      let d = first_quorum sign signed n env' t' safe' full' in
      first_value-first t.local_set_d full
      ∙ quorums_agree signed faulty n f _ _ third few once c (omega (arith, nodes, faults, d))
      ∙ sym (first_value-first t'.local_set_d full')
