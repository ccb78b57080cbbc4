-- ===== src/Tbb/Turns.antt =====
-- A node that runs tbb/handler_tbb.go, one event after another.
use blockchain_simulator.Base.{
  ℕ, zero, suc, ◌<◌, ◌≡◌, ◌≢◌, refl, true, false, ◌&&◌, not, List, [], ◌∷◌, some, none, Bytes, Eq,
  bytes_eq, arith, get_or, set, nat_beq, Bool-cases, Option-cases, inl, inr, ◌⊎◌,
}
use blockchain_simulator.Message.{Message, MessageType-eq, msg_init, msg_vote}
use blockchain_simulator.Tbb.Bb.Defs.{BbMod, Timer, Outcome, returns, panics, blocks}
use blockchain_simulator.Tbb.Bb.Handlers.{
  threshold, handle_propose_msg as bb_propose, handle_vote_msg as bb_vote,
  handle_forward1_msg as bb_forward1,
}
use blockchain_simulator.Tbb.Bb.Handlers as Handlers
use blockchain_simulator.Tbb.Bb.Bads.{fire, collect, relay, handle_forward2_msg as bb_forward2}
use blockchain_simulator.Tbb.Bb.Certificates.{state_after}
use blockchain_simulator.Tbb.Defs.{
  TbbEnv, TbbMod, Result, ends, stops, stuck, in_dbb, handle, registered, reference_point1,
  reference_point2, commit_point1, commit_point2, commit_point3, handle_propose_msg,
  handle_forward_msg, point_value,
}

get_or-set : (i : ℕ) (x : Bytes) (d : List Bytes) → 0 < i → get_or (set d i x) 0 [] ≡ get_or d 0 []
get_or-set zero x d h = absurd (omega arith)
get_or-set (suc i) x [] h = refl
get_or-set (suc i) x (y ∷ d) h = refl

-- What happens at a node: a message, a timer of 1Δ-BB*, or one of the node's waiting goroutines.
pub data Turn (S : Type 0) : Type 0 where
  arrives : (now turns : ℕ) (clock : ℕ → ℕ) → Message → Turn S
  fires : Timer S → Turn S
  reference1 reference2 commit1 commit2 commit3 : Turn S

module _ {S Addr : Type 0} ⦃es : Eq S⦄ ⦃e : Eq Addr⦄ (env : TbbEnv S Addr) where
  -- The state behind a handler; a node that stopped has the state before.
  abbrev pub node_after : TbbMod S → Result S Addr → TbbMod S
  node_after s (ends t sent) = t
  node_after s (stops sent) = s
  node_after s (stuck t) = t

  unfoldable pub turn : Turn S → TbbMod S → TbbMod S
  turn (arrives now turns clock msg) s = node_after s (registered env now turns clock msg s)
  turn (fires timer) s = node_after s (in_dbb env s (fire env.bb_env timer s.dbb_mod).0)
  turn reference1 s = reference_point1 s
  turn reference2 s = reference_point2 s
  turn commit1 s = elim (commit_point1 s) [ none ↦ s | some t ↦ t ]
  turn commit2 s = commit_point2 s
  turn commit3 s = commit_point3 s

  unfoldable pub turns_after : List (Turn S) → TbbMod S → TbbMod S
  turns_after [] s = s
  turns_after (v ∷ vs) s = turns_after vs (turn v s)

  -- Messages that neither start a round nor bring a vote.
  abbrev pub Quiet : TbbMod S → TbbMod S → Type 0
  Quiet s t =
      (t.dbb_mod.vote_map ≡ s.dbb_mod.vote_map)
      × (t.dbb_mod.is_commit ≡ s.dbb_mod.is_commit)
      × (t.dbb_mod.commit_value ≡ s.dbb_mod.commit_value)
      × (t.dbb_mod.trigger ≡ s.dbb_mod.trigger)
      × (t.local_set_d ≡ s.local_set_d)

  forward2_quiet :
      (now turns : ℕ) (clock : ℕ → ℕ) (msg : Message) (s : BbMod S)
      → let t = state_after s (bb_forward2 env.bb_env now turns clock msg s) in
        (t.vote_map ≡ s.vote_map)
        × (t.is_commit ≡ s.is_commit)
        × (t.commit_value ≡ s.commit_value)
        × (t.trigger ≡ s.trigger)
  unfolding bb_forward2 collect relay
  forward2_quiet now turns clock msg s =
      elim (Option-cases (env.bb_env.sig_list_codec.decode msg.content)) [
        | inl bad ↦ ground arith
        | inr (content, is) ↦ ground arith
      ]

  propose_quiet :
      (now : ℕ) (msg : Message) (s : BbMod S)
      → let t = (bb_propose env.bb_env now msg s).0 in
        (t.vote_map ≡ s.vote_map)
        × (t.is_commit ≡ s.is_commit)
        × (t.commit_value ≡ s.commit_value)
        × (t.trigger ≡ s.trigger)
  unfolding bb_propose
  propose_quiet now msg s = ground arith

  forward1_quiet :
      (msg : Message) (s : BbMod S)
      → let t = bb_forward1 env.bb_env msg s in
        (t.vote_map ≡ s.vote_map)
        × (t.is_commit ≡ s.is_commit)
        × (t.commit_value ≡ s.commit_value)
        × (t.trigger ≡ s.trigger)
  unfolding bb_forward1
  forward1_quiet msg s = ground arith

  pub in_dbb_after :
      (s : TbbMod S) (o : Outcome S Addr)
      → let t = node_after s (in_dbb env s o) in
        (t.dbb_mod ≡ state_after s.dbb_mod o) × (t.local_set_d ≡ s.local_set_d)
  unfolding in_dbb
  in_dbb_after s (returns b sent) = (refl, refl)
  in_dbb_after s panics = (refl, refl)
  in_dbb_after s (blocks b) = (refl, refl)

  pub registered_vote :
      (now turns : ℕ) (clock : ℕ → ℕ) (msg : Message) (s : TbbMod S)
      → msg.msg_type ≡ msg_vote
      → let t = node_after s (registered env now turns clock msg s) in
        (t.local_set_d ≡ s.local_set_d)
        × ((t.dbb_mod ≡ s.dbb_mod)
            ⊎ (t.dbb_mod ≡ state_after s.dbb_mod (bb_vote env.bb_env now msg s.dbb_mod)))
  unfolding registered handle
  registered_vote now turns clock msg s voting =
      let kept = in_dbb_after s (bb_vote env.bb_env now msg s.dbb_mod) in
      elim (Bool-cases (env.is_malicious && not (nat_beq env.bb_env.nid env.bb_env.view))) [
        | inl silent ↦ rw silent (refl, inl refl)
        | inr honest ↦ rw honest (simp (voting, handle) (kept.1, inr kept.0))
      ]

  pub commit1_waits : (s : TbbMod S) → s.dbb_mod.trigger ≡ false → turn commit1 s ≡ s
  unfolding turn commit_point1
  commit1_waits s waits = ground arith

  pub commit1_sent :
      (s : TbbMod S)
      → s.dbb_mod.trigger ≡ true
      → turn commit1 s ≡ record s {
        local_set_d = set s.local_set_d 0 s.dbb_mod.commit_value;
        is_commit = true;
        dbb_mod = record s.dbb_mod { trigger = false };
      }
  unfolding turn commit_point1
  commit1_sent s sent = ground arith

  -- All the waiting goroutines but that of commit point 1.
  pub point_quiet :
      (s : TbbMod S)
      → let Same : (TbbMod S → Type 0) =
          λ t. (t.dbb_mod ≡ s.dbb_mod) × (get_or t.local_set_d 0 [] ≡ get_or s.local_set_d 0 []) in
        Same (reference_point1 s)
        × Same (reference_point2 s)
        × Same (commit_point2 s)
        × Same (commit_point3 s)
  unfolding reference_point1 reference_point2 commit_point2 commit_point3
  point_quiet s = (
    ground arith,
    ground arith,
    elim (Option-cases (point_value s.dbb_mod.blck_set s.reference_value1)) [
      | inl is ↦ ground arith
      | inr (x, is) ↦ ground (arith, get_or-set 1 x s.local_set_d (omega arith))
    ],
    elim (Option-cases (point_value s.dbb_mod.blck_set s.reference_value2)) [
      | inl is ↦ ground arith
      | inr (x, is) ↦ ground (arith, get_or-set 2 x s.local_set_d (omega arith))
    ],
  )

  pub registered-Quiet :
      (now turns : ℕ) (clock : ℕ → ℕ) (msg : Message) (s : TbbMod S)
      → msg.msg_type ≢ msg_init
      → msg.msg_type ≢ msg_vote
      → Quiet s (node_after s (registered env now turns clock msg s))
  unfolding registered handle in_dbb handle_propose_msg handle_forward_msg Handlers.handle_qc_msg
  registered-Quiet now turns clock msg s start voting = ground (
    arith,
    propose_quiet now msg s.dbb_mod,
    forward1_quiet msg s.dbb_mod,
    forward2_quiet now turns clock msg s.dbb_mod,
  )
