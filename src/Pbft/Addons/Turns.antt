-- ===== src/Pbft/Addons/Turns.antt =====
-- The TBD addon of pbft/addon_tbd.go over sequences of its calls, and in a node.
use blockchain_simulator.Base.{
  ℕ, ◌+◌, ◌≤◌, ◌≡◌, refl, ap, ◌∙◌, false, List, [], ◌∷◌, none, some, Bytes, Eq, if◌then◌else◌,
  arith, if_cases, true, Bool, true, Option, count, All, Option-cases, Bool-cases, inl, inr,
}
use blockchain_simulator.Message.{Request}
use blockchain_simulator.P2p.{Effect}
use blockchain_simulator.Pbft.Defs.{PbftEnv}
use blockchain_simulator.Pbft.System.{Event, new_node, run}
use blockchain_simulator.Pbft.Once.{commit_for, proposes, AddonIsQuiet, addon_count}
use blockchain_simulator.Pbft.Once.Broadcast.{run-spends}
use blockchain_simulator.Pbft.Addons.{
  TbdEnv, TbdState, new_tbd_state, tbd_pre_prepare, tbd_prepare, tbd_commit, tbd_addon,
}

-- The calls that a node makes of its addon. A call that waits changes nothing.
pub data Call (S : Type 0) : Type 0 where
  pre_prepares prepares : Request S → Call S
  commits_with : Request S → (queue_len : ℕ) → Call S

module _ {S Addr C B : Type 0} (env : TbdEnv S Addr C B) where
  -- The addon's state after a call, the state updates that it made and the blocks it committed.
  unfoldable pub call : Call S → TbdState C → TbdState C × ℕ × ℕ
  call (pre_prepares req) x = let r = tbd_pre_prepare env x req in (r.0, if r.1 then 1 else 0, 0)
  call (prepares req) x = elim (tbd_prepare env x req) [ none ↦ (x, 0, 0) | some r ↦ (r.0, 0, 0) ]
  call (commits_with req n) x = elim (tbd_commit env x req n) [
    | none ↦ (x, 0, 0)
    | some r ↦ (r.0, 0, if r.1 then 1 else 0)
  ]

  unfoldable pub calls : List (Call S) → TbdState C → TbdState C × ℕ × ℕ
  calls [] x = (x, 0, 0)
  calls (c ∷ cs) x =
      let now = call c x in
      let later = calls cs now.0 in (later.0, now.1 + later.1, now.2 + later.2)

  -- One commit is open while the flag is up.
  abbrev pub open_commits : TbdState C → ℕ
  open_commits x = if x.state_update_done then 1 else 0

  call-turns :
      (c : Call S) (x : TbdState C)
      → (call c x).2 + open_commits (call c x).0 ≤ (call c x).1 + open_commits x
  unfolding call tbd_pre_prepare tbd_prepare tbd_commit
  call-turns (pre_prepares req) x = ground arith
  call-turns (prepares req) x = ground arith
  call-turns (commits_with req n) x = elim (Option-cases (env.decode_block req.content)) [
    | inl is ↦ ground arith
    | inr (b, is) ↦ ground arith
  ]

  -- Over any calls of the addon in any order, the blocks that it commits are at most as many as
  -- the state updates that it made for pre-prepare messages, with one more only if it began behind
  -- an update that was not committed, and one less while an update is open.
  pub calls-turns :
      (cs : List (Call S)) (x : TbdState C)
      → (calls cs x).2 + open_commits (calls cs x).0 ≤ (calls cs x).1 + open_commits x
  unfolding calls
  calls-turns [] x = omega arith
  calls-turns (c ∷ cs) x = omega (arith, call-turns c x, calls-turns cs (call c x).0)

  -- What the two operations of the chain keep, the addon keeps.
  module _ (P : C → Type 0) (update_keeps : (b : B) (c : C) → P c → P (env.update_states b c))
      (commit_keeps : (b : B) (c : C) → P c → P (env.commit_block b c)) where
    prepare_same :
        (req : Request S) (x : TbdState C) (r : TbdState C × Bool)
        → tbd_prepare env x req ≡ some r
        → P x.chain
        → P r.0.chain
    unfolding tbd_prepare
    prepare_same req x r e p = elim (if_cases x.state_update_done _ _ e) [
      | inl (done, h) ↦ let same : x.chain ≡ r.0.chain = ground (arith, h) in rw⁻¹ same p
      | inr (waits, h) ↦ ground (arith, h)
    ]

    decoded_keeps :
        (o : Option B) (replies : List (Effect Addr)) (x : TbdState C)
        (r : TbdState C × Bool × List (Effect Addr))
        → (elim o as (λ _. Option (TbdState C × Bool × List (Effect Addr))) [
          | none ↦ some (x, false, [])
          | some b ↦ some (
            record { chain = env.commit_block b x.chain; state_update_done = false },
            true,
            replies,
          )
        ])
          ≡ some r
        → P x.chain
        → P r.0.chain
    decoded_keeps none replies x r h p =
        let same : x.chain ≡ r.0.chain = ground (arith, h) in rw⁻¹ same p
    decoded_keeps (some b) replies x r h p =
        let same : env.commit_block b x.chain ≡ r.0.chain = ground (arith, h) in
        rw⁻¹ same (commit_keeps b x.chain p)

    commit_same :
        (req : Request S) (n : ℕ) (x : TbdState C) (r : TbdState C × Bool × List (Effect Addr))
        → tbd_commit env x req n ≡ some r
        → P x.chain
        → P r.0.chain
    unfolding tbd_commit
    commit_same req n x r e p = elim (if_cases x.state_update_done _ _ e) [
      | inl (done, h) ↦ decoded_keeps (env.decode_block req.content) _ x r h p
      | inr (waits, h) ↦ ground (arith, h)
    ]

    call_keeps : (c : Call S) (x : TbdState C) → P x.chain → P (call c x).0.chain
    unfolding call tbd_pre_prepare
    call_keeps (pre_prepares req) x p = elim (Option-cases (env.decode_block req.content)) [
      | inl e ↦ rw (e, tbd_pre_prepare) p
      | inr (b, e) ↦ rw (e, tbd_pre_prepare) (update_keeps b x.chain p)
    ]
    call_keeps (prepares req) x p = elim (Option-cases (tbd_prepare env x req)) [
      | inl e ↦ rw (e, call) p
      | inr (r, e) ↦ rw (e, call) (prepare_same req x r e p)
    ]
    call_keeps (commits_with req n) x p = elim (Option-cases (tbd_commit env x req n)) [
      | inl e ↦ rw (e, call) p
      | inr (r, e) ↦ rw (e, call) (commit_same req n x r e p)
    ]

    pub calls_keep : (cs : List (Call S)) (x : TbdState C) → P x.chain → P (calls cs x).0.chain
    unfolding calls
    calls_keep [] x p = p
    calls_keep (c ∷ cs) x p = calls_keep cs (call c x).0 (call_keeps c x p)

-- The addon's commit sends at most a reply to one address.
tbd_addon-IsQuiet :
    {S Addr C B : Type 0} ⦃e : Eq Addr⦄ (tbd : TbdEnv S Addr C B)
    (env : PbftEnv S Addr (TbdState C)) (d : Bytes)
    → env.addon ≡ tbd_addon tbd
    → AddonIsQuiet env d
unfolding tbd_addon tbd_commit commit_for
tbd_addon-IsQuiet tbd env d same x req n =
    ap (λ a. addon_count env d (a.handle_commit_addon x req n)) same ∙ sent_nothing
  where
    sent_nothing : addon_count env d (tbd_commit tbd x req n) ≡ 0
    sent_nothing = elim (Bool-cases x.state_update_done) [
      | inr not_done ↦ rw (not_done, tbd_commit) refl
      | inl is_done ↦
          rw (is_done, tbd_commit)
            (elim (Option-cases (tbd.decode_block req.content)) [
              | inl is ↦ rw is refl
              | inr (b, is) ↦ rw is (elim (Bool-cases tbd.is_view_node) [
                | inl view ↦ rw view refl
                | inr other ↦ rw other refl
              ])
            ])
    ]

-- A node with the TBD addon and nothing in its pool, over any events of which none proposes the
-- digest: it broadcasts a commit message for the digest at most once.
tbd_node_broadcasts_once :
    {S Addr C B : Type 0} ⦃e : Eq Addr⦄ (tbd : TbdEnv S Addr C B)
    (env : PbftEnv S Addr (TbdState C)) (d : Bytes) (evs : List Event) (c : C)
    → env.addon ≡ tbd_addon tbd
    → All (λ ev. proposes env d ev ≡ false) evs
    → count (commit_for env d) (run env evs (new_node (new_tbd_state c))).1 ≤ 1
tbd_node_broadcasts_once tbd env d evs c same fresh =
    let spent =
      run-spends env d (tbd_addon-IsQuiet tbd env d same) evs (new_node (new_tbd_state c)) fresh in
    ground arith
