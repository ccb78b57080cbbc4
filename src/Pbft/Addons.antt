-- ===== src/Pbft/Addons.antt =====
-- pbft/addon_simple.go and pbft/addon_tbd.go, the two addons, as instances of the interface of
-- pbft/addon_interface.go. The chain is an interface: `update_states` and `commit_block` stand for
-- the calls of blockchain/stateManager.go and blockchain/blockchain.go.
pub mod Turns
use blockchain_simulator.Base.{
  ℕ, Bool, true, false, List, [], ◌∷◌, Option, none, some, Bytes, if◌then◌else◌,
}
use blockchain_simulator.Message.{Message, Request, msg_reply}
use blockchain_simulator.P2p.{Effect, sends}
use blockchain_simulator.Pbft.Defs.{PbftAddon}

unfoldable pub simple_addon : {S Addr X : Type 0} → PbftAddon S Addr X
simple_addon = record {
  handle_propose_addon = λ x req. (x, true);
  handle_pre_prepare_addon = λ x req. (x, true);
  handle_prepare_addon = λ x req. some (x, true);
  handle_commit_addon = λ x req n. some (x, true, []);
}

-- What the addon needs of the node: its chain `C` with blocks `B`, whether it is the view node, the
-- client's address, and the reply for a request and a length of the queue.
pub record TbdEnv (S Addr C B : Type 0) : Type 0 where
  pub decode_block : Bytes → Option B
  pub update_states : B → C → C
  pub commit_block : B → C → C
  pub is_view_node : Bool
  pub client_addr : Addr
  pub encode_reply : Request S → (queue_len : ℕ) → Bytes

pub record TbdState (C : Type 0) : Type 0 where
  pub chain : C
  pub state_update_done : Bool

abbrev pub new_tbd_state : {C : Type 0} → C → TbdState C
new_tbd_state c = record { chain = c; state_update_done = false }

module _ {S Addr C B : Type 0} (env : TbdEnv S Addr C B) where
  -- A wrong height or a wrong transaction root is only logged.
  unfoldable pub tbd_pre_prepare : TbdState C → Request S → TbdState C × Bool
  tbd_pre_prepare x req = elim (env.decode_block req.content) [
    | none ↦ (x, false)
    | some b ↦ (record { chain = env.update_states b x.chain; state_update_done = true }, true)
  ]

  unfoldable pub tbd_prepare : TbdState C → Request S → Option (TbdState C × Bool)
  tbd_prepare x req = if x.state_update_done then some (x, true) else none

  unfoldable pub tbd_commit :
      TbdState C → Request S → ℕ → Option (TbdState C × Bool × List (Effect Addr))
  tbd_commit x req queue_len =
      let reply : Message = record {
        msg_type = msg_reply;
        content = env.encode_reply req queue_len;
      } in
      let done : Option (TbdState C × Bool × List (Effect Addr)) =
        elim (env.decode_block req.content) [
          | none ↦ some (x, false, [])
          | some b ↦ some (
            record { chain = env.commit_block b x.chain; state_update_done = false },
            true,
            if env.is_view_node then sends env.client_addr reply ∷ [] else [],
          )
        ] in
      if x.state_update_done then done else none

  unfoldable pub tbd_addon : PbftAddon S Addr (TbdState C)
  tbd_addon = record {
    handle_propose_addon = λ x req. (x, true);
    handle_pre_prepare_addon = tbd_pre_prepare;
    handle_prepare_addon = tbd_prepare;
    handle_commit_addon = tbd_commit;
  }
