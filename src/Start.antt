-- ===== src/Start.antt =====
-- protocols.go, the choice in main.go, the table of addons in pbft/addon_interface.go,
-- node/node.go, node/runningMod/runningModRegister.go and the table of handlers of
-- node/p2p/p2p.go: which modules a node runs, and which module handles a message that arrives. The names of modules and methods, texts in the source, are constructors.
pub mod Routes
use blockchain_simulator.Base.{
  ℕ, Bool, true, false, List, [], ◌∷◌, Option, none, some, Map, lookup, insert, if◌then◌else◌,
  ◌>>=◌, nat_beq,
}
use blockchain_simulator.Message.{
  MessageType, MessageType-eq, msg_init, msg_stop, msg_inject, msg_reply, msg_query,
  msg_reply_query, msg_propose, msg_pre_prepare, msg_prepare, msg_commit, msg_forward, msg_forward1,
  msg_forward2, msg_vote, msg_qc, msg_consensus_done,
}

pub data ModName : Type 0 where
  pbft_mod hot_stuff_mod tbb_mod ds_mod : ModName
  test_auxiliary_mod propose_txs_mod propose_block_mod propose_string_mod : ModName
  test_mod start_local_system_mod stop_system_mod measure_mod query_mod query_tbb_mod : ModName
  send_mimic_contract_txs_mod send_mimic_account_txs_mod send_string_manual_mod : ModName

-- `monoxide` stands for a name that the table of protocols does not have.
pub data Method : Type 0 where
  test simple classic_pbft tbd_protocol tbb_protocol dolev_strong monoxide : Method

pub record ProtocolMods : Type 0 where
  pub client_mods : List ModName
  pub node_mods : List ModName
  pub view_node_mods : List ModName

unfoldable pub predefined_protocol_mods : Method → Option ProtocolMods
predefined_protocol_mods test = some (record {
  client_mods = test_auxiliary_mod ∷ [];
  node_mods = test_auxiliary_mod ∷ [];
  view_node_mods = test_auxiliary_mod ∷ [];
})
predefined_protocol_mods simple = some (record {
  client_mods = start_local_system_mod ∷ stop_system_mod ∷ send_mimic_account_txs_mod ∷ [];
  node_mods = pbft_mod ∷ [];
  view_node_mods = pbft_mod ∷ propose_block_mod ∷ [];
})
predefined_protocol_mods classic_pbft = some (record {
  client_mods = start_local_system_mod ∷ stop_system_mod ∷ measure_mod ∷ test_mod ∷ [];
  node_mods = pbft_mod ∷ [];
  view_node_mods = pbft_mod ∷ propose_block_mod ∷ [];
})
predefined_protocol_mods tbd_protocol = some (record {
  client_mods =
      start_local_system_mod ∷ stop_system_mod ∷ measure_mod ∷ send_mimic_contract_txs_mod ∷ [];
  node_mods = pbft_mod ∷ [];
  view_node_mods = pbft_mod ∷ propose_block_mod ∷ [];
})
predefined_protocol_mods tbb_protocol = some (record {
  client_mods =
      start_local_system_mod ∷ stop_system_mod ∷ send_string_manual_mod ∷ query_tbb_mod ∷ [];
  node_mods = tbb_mod ∷ [];
  view_node_mods = tbb_mod ∷ propose_string_mod ∷ [];
})
predefined_protocol_mods dolev_strong = some (record {
  client_mods = start_local_system_mod ∷ stop_system_mod ∷ send_string_manual_mod ∷ query_mod ∷ [];
  node_mods = ds_mod ∷ [];
  view_node_mods = ds_mod ∷ propose_string_mod ∷ [];
})
predefined_protocol_mods monoxide = none

-- pbft/addon_interface.go: the methods for which NewPbftAddon has an addon.
unfoldable pub has_addon : Method → Bool
has_addon test = true
has_addon simple = true
has_addon tbd_protocol = true
has_addon method = false

-- NewRunningMod with the constructor that the registry has for a name. `none` is a nil module, or
-- a panic: NewPbftCosensusMod panics if there is no addon for the method.
unfoldable pub new_running_mod : Method → ModName → Option ModName
new_running_mod method hot_stuff_mod = none
new_running_mod method pbft_mod = if has_addon method then some pbft_mod else none
new_running_mod method m = some m

-- RegisterHandlers of each module: the types of messages, in order.
unfoldable pub registered_types : ModName → List MessageType
registered_types pbft_mod = msg_propose ∷ msg_pre_prepare ∷ msg_prepare ∷ msg_commit ∷ []
registered_types tbb_mod =
    msg_init ∷ msg_propose ∷ msg_forward ∷ msg_forward1 ∷ msg_forward2 ∷ msg_vote ∷ msg_qc
    ∷ msg_query ∷ []
registered_types ds_mod = msg_init ∷ msg_propose ∷ msg_forward ∷ msg_query ∷ []
registered_types propose_txs_mod = msg_inject ∷ []
registered_types propose_block_mod = msg_inject ∷ []
registered_types propose_string_mod = msg_inject ∷ msg_consensus_done ∷ []
registered_types measure_mod = msg_reply ∷ []
registered_types query_mod = msg_init ∷ msg_reply_query ∷ []
registered_types query_tbb_mod = msg_init ∷ msg_reply_query ∷ []
registered_types m = []

-- Whose handler an entry of MsgHandlerMap is: a module's, or the one that Run of the node adds.
pub data Owner : Type 0 where
  module_of : ModName → Owner
  node_stops : Owner

abbrev pub HandlerMap : Type 0
HandlerMap = Map MessageType Owner

-- RegisterHandler.
abbrev pub register_handler : ModName → MessageType → HandlerMap → HandlerMap
register_handler m t handlers = insert t (module_of m) handlers

unfoldable pub register_all : ModName → List MessageType → HandlerMap → HandlerMap
register_all m [] handlers = handlers
register_all m (t ∷ ts) handlers = register_all m ts (register_handler m t handlers)

-- NewNode: every module is made before the first one registers; one that cannot be made is an
-- error, and no node.
unfoldable pub new_mods : Method → List ModName → Option (List ModName)
new_mods method [] = some []
new_mods method (n ∷ ns) =
    new_running_mod method n >>= λ m. new_mods method ns >>= λ ms. some (m ∷ ms)

unfoldable pub register_mods : List ModName → HandlerMap → HandlerMap
register_mods [] handlers = handlers
register_mods (m ∷ ms) handlers = register_mods ms (register_all m (registered_types m) handlers)

unfoldable pub new_node : Method → List ModName → Option HandlerMap
new_node method names = new_mods method names >>= λ mods. some (register_mods mods [])

-- The part of Run before the node listens.
unfoldable pub run : HandlerMap → HandlerMap
run handlers = insert msg_stop node_stops handlers

pub data Role : Type 0 where
  client view_node other_node : Role

-- main: the client is tested for first, then the view node.
unfoldable pub role_of : (is_client : Bool) → (node_id view_node_id : ℕ) → Role
role_of is_client node_id view_node_id =
    if is_client then client else if nat_beq node_id view_node_id then view_node else other_node

unfoldable pub mods_of : Role → ProtocolMods → List ModName
mods_of client p = p.client_mods
mods_of view_node p = p.view_node_mods
mods_of other_node p = p.node_mods

-- The handlers of a node that main starts; `none`: main ends with an error or a panic.
unfoldable pub start : Method → Role → Option HandlerMap
start method role =
    predefined_protocol_mods method >>= λ p. new_node method (mods_of role p) >>= λ h. some (run h)

-- handleConnection: the handler of a message's type, if there is one; else it is only logged.
unfoldable pub handler_of : Method → Role → MessageType → Option Owner
handler_of method role t = start method role >>= λ h. lookup t h
