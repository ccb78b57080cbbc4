-- ===== src/Structs/State.antt =====
-- structs/state_interface.go and structs/state_contract.go. The delay of `Update`, which only
-- sleeps, is not modelled.
use blockchain_simulator.Base.{Bool, true, List, Bytes, Map}
use blockchain_simulator.Structs.Account.{AccountState}
use blockchain_simulator.Structs.Account as Account
use blockchain_simulator.Structs.Transaction.{Address}

pub record ContractState : Type 0 where
  pub addr : Address
  pub related_contract : List Address
  pub is_cross_shard : Bool
  pub variables : Map Bytes Bytes
  pub backup_variablesmap : Map Bytes Bytes

-- What the interface `State` holds.
pub data State : Type 0 where
  account_state : AccountState → State
  contract_state : ContractState → State

unfoldable pub get_key : State → Bytes
get_key (account_state s) = s.ac_address
get_key (contract_state s) = s.addr

-- Neither `Update` reads its transaction.
unfoldable pub update_state : {Tx : Type 0} → Tx → State → State × Bool
update_state tx s = (s, true)

unfoldable pub commit_state : State → State
commit_state (account_state s) = account_state (Account.commit s)
commit_state (contract_state s) = contract_state (record s { backup_variablesmap = s.variables })

unfoldable pub rollback_state : State → State
rollback_state (account_state s) = account_state (Account.rollback s)
rollback_state (contract_state s) = contract_state (record s { variables = s.backup_variablesmap })
