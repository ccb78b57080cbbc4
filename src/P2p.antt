-- ===== src/P2p.antt =====
-- node/p2p: who a broadcast reaches, and which handler a message is given to. Sockets are left
-- out: an `Effect` is a call of ConnMananger's Send or Broadcast.
pub mod Connections
pub mod Lost
use blockchain_simulator.Base.{List, [], ◌∷◌, Eq, ◌==◌, if◌then◌else◌}
use blockchain_simulator.Message.{Message}

-- What a handler sends: to one address, or to each address of a list.
pub data Effect (Addr : Type 0) : Type 0 where
  sends : Addr → Message → Effect Addr
  broadcasts : List Addr → Message → Effect Addr

module _ {Addr : Type 0} ⦃e : Eq Addr⦄ where
  -- The addresses that Broadcast sends to: all but the sender's.
  unfoldable pub recipients : Addr → List Addr → List Addr
  recipients sender [] = []
  recipients sender (addr ∷ addrs) =
      let rest = recipients sender addrs in if addr == sender then rest else addr ∷ rest

  unfoldable pub broadcast : Addr → List Addr → Message → List (Effect Addr)
  unfolding recipients
  broadcast sender addrs m = broadcasts (recipients sender addrs) m ∷ []
