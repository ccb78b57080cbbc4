-- ===== src/Config.antt =====
-- config/internal_config.go: the addresses of the nodes. Counts and ports are not negative: a loop
-- up to a negative number does nothing, as with 0. `host_port` stands for the host, ":" and
-- strconv.Itoa of the port in one string.
pub mod Addresses
use blockchain_simulator.Base.{
  ℕ, zero, suc, ◌+◌, ◌*◌, Bool, List, [], ◌∷◌, ◌++◌, Option, none, some, Map, lookup, insert,
  get_elem?, nat_eq, if◌then◌else◌, ◌>>=◌,
}

-- What InitConfig reads of the arguments and of the settings.
pub record IpConfig (Host Addr : Type 0) : Type 0 where
  pub node_num : ℕ
  pub shard_num : ℕ
  pub is_distributed : Bool
  pub start_port : ℕ
  pub client_shard : ℕ
  pub client_addr : Addr
  pub node_per_server : ℕ
  pub server_addrs : List Host
  pub localhost : Host
  pub host_port : Host → ℕ → Addr

-- IPMap[shardID][nodeID].
abbrev pub IpMap : Type 0 → Type 0
IpMap Addr = Map ℕ (Map ℕ Addr)

-- The address that the map has for a node.
abbrev pub node_ip : {Addr : Type 0} → IpMap Addr → ℕ → ℕ → Option Addr
node_ip m i j = lookup i m >>= lookup j

module _ {Host Addr : Type 0} (c : IpConfig Host Addr) where
  unfoldable pub ips_from : (host : Host) (count j : ℕ) → List Addr
  ips_from host zero j = []
  ips_from host (suc n) j = c.host_port host (c.start_port + j) ∷ ips_from host n (suc j)

  unfoldable pub ip_list : List Host → List Addr
  ip_list [] = []
  ip_list (host ∷ hosts) = ips_from host c.node_per_server 0 ++ ip_list hosts

  -- `none` is an index out of the range of the list, a panic.
  unfoldable pub address : (i j : ℕ) → Option Addr
  address i j =
      if c.is_distributed
      then get_elem? (ip_list c.server_addrs) (i * c.node_num + j)
      else some (c.host_port c.localhost (c.start_port + 100 * i + j))

  unfoldable pub fill_shard : (i count j : ℕ) → Map ℕ Addr → Option (Map ℕ Addr)
  fill_shard i zero j m = some m
  fill_shard i (suc n) j m = address i j >>= λ a. fill_shard i n (suc j) (insert j a m)

  -- A shard that the map does not have yet begins empty.
  abbrev pub shard_of : ℕ → IpMap Addr → Map ℕ Addr
  shard_of i m = elim (lookup i m) [ none ↦ [] | some ips ↦ ips ]

  unfoldable pub fill_shards : (count i : ℕ) → IpMap Addr → Option (IpMap Addr)
  fill_shards zero i m = some m
  fill_shards (suc n) i m =
      fill_shard i c.node_num 0 (shard_of i m) >>= λ ips. fill_shards n (suc i) (insert i ips m)

  unfoldable pub init_config : IpMap Addr → Option (IpMap Addr)
  init_config m = fill_shards c.shard_num 0 m >>= λ m'.
      some (insert c.client_shard ((0, c.client_addr) ∷ []) m')
