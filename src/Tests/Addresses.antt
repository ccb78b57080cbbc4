-- ===== src/Tests/Addresses.antt =====
-- InitConfig on one host.
use blockchain_simulator.Base.{ℕ, ◌+◌, ◌*◌, ◌≡◌, ◌↔◌, refl, ap, false, [], some, arith}
use blockchain_simulator.Config.{IpConfig, IpMap, node_ip, init_config}
use blockchain_simulator.Config.Addresses.{init_config_distinct}

abbrev two_shards : IpConfig ℕ (ℕ × ℕ)
two_shards = record {
  node_num = 4;
  shard_num = 2;
  is_distributed = false;
  start_port = 28800;
  client_shard = 268435455;
  client_addr = (127, 23333);
  node_per_server = 40;
  server_addrs = [];
  localhost = 127;
  host_port = λ host port. (host, port);
}

init_config_distinct_example :
    (m : IpMap (ℕ × ℕ)) × (init_config two_shards [] ≡ some m)
    × (node_ip m 1 2 ≡ some (127, 28800 + 100 * 1 + 2))
    × ((node_ip m 1 2 ≡ node_ip m 0 3) ↔ (◌≡◌ {A = ℕ} 1 0 × ◌≡◌ {A = ℕ} 2 3))
init_config_distinct_example =
    init_config_distinct two_shards [] 1 2 0 3 refl (omega arith) (omega arith)
      (λ p q same. ap (λ a. a.1) same) (omega arith) (omega arith) (omega arith) (omega arith)
