-- ===== src/Config/Addresses.antt =====
-- config/internal_config.go: which address each node has.
use mathlib.Core.Path.{subst}
use mathlib.Core.Option.{some-injective}
use blockchain_simulator.Base.{
  ℕ, zero, suc, ◌+◌, ◌*◌, ◌≤◌, ◌<◌, ◌≡◌, ◌≢◌, refl, ap, ◌∙◌, sym, ◌↔◌, ◌&&◌, false, [], ◌∷◌, some,
  Map, lookup, insert, lookup-insert, lookup-insert_self, Bool-cases, inl, inr, if◌then◌else◌,
  ◌>>=◌, >>=_some, leb, ltb, arith, nat_eq, nat_beq,
}
use blockchain_simulator.Config.{
  IpConfig, IpMap, node_ip, address, fill_shard, fill_shards, shard_of, init_config,
}

module _ {Host Addr : Type 0} (c : IpConfig Host Addr) where
  -- A filled shard has the addresses of its nodes; other nodes are as before.
  fill_shard-lookup :
      (i n j : ℕ) (m : Map ℕ Addr) {m' : Map ℕ Addr} (k : ℕ)
      → fill_shard c i n j m ≡ some m'
      → lookup k m' ≡ (if leb j k && ltb k (j + n) then address c i k else lookup k m)
  unfolding fill_shard
  fill_shard-lookup i zero j m k h = ground arith
  fill_shard-lookup i (suc n) j m k h =
      let (a, is, rest) =
        >>=_some (address c i j) (λ a. fill_shard c i n (suc j) (insert j a m)) h in
      let later = fill_shard-lookup i n (suc j) (insert j a m) k rest in
      ground (arith, is, later, lookup-insert j k a m)

  -- Shards below the first one that is filled are kept.
  fill_shards-same :
      (n i : ℕ) (m : IpMap Addr) {m' : IpMap Addr} (s : ℕ)
      → fill_shards c n i m ≡ some m'
      → s < i
      → lookup s m' ≡ lookup s m
  unfolding fill_shards
  fill_shards-same zero i m s h below = ground (arith, h)
  fill_shards-same (suc n) i m s h below =
      let (ips, is, rest) =
        >>=_some (fill_shard c i c.node_num 0 (shard_of c i m))
          (λ ips. fill_shards c n (suc i) (insert i ips m)) h in
      let later = fill_shards-same n (suc i) (insert i ips m) s rest (omega arith) in
      ground (arith, later, lookup-insert i s ips m)

  fill_shards-lookup :
      (n i : ℕ) (m : IpMap Addr) {m' : IpMap Addr} (s k : ℕ)
      → fill_shards c n i m ≡ some m'
      → k < c.node_num
      → i ≤ s
      → s < i + n
      → node_ip m' s k ≡ address c s k
  unfolding fill_shards
  fill_shards-lookup zero i m s k h node from to = absurd (omega arith)
  fill_shards-lookup (suc n) i m {m'} s k h node from to =
      let (ips, is, rest) =
        >>=_some (fill_shard c i c.node_num 0 (shard_of c i m))
          (λ ips. fill_shards c n (suc i) (insert i ips m)) h in
      elim (Bool-cases (nat_beq i s)) [
        | inl same ↦
            let i≡s : i ≡ s = ground (arith, same) in
            let kept = fill_shards-same n (suc i) (insert i ips m) i rest (omega arith) in
            let now : lookup i m' ≡ some ips = kept ∙ lookup-insert_self i ips m in
            let mine = fill_shard-lookup i c.node_num 0 (shard_of c i m) k is in
            let got : lookup k ips ≡ address c i k = ground (arith, mine) in
            subst (λ t. node_ip m' t k ≡ address c t k) i≡s (ap (λ o. o >>= lookup k) now ∙ got)
        | inr other ↦
            fill_shards-lookup n (suc i) (insert i ips m) s k rest node (ground (arith, other))
              (omega arith)
      ]

  -- With the nodes on one host there is no index to go out of range.
  fill_shard-ends :
      (i n j : ℕ) (m : Map ℕ Addr)
      → c.is_distributed ≡ false
      → (m' : Map ℕ Addr) × (fill_shard c i n j m ≡ some m')
  unfolding fill_shard address
  fill_shard-ends i zero j m here = (m, refl)
  fill_shard-ends i (suc n) j m here =
      let (m', is) =
        fill_shard-ends i n (suc j)
          (insert j (c.host_port c.localhost (c.start_port + 100 * i + j)) m) here in
      (m', rw (here, fill_shard) is)

  fill_shards-ends :
      (n i : ℕ) (m : IpMap Addr)
      → c.is_distributed ≡ false
      → (m' : IpMap Addr) × (fill_shards c n i m ≡ some m')
  unfolding fill_shards
  fill_shards-ends zero i m here = (m, refl)
  fill_shards-ends (suc n) i m here =
      let (ips, is) = fill_shard-ends i c.node_num 0 (shard_of c i m) here in
      let (m', rest) = fill_shards-ends n (suc i) (insert i ips m) here in
      (m', rw (is, fill_shards) rest)

  -- Whatever the map had before, a node has the address that InitConfig computed for it, unless the
  -- shard is the client's.
  init_config-lookup :
      (m : IpMap Addr) {m' : IpMap Addr} (s k : ℕ)
      → init_config c m ≡ some m'
      → s < c.shard_num
      → k < c.node_num
      → s ≢ c.client_shard
      → node_ip m' s k ≡ address c s k
  unfolding init_config
  init_config-lookup m {m'} s k h shard node other =
      let (filled, is, last) = >>=_some (fill_shards c c.shard_num 0 m) _ h in
      let got = fill_shards-lookup c.shard_num 0 m s k is node (omega arith) (omega arith) in
      let kept : lookup s m' ≡ lookup s filled =
        ground
          (arith, last, other, lookup-insert c.client_shard s ((0, c.client_addr) ∷ []) filled) in
      ap (λ o. o >>= lookup k) kept ∙ got

  -- Not distributed, with up to 100 nodes in a shard and a client's shard that is no shard of nodes,
  -- and with different ports in different addresses: InitConfig ends, gives each node of each
  -- shard the port that its numbers stand for, and two nodes have one address only if they are the
  -- same node of the same shard.
  pub init_config_distinct :
      (m : IpMap Addr) (s k s' k' : ℕ)
      → c.is_distributed ≡ false
      → c.node_num ≤ 100
      → c.shard_num ≤ c.client_shard
      → ((p q : ℕ) → c.host_port c.localhost p ≡ c.host_port c.localhost q → p ≡ q)
      → s < c.shard_num
      → k < c.node_num
      → s' < c.shard_num
      → k' < c.node_num
      → (m' : IpMap Addr) × (init_config c m ≡ some m')
        × (node_ip m' s k ≡ some (c.host_port c.localhost (c.start_port + 100 * s + k)))
        × ((node_ip m' s k ≡ node_ip m' s' k') ↔ ((s ≡ s') × (k ≡ k')))
  unfolding init_config address
  init_config_distinct m s k s' k' here few client ports shard node shard' node' =
      let (filled, is) = fill_shards-ends c.shard_num 0 m here in
      let m' = insert c.client_shard ((0, c.client_addr) ∷ []) filled in
      let ends : init_config c m ≡ some m' = rw (is, init_config) refl in
      let one : node_ip m' s k ≡ some (c.host_port c.localhost (c.start_port + 100 * s + k)) =
        init_config-lookup m s k ends shard node (ground arith) ∙ rw (here, address) refl in
      let two : node_ip m' s' k' ≡ some (c.host_port c.localhost (c.start_port + 100 * s' + k')) =
        init_config-lookup m s' k' ends shard' node' (ground arith) ∙ rw (here, address) refl in
      (
        m',
        ends,
        one,
        (
          (λ same.
              let p =
                ports (c.start_port + 100 * s + k) (c.start_port + 100 * s' + k')
                  (some-injective _ _ (sym one ∙ same ∙ two)) in
              (omega arith, omega arith)),
          (λ is. ap (λ t. node_ip m' t k) is.0 ∙ ap (node_ip m' s') is.1),
        ),
      )
