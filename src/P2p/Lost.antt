-- ===== src/P2p/Lost.antt =====
-- node/p2p/connManager.go: the connections that Send takes and does not put back.
use blockchain_simulator.Base.{
  ℕ, zero, suc, ◌+◌, ◌≡◌, Bool, true, List, [], ◌∷◌, some, Bytes, lookup-insert, pick, Eq, ==_refl,
  arith, All, length, Option-cases, inl, inr,
}
use blockchain_simulator.P2p.Connections.{ConnMananger, Luck, pool_get, get_pool, send, send_all}

length-pick :
    {A : Type 0} (i : ℕ) (xs ys : List A) (x : A)
    → pick i xs ≡ some (x, ys)
    → length xs ≡ suc (length ys)
unfolding pick
length-pick i [] ys x h = ground arith
length-pick zero (y ∷ xs) ys x h = ground arith
length-pick (suc i) (y ∷ xs) ys x h = elim (Option-cases (pick i xs)) [
  | inl is ↦ ground (arith, h, is)
  | inr ((z, zs), is) ↦ ground (arith, h, is, length-pick i xs zs z is)
]

-- Get, where dials work: it gives one connection, of the pool or a new one.
pool_get_one :
    (take : ℕ) (dials : Bool) (pool : List ℕ) (dialed : ℕ)
    → dials ≡ true
    → let r = pool_get take dials pool dialed in
      (length pool + r.2 ≡ length r.1 + dialed + 1) × ((c : ℕ) × (r.0 ≡ some c))
unfolding pool_get
pool_get_one take dials pool dialed works = elim (Option-cases (pick take pool)) [
  | inl is ↦ (ground (arith, is, works), (dialed, ground (arith, is, works)))
  | inr ((c, rest), is) ↦
      (ground (arith, is, length-pick take pool rest c is), (c, ground (arith, is)))
]

module _ {Addr : Type 0} ⦃e : Eq Addr⦄ where
  -- Both dials of a Send to this address would work.
  abbrev pub Dials : Addr → Addr × Bytes × Luck → Type 0
  Dials addr x = (x.0 ≡ addr) × (x.2.first_dial ≡ true) × (x.2.second_dial ≡ true)

  send_loses :
      (addr : Addr) (context : Bytes) (luck : Luck) (s : ConnMananger Addr)
      → luck.first_dial ≡ true
      → luck.second_dial ≡ true
      → let t = send addr context luck s in
        length (get_pool addr s) + t.dialed ≡ length (get_pool addr t) + s.dialed + 1
  unfolding send get_pool
  send_loses addr context luck s one two =
      let r1 = pool_get luck.first_take luck.first_dial (get_pool addr s) s.dialed in
      let r2 = pool_get luck.second_take luck.second_dial r1.1 r1.2 in
      let (len1, (c1, is1)) =
        pool_get_one luck.first_take luck.first_dial (get_pool addr s) s.dialed one in
      let (len2, (c2, is2)) = pool_get_one luck.second_take luck.second_dial r1.1 r1.2 two in
      ground (
        arith,
        is1,
        is2,
        len1,
        len2,
        lookup-insert addr addr (c2 ∷ r2.1) s.conn_pools,
        ==_refl addr,
      )

  -- Sends to one address, one after another, whose dials work, whatever writes fail and whatever
  -- Get gives, something of the pool or a new connection: the connections that stood in the pool of
  -- the address or were dialed since are as many as those in it at the end and one more for each
  -- send, so that each send costs one connection for good.
  pub send_all-loses :
      (addr : Addr) (sent : List (Addr × Bytes × Luck)) (s : ConnMananger Addr)
      → All (Dials addr) sent
      → let t = send_all sent s in
        length (get_pool addr s) + t.dialed ≡ length (get_pool addr t) + s.dialed + length sent
  unfolding send_all
  send_all-loses addr [] s dials = omega arith
  send_all-loses addr ((a, context, luck) ∷ rest) s ((same, one, two), later) = rw same (
      omega (
        arith,
        send_loses addr context luck s one two,
        send_all-loses addr rest (send addr context luck s) later,
      ))
