-- ===== src/P2p/Connections.antt =====
-- node/p2p/connManager.go: getPool and Send. A connection is the number of its dial. sync.Pool is
-- not code of the repository: Get may return anything that was put and not taken since, or nothing
-- of it, and then calls New. So every Get is given an index into what the pool holds, and an index
-- out of range is a Get that does not look there. The sends to one manager run one after another.
use blockchain_simulator.Base.{
  ℕ, ◌+◌, Bool, List, [], ◌∷◌, Option, none, some, Bytes, Map, lookup, insert, pick, Eq,
  if◌then◌else◌,
}

-- A message that was written, and the connection that it was written to.
pub record Written (Addr : Type 0) : Type 0 where
  pub conn : ℕ
  pub addr : Addr
  pub context : Bytes

-- `written` and `closed` are histories that Send does not read; `dialed` is the number of
-- connections that were made.
pub record ConnMananger (Addr : Type 0) : Type 0 where
  pub conn_pools : Map Addr (List ℕ)
  pub dialed : ℕ
  pub written : List (Written Addr)
  pub closed : List ℕ

-- What the two calls of Get take, whether a dial in each of them works, and whether the write does.
pub record Luck : Type 0 where
  pub first_take : ℕ
  pub second_take : ℕ
  pub first_dial : Bool
  pub second_dial : Bool
  pub writes : Bool

-- Get: what it returns, what the pool holds then, and the number of dials.
unfoldable pub pool_get : (take : ℕ) (dials : Bool) → List ℕ → ℕ → Option ℕ × List ℕ × ℕ
pool_get take dials pool dialed = elim (pick take pool) [
  | none ↦ if dials then (some dialed, pool, dialed + 1) else (none, pool, dialed)
  | some (conn, rest) ↦ (some conn, rest, dialed)
]

module _ {Addr : Type 0} ⦃e : Eq Addr⦄ where
  -- A pool that is not there yet is made empty.
  unfoldable pub get_pool : Addr → ConnMananger Addr → List ℕ
  get_pool addr s = elim (lookup addr s.conn_pools) [ none ↦ [] | some pool ↦ pool ]

  abbrev pub with_pool : Addr → List ℕ → ℕ → ConnMananger Addr → ConnMananger Addr
  with_pool addr pool dialed s = record s {
    conn_pools = insert addr pool s.conn_pools;
    dialed = dialed;
  }

  -- The second Get is the connection that is written to and put back, also when the write failed
  -- and it was closed. The first is only tested for nil.
  unfoldable pub send : Addr → Bytes → Luck → ConnMananger Addr → ConnMananger Addr
  unfolding get_pool pool_get
  send addr context luck s =
      let (first, pool1, dialed1) =
        pool_get luck.first_take luck.first_dial (get_pool addr s) s.dialed in
      let (second, pool2, dialed2) = pool_get luck.second_take luck.second_dial pool1 dialed1 in
      elim first [
        | none ↦ with_pool addr pool1 dialed1 s
        | some _ ↦ elim second [
          | none ↦ with_pool addr pool2 dialed2 s
          | some conn ↦
              let s' = with_pool addr (conn ∷ pool2) dialed2 s in
              if luck.writes
              then record s' {
                written = record { conn = conn; addr = addr; context = context } ∷ s.written;
              }
              else record s' { closed = conn ∷ s.closed }
        ]
      ]

  unfoldable pub send_all : List (Addr × Bytes × Luck) → ConnMananger Addr → ConnMananger Addr
  send_all [] s = s
  send_all ((addr, context, luck) ∷ rest) s = send_all rest (send addr context luck s)
