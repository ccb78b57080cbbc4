-- ===== src/Pbft/Quorum.antt =====
-- How many messages a PBFT node needs, and that the needed ones are enough.
pub mod Counts
use Prim.Native.Nat.{max, min}
use blockchain_simulator.Base.{
  ℕ, ◌+◌, ◌-◌, ◌*◌, ◌%◌, ◌≤◌, ◌<◌, ◌≡◌, refl, Bool, true, false, List, [], ◌∷◌, ◌++◌, Option, none,
  some, Bytes, Eq, ◌==◌, bytes_eq, if◌then◌else◌, arith, count, count-append, length, All, leb,
  nat_beq, ◌↔◌, Bool-cases, inl, inr,
}
use blockchain_simulator.Message.{Message}
use blockchain_simulator.P2p.{Effect}
use blockchain_simulator.Pbft.Defs.{
  PbftMessage, PbftEnv, PbftMod, max_malicious, is_commit_broadcasted,
}
use blockchain_simulator.Pbft.Handlers.{need_cnt, prepare_counted}
use blockchain_simulator.Pbft.Once.{commit_for}
use blockchain_simulator.Pbft.Quorum.Counts.{
  prepares_for, prepare_counted-first, prepare_counted-later,
}

module _ {S Addr X : Type 0} ⦃e : Eq Addr⦄ (env : PbftEnv S Addr X) where
  -- Prepare messages that pass the round check and the addon, one after the other.
  unfoldable pub prepare_all : List (PbftMessage S) → PbftMod S X → PbftMod S X × List (Effect Addr)
  prepare_all [] s = (s, [])
  prepare_all (m ∷ ms) s =
      let (s', sent) = prepare_counted env m s in
      let (s'', later) = prepare_all ms s' in (s'', sent ++ later)

  prepare_all-later :
      (d : Bytes) (ms : List (PbftMessage S)) (s : PbftMod S X)
      → All (λ m. m.request.digest ≡ d) ms
      → is_commit_broadcasted d s ≡ true
      → prepare_all ms s ≡ (s, [])
  unfolding prepare_all
  prepare_all-later d [] s same up = refl
  prepare_all-later d (m ∷ ms) s same up =
      let once = prepare_counted-later env m s (rw same.0 up) in
      ground (arith, prepare_all-later d ms s same.1 up)

  -- The prepare message that makes the needed count, the first where none is needed.
  abbrev pub quorum_cnt : ℕ
  quorum_cnt = max 1 (need_cnt env)

  -- Prepare messages for one request whose commit message is not out, with fewer counted so far
  -- than are needed: the counter stops at the needed number, the commit message goes out exactly
  -- when that number is reached, and exactly once however many messages follow.
  pub prepare_all_correct :
      (d : Bytes) (ms : List (PbftMessage S)) (s : PbftMod S X)
      → All (λ m. m.request.digest ≡ d) ms
      → is_commit_broadcasted d s ≡ false
      → prepares_for d s < quorum_cnt
      → let (s', sent) = prepare_all ms s in
        let total = prepares_for d s + length ms in
        (prepares_for d s' ≡ min quorum_cnt total)
        × (is_commit_broadcasted d s' ≡ leb quorum_cnt total)
        × (count (commit_for env d) sent ≡ (if leb quorum_cnt total then 1 else 0))
  unfolding prepare_all
  prepare_all_correct d [] s same down few = ground arith
  prepare_all_correct d (m ∷ ms) s same down few =
      let first = prepare_counted-first env m s (rw same.0 down) in
      let s' = (prepare_counted env m s).0 in
      let sent = (prepare_counted env m s).1 in
      let later = (prepare_all ms s').1 in
      let at_d = rw same.0 at first in
      let split = count-append (commit_for env d) sent later in
      elim (Bool-cases (leb (need_cnt env) (prepares_for d s + 1))) [
        | inl enough ↦
            let up : is_commit_broadcasted d s' ≡ true = ground arith in
            ground (arith, prepare_all-later d ms s' same.1 up)
        | inr more ↦
            let down' : is_commit_broadcasted d s' ≡ false = ground arith in
            let few' : prepares_for d s' < quorum_cnt = ground arith in
            ground (arith, prepare_all_correct d ms s' same.1 down' few')
      ]
