-- ===== src/Pbft/Threads.antt =====
-- Two handlers of a PBFT node in two goroutines. A goroutine moves from one lock, or one call of
-- the addon, to the next; between two moves of one the other may move.
pub mod Race
use blockchain_simulator.Base.{
  ℕ, ◌*◌, Bool, true, false, not, ◌&&◌, List, [], ◌∷◌, ◌++◌, Option, none, some, Bytes, Eq, leb,
  if◌then◌else◌,
}
use blockchain_simulator.P2p.{Effect}
use blockchain_simulator.Pbft.Defs.{
  PbftMessage, PbftEnv, PbftMod, is_commit_broadcasted, is_reply_sent, set_reply_sent,
}
use blockchain_simulator.Pbft.Handlers.{
  Outcome, returns, commits, waits, tally_prepare, prepare_quorum, tally_commit, commit_addon,
}

-- Where a goroutine stands, with its local variables: in handlePrepare behind the addon's call,
-- in handleCommit behind the check of the round.
pub data Thread (S : Type 0) : Type 0 where
  prepare_check prepare_tally : PbftMessage S → Thread S
  prepare_decide : PbftMessage S → (cnt : ℕ) → Thread S
  commit_check : PbftMessage S → Thread S
  commit_tally : PbftMessage S → (replied : Bool) → Thread S
  commit_decide : PbftMessage S → (replied : Bool) → (cnt : ℕ) → Thread S
  commit_call : PbftMessage S → Thread S
  finished : Thread S

-- What a move leaves: where the goroutine stands, the shared state, what was sent, and the digests
-- that the addon committed.
pub record Moved (S Addr X : Type 0) : Type 0 where
  pub thread : Thread S
  pub state : PbftMod S X
  pub sent : List (Effect Addr)
  pub done : List Bytes

module _ {S Addr X : Type 0} where
  abbrev pub stop : PbftMod S X → Moved S Addr X
  stop s = record { thread = finished; state = s; sent = []; done = [] }

  abbrev pub goes_to : Thread S → PbftMod S X → Moved S Addr X
  goes_to t s = record { thread = t; state = s; sent = []; done = [] }

  unfoldable pub after_call : PbftMessage S → Outcome S Addr X → Moved S Addr X
  after_call m (returns s sent) = record { thread = finished; state = s; sent = sent; done = [] }
  after_call m (commits s sent d) = record {
    thread = finished;
    state = s;
    sent = sent;
    done = d ∷ [];
  }
  after_call m (waits s rest) = goes_to (commit_call m) s

module _ {S Addr X : Type 0} ⦃e : Eq Addr⦄ (env : PbftEnv S Addr X) where
  unfoldable pub advance : Thread S → PbftMod S X → Moved S Addr X
  unfolding after_call
  advance (prepare_check m) s =
      if is_commit_broadcasted m.request.digest s then stop s else goes_to (prepare_tally m) s
  advance (prepare_tally m) s =
      let (s', cnt) = tally_prepare m.request s in goes_to (prepare_decide m cnt) s'
  advance (prepare_decide m cnt) s =
      let (s', sent) = prepare_quorum env m cnt s in
      record { thread = finished; state = s'; sent = sent; done = [] }
  advance (commit_check m) s = goes_to (commit_tally m (is_reply_sent m.request.digest s)) s
  advance (commit_tally m replied) s =
      let (s', cnt) = tally_commit m.request s in goes_to (commit_decide m replied cnt) s'
  advance (commit_decide m replied cnt) s =
      if leb (2 * env.malicious_num) cnt && not replied
      then goes_to (commit_call m) (set_reply_sent m.request.digest s).0
      else stop s
  advance (commit_call m) s = after_call m (commit_addon env m s)
  advance finished s = stop s

  -- Two goroutines under a schedule: `true` moves the first, `false` the second.
  unfoldable pub both :
      List Bool → Thread S → Thread S → PbftMod S X → PbftMod S X × List (Effect Addr) × List Bytes
  unfolding advance
  both [] a b s = (s, [], [])
  both (true ∷ turns) a b s =
      let one = advance a s in
      let (s', sent, done) = both turns one.thread b one.state in
      (s', one.sent ++ sent, one.done ++ done)
  both (false ∷ turns) a b s =
      let one = advance b s in
      let (s', sent, done) = both turns a one.thread one.state in
      (s', one.sent ++ sent, one.done ++ done)
