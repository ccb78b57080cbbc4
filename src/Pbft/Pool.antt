-- ===== src/Pbft/Pool.antt =====
-- What the sections of the PBFT handlers do to the flags of the request pool.
use blockchain_simulator.Base.{
  ◌+◌, ◌≡◌, true, Bytes, lookup, insert, lookup-insert, lookup-insert_self, ◌==◌, bytes_eq,
  if◌then◌else◌, arith, bytes_beq_iff, Option-cases, inl, inr,
}
use blockchain_simulator.Message.{Request}
use blockchain_simulator.Pbft.Defs.{
  RequestInfo, new_request_info, PbftMod, is_commit_broadcasted, set_commit_broadcasted,
  is_reply_sent, set_reply_sent,
}
use blockchain_simulator.Pbft.Handlers.{info_of, tally_prepare, tally_commit}

module _ {S X : Type 0} where
  -- What a flag reads after the entry of `d'` is written.
  pub is_commit_broadcasted-insert :
      (d d' : Bytes) (info : RequestInfo S) (s : PbftMod S X)
      → is_commit_broadcasted d (record s { request_pool = insert d' info s.request_pool })
        ≡ (if d' == d then info.is_commit_broadcast else is_commit_broadcasted d s)
  unfolding is_commit_broadcasted
  is_commit_broadcasted-insert d d' info s = ground (arith, lookup-insert d' d info s.request_pool)

  pub is_reply_sent-insert :
      (d d' : Bytes) (info : RequestInfo S) (s : PbftMod S X)
      → is_reply_sent d (record s { request_pool = insert d' info s.request_pool })
        ≡ (if d' == d then info.is_reply else is_reply_sent d s)
  unfolding is_reply_sent
  is_reply_sent-insert d d' info s = ground (arith, lookup-insert d' d info s.request_pool)

  pub info_of-flags :
      (req : Request S) (s : PbftMod S X)
      → ((info_of req s).is_commit_broadcast ≡ is_commit_broadcasted req.digest s)
        × ((info_of req s).is_reply ≡ is_reply_sent req.digest s)
  unfolding info_of is_commit_broadcasted is_reply_sent new_request_info
  info_of-flags req s = ground arith

  pub tally_prepare-flags :
      (d : Bytes) (req : Request S) (s : PbftMod S X)
      → (is_commit_broadcasted d (tally_prepare req s).0 ≡ is_commit_broadcasted d s)
        × (is_reply_sent d (tally_prepare req s).0 ≡ is_reply_sent d s)
  unfolding tally_prepare
  tally_prepare-flags d req s =
      let info = info_of req s in
      let info' = record info { cnt_prepare_confirm = info.cnt_prepare_confirm + 1 } in
      ground (
        arith,
        is_commit_broadcasted-insert d req.digest info' s,
        is_reply_sent-insert d req.digest info' s,
        info_of-flags req s,
        bytes_beq_iff req.digest d,
      )

  pub tally_commit-flags :
      (d : Bytes) (req : Request S) (s : PbftMod S X)
      → (is_commit_broadcasted d (tally_commit req s).0 ≡ is_commit_broadcasted d s)
        × (is_reply_sent d (tally_commit req s).0 ≡ is_reply_sent d s)
  unfolding tally_commit
  tally_commit-flags d req s =
      let info = info_of req s in
      let info' = record info { cnt_commit_confirm = info.cnt_commit_confirm + 1 } in
      ground (
        arith,
        is_commit_broadcasted-insert d req.digest info' s,
        is_reply_sent-insert d req.digest info' s,
        info_of-flags req s,
        bytes_beq_iff req.digest d,
      )

  -- Raising a flag of `d'` is seen at `d'` only; the other flag stays.
  pub set_commit_broadcasted-flags :
      (d d' : Bytes) (s : PbftMod S X)
      → let (s', found) = set_commit_broadcasted d' s in
        (is_commit_broadcasted d s' ≡ (if d' == d then found else is_commit_broadcasted d s))
        × (is_reply_sent d s' ≡ is_reply_sent d s)
  unfolding set_commit_broadcasted is_commit_broadcasted is_reply_sent
  set_commit_broadcasted-flags d d' s = elim (Option-cases (lookup d' s.request_pool)) [
    | inl missing ↦ ground (arith, bytes_beq_iff d' d)
    | inr (info, found) ↦
        let info' = record info { is_commit_broadcast = true } in
        ground (arith, bytes_beq_iff d' d, lookup-insert d' d info' s.request_pool)
  ]

  pub set_reply_sent-flags :
      (d d' : Bytes) (s : PbftMod S X)
      → let (s', found) = set_reply_sent d' s in
        (is_reply_sent d s' ≡ (if d' == d then found else is_reply_sent d s))
        × (is_commit_broadcasted d s' ≡ is_commit_broadcasted d s)
  unfolding set_reply_sent is_commit_broadcasted is_reply_sent
  set_reply_sent-flags d d' s = elim (Option-cases (lookup d' s.request_pool)) [
    | inl missing ↦ ground (arith, bytes_beq_iff d' d)
    | inr (info, found) ↦
        let info' = record info { is_reply = true } in
        ground (arith, bytes_beq_iff d' d, lookup-insert d' d info' s.request_pool)
  ]

  -- A tally leaves an entry behind, so raising a flag after it finds the entry.
  pub tally_prepare-found :
      (req : Request S) (s : PbftMod S X)
      → (set_commit_broadcasted req.digest (tally_prepare req s).0).1 ≡ true
  unfolding tally_prepare set_commit_broadcasted
  tally_prepare-found req s =
      let info = info_of req s in
      let info' = record info { cnt_prepare_confirm = info.cnt_prepare_confirm + 1 } in
      ground (arith, lookup-insert_self req.digest info' s.request_pool)

  pub tally_commit-found :
      (req : Request S) (s : PbftMod S X)
      → (set_reply_sent req.digest (tally_commit req s).0).1 ≡ true
  unfolding tally_commit set_reply_sent
  tally_commit-found req s =
      let info = info_of req s in
      let info' = record info { cnt_commit_confirm = info.cnt_commit_confirm + 1 } in
      ground (arith, lookup-insert_self req.digest info' s.request_pool)

  -- What a tally, and the making of an entry, leave alone.
  pub pre_prepare-flags :
      (d : Bytes) (req : Request S) (s : PbftMod S X)
      → let s' = record s { request_pool = insert req.digest (info_of req s) s.request_pool } in
        (is_commit_broadcasted d s' ≡ is_commit_broadcasted d s)
        × (is_reply_sent d s' ≡ is_reply_sent d s)
  pre_prepare-flags d req s = ground (
    arith,
    is_commit_broadcasted-insert d req.digest (info_of req s) s,
    is_reply_sent-insert d req.digest (info_of req s) s,
    info_of-flags req s,
    bytes_beq_iff req.digest d,
  )

  -- The flags read the pool alone.
  pub flags-of_pool :
      (d : Bytes) (s t : PbftMod S X)
      → s.request_pool ≡ t.request_pool
      → (is_commit_broadcasted d s ≡ is_commit_broadcasted d t)
        × (is_reply_sent d s ≡ is_reply_sent d t)
  unfolding is_commit_broadcasted is_reply_sent
  flags-of_pool d s t h = ground arith
