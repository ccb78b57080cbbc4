-- ===== src/Propose/Order.antt =====
-- node/runningMod/consensusMod/proposeTxs.go: what is proposed, in which order.
use blockchain_simulator.Base.{
  ℕ, ◌≡◌, refl, sym, ap, ◌∙◌, List, [], ◌∷◌, ◌++◌, Option, none, some, Bytes, map, append_nil,
  append_assoc, Option-cases, inl, inr,
}
use blockchain_simulator.Message.{
  Message, req_verify_txs, new_request, new_request_with_signature, cal_digest,
}
use blockchain_simulator.Structs.TxPool.{TxPool, add_txs, get_batch_of_txs, stamp}
use blockchain_simulator.Structs.TxPool.Order.{
  Op, add_list, get_batch, handed, all_arrivals, run-conserves,
}
use blockchain_simulator.Structs.TxPool.Order as Order
use blockchain_simulator.Propose.Txs.{
  ProposeEnv, propose_answer, handle_inject, propose_message, propose_turn,
}

pub data TxsEvent : Type 0 where
  injected : (now : ℕ) → (content : Bytes) → TxsEvent
  turned : (now : ℕ) → TxsEvent

module _ {S T : Type 0} (env : ProposeEnv S T) where
  unfoldable pub txs_step : TxsEvent → TxPool T → List Message × TxPool T
  txs_step (injected now content) p = ([], handle_inject env now content p)
  txs_step (turned now) p = propose_turn env now p

  unfoldable pub txs_run : List TxsEvent → TxPool T → List Message × TxPool T
  txs_run [] p = ([], p)
  txs_run (ev ∷ evs) p =
      let now = txs_step ev p in let rest = txs_run evs now.1 in (now.0 ++ rest.0, rest.1)

  -- What a receiver reads from a propose message.
  abbrev pub content_of : Message → Option Bytes
  content_of m = elim (env.request_codec.decode m.content) [ none ↦ none | some r ↦ some r.content ]

  abbrev pub txs_in : Message → List T
  txs_in m = elim (content_of m) [
    | none ↦ []
    | some bytes ↦ elim (env.txs_codec.decode bytes) [ none ↦ [] | some txs ↦ txs ]
  ]

  abbrev pub all_txs_in : List Message → List T
  all_txs_in [] = []
  all_txs_in (m ∷ ms) = txs_in m ++ all_txs_in ms

  abbrev pub decoded : Bytes → List T
  decoded content = elim (env.txs_codec.decode content) [ none ↦ [] | some txs ↦ txs ]

  -- The operation on the pool behind an event.
  abbrev pub op_of : TxsEvent → Op T
  op_of (injected now content) = add_list now (decoded content)
  op_of (turned now) = get_batch

  abbrev pub ops_of : List TxsEvent → List (Op T)
  ops_of [] = []
  ops_of (ev ∷ evs) = op_of ev ∷ ops_of evs

  pub content_of-propose_message :
      (now : ℕ) (content : Bytes) → content_of (propose_message env now content) ≡ some content
  unfolding new_request new_request_with_signature cal_digest
  content_of-propose_message now content =
      rw
        (
          env.request_codec.decode-encode
              (new_request env.sum256 env.sid req_verify_txs content now),
          content_of,
        )
        refl

  pub txs_in-propose_message :
      (now : ℕ) (txs : List T) → txs_in (propose_message env now (env.txs_codec.encode txs)) ≡ txs
  txs_in-propose_message now txs =
      rw
        (
          content_of-propose_message now (env.txs_codec.encode txs),
          env.txs_codec.decode-encode txs,
          txs_in,
        )
        refl

  propose_answer-handed :
      (now : ℕ) (r : Option (List T) × TxPool T)
      → (all_txs_in (propose_answer env now r).0, (propose_answer env now r).1) ≡ handed r
  unfolding propose_answer
  propose_answer-handed now (none, p) = refl
  propose_answer-handed now (some txs, p) =
      ap (λ l. (l, p)) (append_nil _ ∙ txs_in-propose_message now txs)

  txs_step-op :
      (ev : TxsEvent) (p : TxPool T)
      → (all_txs_in (txs_step ev p).0, (txs_step ev p).1) ≡ Order.step env.transaction (op_of ev) p
  unfolding txs_step handle_inject propose_turn Order.step add_txs
  txs_step-op (injected now content) p = elim (Option-cases (env.txs_codec.decode content)) [
    | inl e ↦ rw (e, handle_inject, decoded) refl
    | inr ([], e) ↦ rw (e, handle_inject, decoded) refl
    | inr (x ∷ xs, e) ↦ rw (e, handle_inject, decoded) refl
  ]
  txs_step-op (turned now) p = propose_answer-handed now (get_batch_of_txs p)

  all_txs_in-append :
      (xs ys : List Message) → all_txs_in (xs ++ ys) ≡ all_txs_in xs ++ all_txs_in ys
  all_txs_in-append [] ys = refl
  all_txs_in-append (m ∷ ms) ys =
      ap (λ l. txs_in m ++ l) (all_txs_in-append ms ys)
      ∙ sym (append_assoc (txs_in m) (all_txs_in ms) (all_txs_in ys))

  txs_run-ops :
      (evs : List TxsEvent) (p : TxPool T)
      → (all_txs_in (txs_run evs p).0, (txs_run evs p).1) ≡ Order.run env.transaction (ops_of evs) p
  unfolding txs_run Order.run
  txs_run-ops [] p = refl
  txs_run-ops (ev ∷ evs) p =
      let now = txs_step ev p in
      ap (λ l. (l, (txs_run evs now.1).1)) (all_txs_in-append now.0 (txs_run evs now.1).0)
      ∙ ap (λ r. (all_txs_in now.0 ++ r.0, r.1)) (txs_run-ops evs now.1)
      ∙ ap
          (λ r. (
            r.0 ++ (Order.run env.transaction (ops_of evs) r.1).0,
            (Order.run env.transaction (ops_of evs) r.1).1,
          ))
          (txs_step-op ev p)

  -- What arrives with the messages that can be decoded, times set.
  abbrev pub injected_txs : List TxsEvent → List T
  injected_txs [] = []
  injected_txs (injected now content ∷ evs) =
      map (stamp env.transaction now) (decoded content) ++ injected_txs evs
  injected_txs (turned now ∷ evs) = injected_txs evs

  injected_txs_lem :
      (evs : List TxsEvent) → all_arrivals env.transaction (ops_of evs) ≡ injected_txs evs
  injected_txs_lem [] = refl
  injected_txs_lem (injected now content ∷ evs) =
      ap (λ l. map (stamp env.transaction now) (decoded content) ++ l) (injected_txs_lem evs)
  injected_txs_lem (turned now ∷ evs) = injected_txs_lem evs

  -- Over any inject messages and any turns of the loop: the transactions that a receiver reads from
  -- the propose messages, in their order, followed by those left in the pool, are those that were
  -- in the pool followed by those of the inject messages that can be decoded, with the time set
  -- where it was not.
  pub txs_run-conserves :
      (evs : List TxsEvent) (p : TxPool T)
      → all_txs_in (txs_run evs p).0 ++ (txs_run evs p).1.txs ≡ p.txs ++ injected_txs evs
  txs_run-conserves evs p =
      ap (λ r. r.0 ++ r.1.txs) (txs_run-ops evs p)
      ∙ run-conserves env.transaction (ops_of evs) p
      ∙ ap (λ l. p.txs ++ l) (injected_txs_lem evs)
