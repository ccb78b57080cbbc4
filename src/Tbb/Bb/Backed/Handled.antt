-- ===== src/Tbb/Bb/Backed/Handled.antt =====
-- The handlers and timers of tbb/handler_1deltaBB.go keep a commit backed.
use blockchain_simulator.Base.{
  ℕ, ◌≡◌, refl, Bool, true, List, [], ◌∷◌, some, Bytes, Eq, bytes_eq, arith, Option-cases, inl, inr,
}
use blockchain_simulator.Utils.Set.{elem}
use blockchain_simulator.Tbb.Bb.Defs.{
  VoteContent, Timer, ba_starts_at, final_commit_at, consensus_done_at, votes_at, forwards_at,
  BbEnv, BbMod,
}
use blockchain_simulator.Tbb.Bb.Handlers.{vote, handle_vote_msg}
use blockchain_simulator.Tbb.Bb.Bads.{ba_start, final_commit, fire}
use blockchain_simulator.Message.{Message}
use blockchain_simulator.Ds.Defs.{only_value}
use blockchain_simulator.Tbb.Bb.Certificates.{state_after}
use blockchain_simulator.Tbb.Bb.Signers.{issued}
use blockchain_simulator.Tbb.Bb.Backed.{
  IsBacked, kept-IsBacked, count_vote-IsBacked, own_vote-IsBacked,
}

module _ {S Addr : Type 0} ⦃es : Eq S⦄ ⦃e : Eq Addr⦄ (sign : ℕ → Bytes → S)
    (signed : ℕ → Bytes → Bool) (n : ℕ) (env : BbEnv S Addr) where
  pub vote_msg-IsBacked :
      (now : ℕ) (msg : Message) (s : BbMod S)
      → IsBacked sign signed n env s
      → ((v : VoteContent S) (sig : S)
          → env.vote_codec.decode msg.content ≡ some v
          → v.sig ≡ some sig
          → elem sig (issued sign signed n v.content) ≡ true)
      → IsBacked sign signed n env (state_after s (handle_vote_msg env now msg s))
  unfolding handle_vote_msg
  vote_msg-IsBacked now msg s ok real = elim (Option-cases (env.vote_codec.decode msg.content)) [
    | inl bad ↦ rw (bad, handle_vote_msg) ok
    | inr (v, is) ↦
        rw (is, handle_vote_msg)
          (elim (Option-cases v.sig) [
            | inl nil ↦ rw nil ok
            | inr (sig, has) ↦
                rw has
                  (count_vote-IsBacked sign signed n env now v.content sig s ok (real v sig is has))
          ])
  ]

  pub vote-IsBacked :
      (s : BbMod S)
      → IsBacked sign signed n env s
      → ((c : Bytes) (sig : S)
          → s.propose_set.items ≡ c ∷ []
          → env.sign c ≡ some sig
          → elem sig (issued sign signed n c) ≡ true)
      → IsBacked sign signed n env (state_after s (vote env s))
  unfolding vote
  vote-IsBacked s ok real = voting s.propose_set.items refl
    where
      voting :
          (items : List Bytes)
          → s.propose_set.items ≡ items
          → IsBacked sign signed n env (state_after s (vote env s))
      voting [] is = simp (is, vote) ok
      voting (c ∷ []) is =
          simp (is, vote) (own_vote-IsBacked sign signed n env c s ok (λ sig. real c sig is))
      voting (c ∷ d ∷ rest) is = simp (is, vote) ok

  pub fire-IsBacked :
      (timer : Timer S) (s : BbMod S)
      → IsBacked sign signed n env s
      → ((c : Bytes) (sig : S)
          → s.propose_set.items ≡ c ∷ []
          → env.sign c ≡ some sig
          → elem sig (issued sign signed n c) ≡ true)
      → IsBacked sign signed n env (state_after s (fire env timer s).0)
  unfolding fire ba_start final_commit
  fire-IsBacked (ba_starts_at due) s ok real =
      elim (Option-cases (env.sign (only_value s.blck_set))) [
        | inl nil ↦ rw (nil, ba_start) ok
        | inr (sig, is) ↦
            rw (is, ba_start)
              (kept-IsBacked sign signed n env s _ ok refl refl (λ h. refl) (λ h. h))
      ]
  fire-IsBacked (final_commit_at due) s ok real =
      kept-IsBacked sign signed n env s (final_commit env s) ok (ground arith) (ground arith)
        (λ up. ground arith) (λ h. ground arith)
  fire-IsBacked (consensus_done_at due) s ok real = ok
  fire-IsBacked (votes_at due) s ok real = vote-IsBacked s ok real
  fire-IsBacked (forwards_at due input agg) s ok real = ok
