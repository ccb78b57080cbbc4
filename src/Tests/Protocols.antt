-- ===== src/Tests/Protocols.antt =====
-- Runs of ds and tbb on four nodes.
use blockchain_simulator.Base.{
  ℕ, ◌+◌, ◌≡◌, ◌≢◌, refl, sym, ap, ◌∙◌, none, true, false, List, [], ◌∷◌, some, Bytes, Map, nat_eq,
  bytes_eq, lookup, insert, arith,
}
use blockchain_simulator.Message.{
  Message, Request, req_verify_string, msg_propose, msg_forward, msg_vote, no_nil,
}
use blockchain_simulator.Utils.Set.{new_set, contains, elem, add, put}
use blockchain_simulator.Clock.{IsClock, round_at}
use blockchain_simulator.Ds.Defs.{
  returns, SigListContent, DsEnv, DsMod, commit, handle_forward_msg, tell,
}
use blockchain_simulator.Ds.Extracted.{
  Event, proposes, run, received, carries, forward_sends, commit_agreement,
}
use blockchain_simulator.Tbb.Bb.Defs.{VoteContent, BbEnv, BbMod, new_bb_mod, has_qc, sigs_of}
use blockchain_simulator.Tbb.Bb.Handlers.{count_vote, own_vote, handle_vote_msg}
use blockchain_simulator.Tbb.Bb.Certificates.{Returns, IsConsistent}
use blockchain_simulator.Tbb.Bb.Votes.{Vote, counted, own, cast, after_votes, commit_point_1_stable}
use blockchain_simulator.Tbb.Bb.Missed.{IsMissed, certificate_missed}
use blockchain_simulator.Tbb.Defs.{TbbMod, new_tbb_mod}
use blockchain_simulator.Tbb.Answer.{commit3, reference2, answer, answer_stable, run as tbb_run}
use blockchain_simulator.Tests.Codecs.{
  nat_codec, bytes_codec, request_codec, ds_codec, vote_codec, qc_codec, bb_codec,
}

abbrev four_ips : Map ℕ ℕ
four_ips = (0, 10) ∷ (1, 11) ∷ (2, 12) ∷ (3, 13) ∷ []

abbrev pub ds_env : ℕ → DsEnv ℕ ℕ
ds_env nid = record {
  nid = nid;
  ipaddr = nid + 10;
  view = 0;
  node_num = 4;
  malicious_num = 1;
  tick_interval = 100;
  shard_ips = four_ips;
  sign = λ b. some nid;
  time_codec = nat_codec;
  request_codec = request_codec;
  sig_list_codec = ds_codec;
  addr_codec = nat_codec;
  value_codec = bytes_codec;
}

abbrev pub a_value : ℕ → Request ℕ
a_value v = record {
  shard_id = 0;
  req_type = req_verify_string;
  content = v ∷ [];
  req_time = 1;
  digest = [];
  sig = some 0;
}

abbrev pub a_proposal : ℕ → Message
a_proposal v = record { msg_type = msg_propose; content = request_codec.encode (a_value v) }

-- A value that nodes 0 and 2 signed.
abbrev two_signatures : SigListContent ℕ
two_signatures = record { req = a_value 7; sig_list = some 0 ∷ some 2 ∷ []; node_list = 0 ∷ 2 ∷ [] }

abbrev pub a_forward : Message
a_forward = record { msg_type = msg_forward; content = ds_codec.encode two_signatures }

-- The time grows by one with each look.
abbrev pub ticking : ℕ → ℕ
ticking i = 150 + i

ticking-IsClock : IsClock ticking
ticking-IsClock = λ i. omega arith

abbrev both_values : List Event
both_values = proposes 1 ticking (a_proposal 7) ∷ proposes 1 ticking (a_proposal 8) ∷ []

abbrev both_reversed : List Event
both_reversed = proposes 1 ticking (a_proposal 8) ∷ proposes 1 ticking (a_proposal 7) ∷ []

abbrev pub fresh_ds : DsMod
fresh_ds = record { start_time = 0; extr_set = new_set; commit_value = []; timers = [] }

forward_sends_example :
    handle_forward_msg (ds_env 1) 1 ticking a_forward fresh_ds
    ≡ returns
        (record fresh_ds { extr_set = add (7 ∷ []) fresh_ds.extr_set })
        (tell (ds_env 1) (record {
          msg_type = msg_forward;
          content = ds_codec.encode (record {
            req = a_value 7;
            sig_list = some 0 ∷ some 2 ∷ some 1 ∷ [];
            node_list = 0 ∷ 2 ∷ 1 ∷ [];
          });
        }))
unfolding contains elem tell round_at no_nil
forward_sends_example =
    forward_sends (ds_env 1) 0 ticking a_forward two_signatures fresh_ds ticking-IsClock refl refl

same_received :
    (v : Bytes) → received (ds_env 1) v both_values ≡ received (ds_env 2) v both_reversed
unfolding received carries
same_received v = ground arith

commit_agreement_example :
    (commit (ds_env 1) (run (ds_env 1) both_values fresh_ds)).commit_value
    ≡ (commit (ds_env 2) (run (ds_env 2) both_reversed fresh_ds)).commit_value
commit_agreement_example =
    commit_agreement (ds_env 1) (ds_env 2) both_values both_reversed fresh_ds fresh_ds refl refl
      same_received

abbrev pub bb_env : BbEnv ℕ ℕ
bb_env = record {
  nid = 1;
  ipaddr = 11;
  view = 0;
  node_num = 4;
  malicious_num = 1;
  tick_interval = 100;
  shard_ips = four_ips;
  sign = λ b. some 1;
  aggregate = λ sigs. 99;
  time_codec = nat_codec;
  request_codec = request_codec;
  vote_codec = vote_codec;
  qc_codec = qc_codec;
  sig_list_codec = bb_codec;
}

fresh-IsConsistent : IsConsistent (new_bb_mod {S = ℕ} 0)
unfolding new_bb_mod has_qc contains elem lookup
fresh-IsConsistent = record {
  certified = λ c. refl;
  distinct = tt;
  committed = λ h. absurd (ground arith);
  triggered = λ h. absurd (ground arith);
}

abbrev three_votes : List (Vote ℕ)
three_votes = counted 10 (7 ∷ []) 0 ∷ own (7 ∷ []) ∷ counted 12 (7 ∷ []) 2 ∷ []

abbrev a_vote : Message
a_vote = record {
  msg_type = msg_vote;
  content = vote_codec.encode (record { node_id = 3; content = 7 ∷ []; sig = some 3 });
}

a_vote_signed :
    (v : VoteContent ℕ) → bb_env.vote_codec.decode a_vote.content ≡ some v → v.sig ≢ none
a_vote_signed v is nil =
    let w : VoteContent ℕ = record { node_id = 3; content = 7 ∷ []; sig = some 3 } in
    let both : some w ≡ some v = sym (vote_codec.decode-encode w) ∙ is in
    let same : w ≡ v = cc both in
    let bad : some 3 ≡ none = ap (λ (x : VoteContent ℕ). x.sig) same ∙ nil in cc bad

commit_point_1_stable_example :
    Returns (handle_vote_msg bb_env 13 a_vote (after_votes bb_env three_votes (new_bb_mod 0)))
    × ((new_bb_mod {S = ℕ} 0).is_commit ≡ true
        → ((after_votes bb_env three_votes (new_bb_mod 0)).commit_value
            ≡ (new_bb_mod {S = ℕ} 0).commit_value)
          × ((after_votes bb_env three_votes (new_bb_mod 0)).is_commit ≡ true))
commit_point_1_stable_example =
    commit_point_1_stable bb_env three_votes 13 a_vote (new_bb_mod 0) fresh-IsConsistent
      a_vote_signed

-- All four votes are there, and the own vote was the third.
abbrev overshot : BbMod ℕ
overshot =
    after_votes bb_env
      (counted 10 (7 ∷ []) 0 ∷ counted 11 (7 ∷ []) 2 ∷ own (7 ∷ []) ∷ counted 12 (7 ∷ []) 3 ∷ [])
      (new_bb_mod 0)

overshot-IsMissed : IsMissed bb_env (7 ∷ []) overshot
unfolding after_votes cast count_vote own_vote has_qc sigs_of lookup insert add put elem new_bb_mod
overshot-IsMissed = record { over = omega arith; no_qc = refl }

certificate_missed_example : has_qc (7 ∷ []) (after_votes bb_env three_votes overshot) ≡ false
certificate_missed_example =
    certificate_missed bb_env (7 ∷ []) three_votes overshot overshot-IsMissed

abbrev answered : TbbMod ℕ
answered = record (new_tbb_mod 0) { local_set_d = [] ∷ (9 ∷ []) ∷ [] ∷ [] }

answer_stable_example : answer (tbb_run (reference2 ∷ commit3 ∷ []) answered) ≡ answer answered
answer_stable_example =
    answer_stable (reference2 ∷ commit3 ∷ []) 1 answered refl (omega arith, (omega arith, tt))
