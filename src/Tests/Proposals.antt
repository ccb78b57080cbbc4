-- ===== src/Tests/Proposals.antt =====
-- Proposers and a client on concrete inputs.
use blockchain_simulator.Base.{
  ℕ, ◌+◌, ◌≤◌, ◌<◌, ◌≡◌, ◌⊎◌, refl, true, false, List, [], ◌∷◌, Option, none, some, Bytes, length,
  replicate, get_or, nat_eq,
}
use blockchain_simulator.Message.{Message, Request, req_verify_txs}
use blockchain_simulator.Structs.TxPool.{TxPool}
use blockchain_simulator.Structs.Block.{Block}
use blockchain_simulator.Structs.Transaction.{Tx}
use blockchain_simulator.Propose.Txs.{ProposeEnv, pool_transaction, try_propose_block}
use blockchain_simulator.Propose.Blocks.{IsProposalOf, try_propose_block_correct}
use blockchain_simulator.Propose.Strings.{StringsEnv, StringsMod, new_strings_mod}
use blockchain_simulator.Propose.Rounds.{
  StringsEvent, string_came, done_came, turned, all_proposed, strings_run, credit, dones,
  proposed-paced, second_done_skips_wait,
}
use blockchain_simulator.Client.Measure.{Reply}
use blockchain_simulator.Client.Totals.{update_all, update_all-at}
use blockchain_simulator.Tests.Codecs.{bytes_codec, nat_codec, request_codec}
use blockchain_simulator.Tests.Blocks.{tx_codec, list_codec}
use blockchain_simulator.Tests.Ledger.{test_chain}
use blockchain_simulator.Tests.Chains.{a_tx, genesis, first_chain}

abbrev propose_env : ProposeEnv ℕ (Tx ℕ ℕ)
propose_env = record {
  sid = 0;
  block_size = 2;
  transaction = pool_transaction;
  txs_codec = list_codec tx_codec;
  request_codec = request_codec;
  sum256 = λ r. r.content;
}

abbrev full_pool : TxPool (Tx ℕ ℕ)
full_pool = record { txs = replicate 120 (a_tx []); batch_size = 2 }

try_propose_block_correct_example :
    ((length full_pool.txs < 100)
      × (try_propose_block propose_env (test_chain true) 7 first_chain full_pool
          ≡ some ([], full_pool)))
    ⊎ ((m : Message) × (b : Block ℕ (Tx ℕ ℕ)) × (q : TxPool (Tx ℕ ℕ)) × (try_propose_block
            propose_env
            (test_chain true)
            7
            first_chain
            full_pool
          ≡ some (m ∷ [], q))
        × IsProposalOf propose_env (test_chain true) m b genesis full_pool q)
try_propose_block_correct_example =
    try_propose_block_correct propose_env (test_chain true) 7 first_chain full_pool genesis refl

abbrev strings_env : StringsEnv ℕ ℕ
strings_env = record {
  sid = 0;
  ipaddr = 10;
  client_addr = 99;
  ip_map = (0, (0, 10) ∷ (1, 11) ∷ (2, 12) ∷ []) ∷ [];
  no_addr = 0;
  start_time_wait = 1000;
  is_malicious = false;
  sign = λ b. length b;
  string_codec = bytes_codec;
  time_codec = nat_codec;
  request_codec = request_codec;
  sum256 = λ r. r.content;
}

abbrev some_events : List StringsEvent
some_events =
    string_came (1 ∷ [])
    ∷ turned 1 2
    ∷ string_came (2 ∷ [])
    ∷ done_came
    ∷ turned 3 4
    ∷ turned 5 6
    ∷ []

proposed-paced_example :
    length (all_proposed strings_env some_events new_strings_mod)
      + credit (strings_run strings_env some_events new_strings_mod).0
    ≤ credit new_strings_mod + dones some_events
proposed-paced_example = proposed-paced strings_env some_events new_strings_mod

abbrev a_round : StringsMod
a_round = record {
  string_queue = record { items = (1 ∷ []) ∷ (2 ∷ []) ∷ [] };
  token = false;
  waiting = true;
}

second_done_skips_wait_example :
    all_proposed strings_env
      (done_came ∷ turned 1 2 ∷ done_came ∷ turned 1 2 ∷ turned 1 2 ∷ turned 1 2 ∷ [])
      a_round
    ≡ (1 ∷ []) ∷ (2 ∷ []) ∷ []
second_done_skips_wait_example =
    second_done_skips_wait strings_env 1 2 (1 ∷ []) (2 ∷ []) [] a_round refl refl

abbrev reply_codec_request : Bytes → Request ℕ
reply_codec_request content = record {
  shard_id = 0;
  req_type = req_verify_txs;
  content = content;
  req_time = 0;
  digest = [];
  sig = none;
}

abbrev a_reply : Bytes → Reply ℕ ℕ
a_reply content = record { req = reply_codec_request content; time = 9; sid = 0; req_queue_len = 0 }

abbrev count_first : Bytes → Option ℕ
count_first b = elim b [ [] ↦ none | n ∷ _ ↦ some n ]

update_all-at_example :
    get_or
      (update_all count_first
        ((3, a_reply (7 ∷ [])) ∷ (1, a_reply (2 ∷ [])) ∷ (3, a_reply (4 ∷ [])) ∷ [])
        [])
      3
      0
    ≡ 11
update_all-at_example =
    update_all-at count_first 3
      ((3, a_reply (7 ∷ [])) ∷ (1, a_reply (2 ∷ [])) ∷ (3, a_reply (4 ∷ [])) ∷ []) []
