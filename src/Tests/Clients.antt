-- ===== src/Tests/Clients.antt =====
-- Connections, and the clients that send without being asked.
use blockchain_simulator.Base.{
  ℕ, ◌+◌, ◌≡◌, refl, true, false, List, [], ◌∷◌, ◌++◌, map, Option, none, some, Bytes, nat_eq,
  bytes_eq, length, lookup, insert, All, arith, ◌%◌, Map,
}
use blockchain_simulator.Base.Int.{ℤ, ℤ-eq, pos}
use blockchain_simulator.P2p.{Effect}
use blockchain_simulator.P2p.Connections.{ConnMananger, Luck, get_pool, send_all}
use blockchain_simulator.P2p.Lost.{send_all-loses}
use blockchain_simulator.Utils.Set.{Distinct}
use blockchain_simulator.Utils.Shard.{ShardConfig}
use blockchain_simulator.Traffic.{
  Draw, group_txs, append_tx, mimic_turn, generate_mimic_account_txs, shard_of,
}
use blockchain_simulator.Traffic.Shards.{keys, of_shard, appended, group_txs_lem}
use blockchain_simulator.Traffic.Addresses.{InRange, mimic_turn-ends}
use blockchain_simulator.Client.Manual.{
  ManualEnv, process_input, run, unknown_answers, run-closed, cmd_help,
}
use blockchain_simulator.Tests.Codecs.{bytes_codec}

abbrev no_conns : ConnMananger ℕ
no_conns = record { conn_pools = []; dialed = 0; written = []; closed = [] }

abbrev lucky : Luck
lucky = record {
  first_take = 0;
  second_take = 0;
  first_dial = true;
  second_dial = true;
  writes = true;
}

-- The second of three sends fails after its connection was dialed.
abbrev three_sends : List (ℕ × Bytes × Luck)
three_sends =
    (11, 7 ∷ [], lucky) ∷ (11, 8 ∷ [], record lucky { writes = false }) ∷ (11, 9 ∷ [], lucky) ∷ []

send_all-loses_example :
    length (get_pool 11 no_conns) + (send_all three_sends no_conns).dialed
    ≡ length (get_pool 11 (send_all three_sends no_conns)) + no_conns.dialed + length three_sends
send_all-loses_example =
    send_all-loses 11 three_sends no_conns
      ((refl, refl, refl), ((refl, refl, refl), ((refl, refl, refl), tt)))

-- Numbers as transactions, with the shard in the last bit.
abbrev parity : ℕ → Option ℤ
parity n = some (pos (n % 2))

abbrev by_parity : Map ℤ (List ℕ)
by_parity = (pos 1, 5 ∷ 7 ∷ []) ∷ (pos 0, 6 ∷ []) ∷ []

grouped : group_txs parity (5 ∷ 6 ∷ 7 ∷ []) [] ≡ some by_parity
unfolding group_txs append_tx lookup insert
grouped = refl

group_txs_lem_example :
    (lookup (pos 1) by_parity ≡ appended none (of_shard parity (pos 1) (5 ∷ 6 ∷ 7 ∷ [])))
    × Distinct (keys by_parity)
group_txs_lem_example = group_txs_lem parity (5 ∷ 6 ∷ 7 ∷ []) (pos 1) grouped

abbrev two_of : ShardConfig
two_of = record { consensus_method_is_cshard = false; k = 0; shard_num = 2 }

abbrev a_draw : Draw ℕ
a_draw = record {
  sender = 1 ∷ 2 ∷ 3 ∷ 4 ∷ 5 ∷ [];
  recipient = 200 ∷ 17 ∷ 0 ∷ 255 ∷ 90 ∷ [];
  now = 1;
  crosses = false;
}

mimic_turn-ends_example :
    (sent : List (Effect ℕ)) × (mimic_turn two_of
        (λ txs. [])
        0
        ((0, (0, 10) ∷ []) ∷ (1, (0, 20) ∷ []) ∷ [])
        (generate_mimic_account_txs {Float = ℕ} (λ tx. []) (a_draw ∷ []))
      ≡ some sent)
    × All
        (λ tx. InRange two_of (shard_of two_of tx))
        (generate_mimic_account_txs {Float = ℕ} (λ tx. []) (a_draw ∷ []))
mimic_turn-ends_example =
    mimic_turn-ends ℕ two_of (λ tx. []) (omega arith) (λ txs. []) 0
      ((0, (0, 10) ∷ []) ∷ (1, (0, 20) ∷ []) ∷ []) (a_draw ∷ []) (omega arith)

abbrev manual : ManualEnv ℕ
manual = record { trim_space = λ l. l; to_lower = λ l. l; view_ip = 10; text_codec = bytes_codec }

run-closed_example :
    run manual (length (cmd_help ∷ []) + 3) (cmd_help ∷ [])
    ≡ map (process_input manual) (cmd_help ∷ []) ++ unknown_answers 3
run-closed_example = run-closed manual (cmd_help ∷ []) 3 refl
