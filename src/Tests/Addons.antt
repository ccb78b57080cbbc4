-- ===== src/Tests/Addons.antt =====
-- The TBD addon on a chain that only counts, and account states.
use blockchain_simulator.Base.{ℕ, suc, ◌+◌, ◌≡◌, refl, true, [], ◌∷◌, none, some, nat_eq}
use blockchain_simulator.Pbft.Defs.{PbftEnv}
use blockchain_simulator.Pbft.Addons.{TbdEnv, TbdState, tbd_addon}
use blockchain_simulator.Tests.Codecs.{request_codec, pbft_codec}
use blockchain_simulator.Base.Int.{pos, ◌+ℤ◌}
use blockchain_simulator.Structs.Account.{AccountState, Store, deposit, commit}
use blockchain_simulator.Structs.Account.Balances.{deposited, deposit-commit}

abbrev pub counting : TbdEnv ℕ ℕ ℕ ℕ
counting = record {
  decode_block = λ b. elim b [ [] ↦ none | x ∷ _ ↦ some x ];
  update_states = λ b c. suc c;
  commit_block = λ b c. c + 100;
  is_view_node = true;
  client_addr = 99;
  encode_reply = λ req n. n ∷ [];
}

abbrev pub tbd_node_env : PbftEnv ℕ ℕ (TbdState ℕ)
tbd_node_env = record {
  nid = 1;
  ipaddr = 11;
  view = 0;
  malicious_num = 1;
  ip_map = (0, (0, 10) ∷ (1, 11) ∷ (2, 12) ∷ (3, 13) ∷ []) ∷ [];
  request_codec = request_codec;
  pbft_codec = pbft_codec;
  addon = tbd_addon counting;
}

-- Balance 10 and dirty balance 7, apart.
abbrev apart_state : AccountState
apart_state = record {
  ac_address = 1 ∷ [];
  nonce = pos 0;
  balance = some 0;
  dirty_balance = some 1;
}

abbrev apart_store : Store
apart_store = pos 10 ∷ pos 7 ∷ []

deposit-commit_example :
    (deposited (deposit (pos 3) apart_state apart_store) apart_state ≡ some (pos 7 +ℤ pos 3))
    × (deposited (deposit (pos 3) apart_state apart_store) (commit apart_state) ≡ some (pos 7))
deposit-commit_example =
    deposit-commit apart_state apart_store 0 1 (pos 7) (pos 10) (pos 3) refl refl refl refl refl
