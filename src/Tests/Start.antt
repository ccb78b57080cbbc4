-- ===== src/Tests/Start.antt =====
-- Nodes of the predefined protocols.
use blockchain_simulator.Base.{
  ℕ, zero, suc, ◌≡◌, refl, ap, ◌∙◌, true, false, [], ◌∷◌, some, none, Bytes, Map, nat_eq, bytes_eq,
}
use blockchain_simulator.Message.{Codec}
use blockchain_simulator.Tbb.Defs.{TbbEnv, ReplyValue}
use blockchain_simulator.Start.{start, classic_pbft, view_node}
use blockchain_simulator.Start.Routes.{start-can_start, can_start}
use blockchain_simulator.Tests.Codecs.{bytes_codec, pair_codec, part_codec}
use blockchain_simulator.Tests.Protocols.{ds_env, bb_env}

start-can_start_example :
    elim (start classic_pbft view_node) [ none ↦ false | some _ ↦ true ]
    ≡ can_start classic_pbft view_node
start-can_start_example = start-can_start classic_pbft view_node

-- A map of byte strings to numbers in one byte string: the bytes of a key go up by one, and a zero
-- ends the key.
abbrev key_code : Bytes → ℕ → Bytes → Bytes
key_code [] n rest = 0 ∷ n ∷ rest
key_code (k ∷ ks) n rest = suc k ∷ key_code ks n rest

abbrev map_code : Map Bytes ℕ → Bytes
map_code [] = []
map_code ((key, n) ∷ m) = key_code key n (map_code m)

abbrev longer : ℕ → Map Bytes ℕ → Map Bytes ℕ
longer k [] = []
longer k ((key, n) ∷ m) = (k ∷ key, n) ∷ m

abbrev map_of : Bytes → Map Bytes ℕ
map_of [] = []
map_of (zero ∷ []) = []
map_of (zero ∷ n ∷ l) = ([], n) ∷ map_of l
map_of (suc k ∷ l) = longer k (map_of l)

key_back : (key : Bytes) (n : ℕ) (l : Bytes) → map_of (key_code key n l) ≡ (key, n) ∷ map_of l
key_back [] n l = refl
key_back (k ∷ ks) n l = ap (longer k) (key_back ks n l)

pub map_of_code : (m : Map Bytes ℕ) → map_of (map_code m) ≡ m
map_of_code [] = refl
map_of_code ((key, n) ∷ m) = key_back key n (map_code m) ∙ ap (λ l. (key, n) ∷ l) (map_of_code m)

abbrev reply_codec : Codec (ReplyValue ℕ)
reply_codec =
    part_codec (pair_codec bytes_codec (part_codec bytes_codec map_code map_of map_of_code))
      (λ v. (v.value, v.qc_map)) (λ p. record { value = p.0; qc_map = p.1 }) (λ v. refl)

abbrev pub tbb_env : TbbEnv ℕ ℕ
tbb_env = record {
  ds_env = ds_env 1;
  bb_env = bb_env;
  is_malicious = false;
  resilient_num = 2;
  reply_codec = reply_codec;
}
