-- ===== src/Propose/Strings.antt =====
-- node/runningMod/consensusMod/proposeString.go. The loop is cut into turns: a turn takes a string
-- and proposes it, or ends the wait if the channel `consensusDone` holds its one token. `now` is the
-- clock before the wait for the start time and `started` behind it.
use blockchain_simulator.Base.{
  ℕ, ◌+◌, Bool, true, false, List, [], ◌∷◌, ◌++◌, none, some, Bytes, Map, lookup, Eq, nat_eq,
  if◌then◌else◌, map,
}
use blockchain_simulator.Message.{
  Codec, Message, Request, msg_init, msg_propose, req_verify_string, new_request_with_signature,
}
use blockchain_simulator.P2p.{Effect, sends, broadcast}
use blockchain_simulator.Utils.Queue.{Queue, new_queue, enqueue, dequeue}
use blockchain_simulator.Utils.Shard.{get_neighbours}

pub record StringsEnv (S Addr : Type 0) : Type 0 where
  pub sid : ℕ
  pub ipaddr : Addr
  pub client_addr : Addr
  -- config.IPMap, and what Go reads from it under a missing key.
  pub ip_map : Map ℕ (Map ℕ Addr)
  pub no_addr : Addr
  pub start_time_wait : ℕ
  pub is_malicious : Bool
  pub sign : Bytes → S
  pub string_codec : Codec Bytes
  pub time_codec : Codec ℕ
  pub request_codec : Codec (Request S)
  pub sum256 : Request S → Bytes

-- What a turn does to others: it sends, or calls a handler of its own node.
pub data Output (Addr : Type 0) : Type 0 where
  sent : Effect Addr → Output Addr
  handled : Message → Output Addr

pub record StringsMod : Type 0 where
  pub string_queue : Queue Bytes
  pub token : Bool
  pub waiting : Bool

unfoldable pub new_strings_mod : StringsMod
new_strings_mod = record { string_queue = new_queue; token = false; waiting = false }

-- The send does not block: behind a token that waits it is dropped.
unfoldable pub handle_consensus_done : StringsMod → StringsMod
handle_consensus_done s = record s { token = true }

-- "bad".
abbrev pub bad_string : Bytes
bad_string = 98 ∷ 97 ∷ 100 ∷ []

module _ {S Addr : Type 0} ⦃e : Eq Addr⦄ (env : StringsEnv S Addr) where
  unfoldable pub handle_string : (content : Bytes) → StringsMod → StringsMod
  handle_string content s = elim (env.string_codec.decode content) [
    | none ↦ s
    | some str ↦ record s { string_queue = enqueue str s.string_queue }
  ]

  abbrev pub shard_0 : Map ℕ Addr
  shard_0 = elim (lookup 0 env.ip_map) [ none ↦ [] | some m ↦ m ]

  abbrev pub peer : ℕ → Addr
  peer i = elim (lookup i shard_0) [ none ↦ env.no_addr | some a ↦ a ]

  -- The signature is of the string in both messages.
  abbrev pub string_message : (now : ℕ) (str content : Bytes) → Message
  string_message now str content = record {
    msg_type = msg_propose;
    content = env.request_codec.encode (
        new_request_with_signature env.sum256 env.sid req_verify_string content
          (some (env.sign str)) now);
  }

  abbrev pub init_message : (now : ℕ) → Message
  init_message now = record {
    msg_type = msg_init;
    content = env.time_codec.encode (now + env.start_time_wait);
  }

  abbrev pub to_neighbours : Message → List (Output Addr)
  to_neighbours m = map sent (broadcast env.ipaddr (get_neighbours shard_0 env.ipaddr) m)

  unfoldable pub propose_string : (now started : ℕ) → Bytes → List (Output Addr)
  propose_string now started str =
      let good = string_message started str str in
      let bad = string_message started str bad_string in
      to_neighbours (init_message now)
      ++ (sent (sends env.client_addr (init_message now))
          ∷ handled (init_message now)
          ∷ (if env.is_malicious
              then handled good ∷ sent (sends (peer 1) bad) ∷ sent (sends (peer 2) bad) ∷ []
              else to_neighbours good ++ (handled good ∷ [])))

  unfoldable pub strings_turn : (now started : ℕ) → StringsMod → StringsMod × List (Output Addr)
  strings_turn now started s =
      if s.waiting
      then (if s.token then record s { token = false; waiting = false } else s, [])
      else elim (dequeue s.string_queue) [
        | none ↦ (s, [])
        | some (str, q) ↦
            (record s { string_queue = q; waiting = true }, propose_string now started str)
      ]
