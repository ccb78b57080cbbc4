-- ===== src/Tests/Network.antt =====
-- Two nodes of ds that get different proposals.
use blockchain_simulator.Base.{
  ℕ, ◌≡◌, refl, true, List, [], ◌∷◌, Option, some, nat_eq, bytes_eq, inl, inr,
}
use blockchain_simulator.Message.{Message, msg_forward, no_nil}
use blockchain_simulator.P2p.{broadcast, recipients}
use blockchain_simulator.Utils.Set.{contains, elem, add, put}
use blockchain_simulator.Utils.Shard.{get_neighbours}
use blockchain_simulator.Clock.{round_at, wait_below}
use blockchain_simulator.Ds.Defs.{
  commit, tell, forward_below, handle_propose_msg, handle_forward_msg,
}
use blockchain_simulator.Ds.Extracted.{Event, proposes, forwards, step, run}
use blockchain_simulator.Ds.Mails.{mails, in_time, all_in_time, run_sent, is_neighbour}
use blockchain_simulator.Ds.Network.{IsHeardBy, network_agreement}
use blockchain_simulator.Tests.Codecs.{ds_codec}
use blockchain_simulator.Tests.Protocols.{ds_env, a_value, a_proposal, fresh_ds}

-- Nodes 1 and 2 take different proposals of a faulty view node and forward them to each other.
abbrev map_some : List ℕ → List (Option ℕ)
map_some [] = []
map_some (n ∷ ns) = some n ∷ map_some ns

abbrev forward_of : ℕ → List ℕ → Message
forward_of v signers = record {
  msg_type = msg_forward;
  content =
      ds_codec.encode
        (record { req = a_value v; sig_list = map_some signers; node_list = signers });
}

abbrev at_first : ℕ → ℕ
at_first i = i

-- A node's proposal, what the other forwards of its own, and its own back from the other.
abbrev events_of : (nid mine other_nid other : ℕ) → List Event
events_of nid mine other_nid other =
    proposes 1 at_first (a_proposal mine)
    ∷ forwards 1 at_first (forward_of other (0 ∷ other_nid ∷ []))
    ∷ forwards 1 at_first (forward_of mine (0 ∷ nid ∷ other_nid ∷ []))
    ∷ []

near : (is_neighbour (ds_env 1) 12 ≡ true) × (is_neighbour (ds_env 2) 11 ≡ true)
unfolding elem recipients get_neighbours
near = (refl, refl)

times :
    (all_in_time (ds_env 1) (events_of 1 7 2 8) fresh_ds ≡ true)
    × (all_in_time (ds_env 2) (events_of 2 8 1 7) fresh_ds ≡ true)
unfolding all_in_time in_time no_nil step handle_propose_msg handle_forward_msg contains elem add
    put wait_below round_at
times = (refl, refl)

heard :
    IsHeardBy (ds_env 1) (ds_env 2) (events_of 1 7 2 8) (events_of 2 8 1 7) fresh_ds
    × IsHeardBy (ds_env 2) (ds_env 1) (events_of 2 8 1 7) (events_of 1 7 2 8) fresh_ds
unfolding mails run_sent no_nil step handle_propose_msg handle_forward_msg forward_below tell
    broadcast recipients get_neighbours contains elem add put wait_below round_at
heard = ((inl refl, (inr (inl refl), tt)), (inl refl, (inr (inl refl), tt)))

network_agreement_example :
    (commit (ds_env 1) (run (ds_env 1) (events_of 1 7 2 8) fresh_ds)).commit_value
    ≡ (commit (ds_env 2) (run (ds_env 2) (events_of 2 8 1 7) fresh_ds)).commit_value
network_agreement_example =
    network_agreement (ds_env 1) (ds_env 2) (events_of 1 7 2 8) (events_of 2 8 1 7) fresh_ds
      fresh_ds refl refl refl refl near.0 near.1 refl times.0 times.1 heard.0 heard.1
