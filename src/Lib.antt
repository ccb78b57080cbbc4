-- ===== src/Lib.antt =====
-- Verification library of the blockchain simulator.
--
-- Parts. A node runs one consensus protocol over point-to-point messages. Requests come from a
-- proposer, which takes transactions from the pool, and each protocol answers through broadcasts
-- to the node's shard. Every protocol is modelled as functions from its state and a message to
-- its new state and the list of what it sends (P2p.Effect); timers and waiting goroutines are
-- entries of the state that an event fires.
--
-- - Base: natural and signed numbers, lists, comparable types, byte strings and Go's maps.
-- - Utils: utils/set.go, queue.go, atomic.go and shard.go. A set lists its keys without repetition.
-- - Message, P2p: message/message.go, message/request.go and the recipients of
--   node/p2p/connManager.go. A Codec stands for encoding/gob: what was encoded decodes to itself;
--   a nil element of a slice, at which gob panics, is looked for where a handler encodes one.
--   Connections has Send and getPool of that file, with the pool of one connection as a list, and
--   Lost the connections that a send takes and does not put back.
-- - Signature: signature/signature.go, over what it calls of bls.
-- - Clock: the wait for a round in ds/handler_ds.go and tbb/handler_1deltaBB.go.
-- - Pbft: node/runningMod/consensusMod/pbft. Defs has structs.go and the state, Handlers the
--   handlers (handlePropose, handlePrePrepare, handlePrepare, handleCommit, Run), System the node as
--   an event loop whose handlers run one after another, where the source starts a goroutine for
--   each message; Threads the two counting handlers cut at their locks. The addon is a record over
--   a state of its own; a call that waits is `none`, and the handler is resumed later. Addons has
--   the two addons of addon_simple.go and addon_tbd.go, over an interface to the chain.
-- - Ds: ds/handler_ds.go. Defs has the state and the handlers, whose Outcome tells whether gob
--   panics at a nil signature, Extracted sequences of messages, Mails what a node sends to a
--   neighbour, Network two nodes that forward to each other.
-- - Tbb.Bb: tbb/handler_1deltaBB.go. An Outcome tells whether a handler returns, stops the node at a
--   nil signature or blocks in a full channel. Handlers has the proposals and votes, Bads the rounds
--   from 4Δ on and the timers.
-- - Tbb.Defs, Tbb.Answer: tbb/handler_tbb.go over the two protocols above, and its answers. Turns
--   runs a node over messages, timers and commit points; Ballots is about the votes of such a node,
--   and Agreement about two of them, over Bb.Signers and Bb.Backed, which say who signed and what a
--   commit rests on.
-- - Config: the map of addresses that InitConfig of config/internal_config.go builds.
-- - Coding: addon/coding/GaloisField.go and the encoder of addon/coding/RFCEncoder.go. The random
--   numbers are a parameter; an index out of range is `none`.
-- - Structs: structs/txpool.go, structs/state_account.go with its balances in a store, blocks, the
--   three kinds of transactions, and contract states.
-- - Storage: storage/storage.go. Bolt is what it relies on of the library bolt, Defs its operations
--   on six buckets, where a panic is `none`, Reads what is read back, Crash its histories.
-- - Blockchain: blockchain/stateManager.go (States) and blockchain/blockchain.go (Chain), over an
--   interface to the tries of go-ethereum (Trie). Node puts the chain behind the addon of
--   pbft/addon_tbd.go; Updates, Saved, Restart, Linked and Roots have what holds of them.
-- - Propose: proposeTxs.go, proposeBlock.go (Txs) and proposeString.go (Strings) of
--   node/runningMod/consensusMod; a turn is one pass of the loop of Run.
-- - Client: query.go and query_tbb.go (Query), measure.go and its three measures (Measure) of
--   node/runningMod/clientMod; a timer is kept as the time that it waits for. Manual is the input
--   loop of sendStringManual.go.
-- - Traffic: sendMimicContractTxs.go, sendMimicAccountTxs.go and sendTxTest.go, beside the client:
--   Shards groups transactions by their shard, Addresses draws the accounts.
-- - Start: main.go's choice of a node, node/node.go with the modules that it registers, and
--   runningMod's table of handlers (Routes).
-- - Tests: concrete environments, codecs and inputs.
--
-- Bounds and fuel. Numbers that the source keeps in `int` and that only count messages, rounds,
-- transactions or milliseconds are natural numbers; utils/shard.go, which shifts its number out of
-- a word, and the height of a block keep the wrap-around of 64 bits. The wait for a round is a loop
-- on fuel, one unit for each look at the clock, and is settled at the first look; the loop of Exp
-- takes its argument as fuel, and each turn lowers it. MaliciousRatio * NodeNum and ResilientRatio *
-- NodeNum are parameters, their whole parts.
--
-- Not modelled: sockets and simulated delays, files and flags, logging, the pairing behind the BLS
-- signatures and the VRF (parameters), the libraries bolt and go-ethereum (interfaces with their
-- laws), copying the settings, and the goroutines of startLocalSystem. The signature checks of the
-- protocols accept everything in the source, and so they do here.
pub mod Base
pub mod Utils
pub mod Message
pub mod P2p
pub mod Clock
pub mod Pbft
pub mod Ds
pub mod Tbb
pub mod Coding
pub mod Config
pub mod Start
pub mod Signature
pub mod Structs
pub mod Storage
pub mod Blockchain
pub mod Propose
pub mod Client
pub mod Traffic
pub mod Tests
