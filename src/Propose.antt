-- ===== src/Propose.antt =====
-- node/runningMod/consensusMod/propose*.go: how what a client injects comes to be proposed.
pub mod Txs
pub mod Strings
pub mod Order
pub mod Blocks
pub mod Rounds
