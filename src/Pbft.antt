-- ===== src/Pbft.antt =====
-- node/runningMod/consensusMod/pbft: the PBFT module of one node.
pub mod Defs
pub mod Handlers
pub mod System
pub mod Pool
pub mod Once
pub mod Quorum
pub mod Rounds
pub mod Addons
pub mod Liveness
pub mod Threads
