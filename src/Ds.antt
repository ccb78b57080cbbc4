-- ===== src/Ds.antt =====
-- node/runningMod/consensusMod/ds: the Dolev-Strong module of one node.
pub mod Defs
pub mod Extracted
pub mod Mails
pub mod Network
