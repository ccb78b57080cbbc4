-- ===== src/Tbb/Bb.antt =====
-- tbb/handler_1deltaBB.go: the 1Δ-BB* protocol with BADS* embedded.
pub mod Defs
pub mod Handlers
pub mod Bads
pub mod Certificates
pub mod Votes
pub mod Missed
pub mod Signers
pub mod Backed
