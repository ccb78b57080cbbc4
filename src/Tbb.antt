-- ===== src/Tbb.antt =====
-- tbb: the consensus with three commit points, over 1Δ-BB* and Dolev-Strong.
pub mod Bb
pub mod Defs
pub mod Answer
pub mod Turns
pub mod Agreement
pub mod Ballots
