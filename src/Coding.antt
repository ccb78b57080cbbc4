-- ===== src/Coding.antt =====
-- addon/coding: the field with 256 elements and the random linear code over it.
pub mod Field
pub mod Chunks
