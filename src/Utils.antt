-- ===== src/Utils.antt =====
-- utils/: the containers that the modules of a node share.
pub mod Set
pub mod Queue
pub mod Atomic
pub mod Shard
