-- ===== src/Blockchain.antt =====
-- blockchain: the state manager and the chain of one node.
pub mod Trie
pub mod States
pub mod Updates
pub mod Chain
pub mod Saved
pub mod Restart
pub mod Linked
pub mod Roots
pub mod Node
