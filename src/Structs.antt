-- ===== src/Structs.antt =====
-- structs: the pool of transactions, the state of an account, and blocks.
pub mod TxPool
pub mod Account
pub mod Block
pub mod Transaction
pub mod State
