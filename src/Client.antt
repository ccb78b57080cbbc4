-- ===== src/Client.antt =====
-- node/runningMod/clientMod: the queries and the measures of a client.
pub mod Query
pub mod Manual
pub mod Latency
pub mod Measure
pub mod Totals
