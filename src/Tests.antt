-- ===== src/Tests.antt =====
-- Concrete environments and inputs: each of the theorems with conditions is applied once.
mod Codecs
mod Pbft
mod Addons
mod Protocols
mod Network
mod Clients
mod Start
mod Addresses
mod Parts
mod Blocks
mod Ledger
mod Chains
mod Proposals
mod Agreement
