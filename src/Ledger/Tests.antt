-- ===== src/Ledger/Tests.antt =====
-- Runs of the modelled code of the crate kerosene-ledger at concrete inputs.
pub mod Balances
pub mod Posting
pub mod Stores
pub mod Signing
pub mod Machine
pub mod Outputs
pub mod Replicas
pub mod CatchUp
pub mod Gates
pub mod Sled
