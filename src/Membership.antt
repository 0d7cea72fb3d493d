-- ===== src/Membership.antt =====
-- The crate kerosene-membership: crates/kerosene-membership/src/lib.rs. The crate kerosene_contracts,
-- whose types and hashes it uses, is the parameter `Contracts`; `url` is `parse_url`; hex and
-- ed25519-dalek are the parameter `Crypto`.
pub mod Contracts
pub mod Onion
pub mod Structure
pub mod Verifier
pub mod Quorum
pub mod Roster
pub mod History
pub mod Epochs
pub mod Members
pub mod Tests
