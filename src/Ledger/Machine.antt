-- ===== src/Ledger/Machine.antt =====
-- `StateMachine` of crates/kerosene-ledger/src/state_machine.rs.
pub mod Validation
pub mod Outputs
pub mod Applying
pub mod Totals
pub mod Failures
pub mod Receipts
pub mod Intents
