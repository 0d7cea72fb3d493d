-- ===== src/Ledger.antt =====
-- The crate kerosene-ledger.
pub mod Chart
pub mod States
pub mod Errors
pub mod Account
pub mod Commands
pub mod Accounts
pub mod Reservations
pub mod Idempotency
pub mod Nonces
pub mod Journal
pub mod Certificates
pub mod Authorization
pub mod Withdrawals
pub mod Chain
pub mod Utxos
pub mod State
pub mod Roots
pub mod Machine
pub mod Settlement
pub mod Snapshots
pub mod Replication
pub mod Wallets
pub mod Metrics
pub mod Reconciliation
pub mod Admission
pub mod Gates
pub mod Persistent
pub mod Tests
