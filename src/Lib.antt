-- ===== src/Lib.antt =====
-- A model of the Kerosene node: its ledger, the consensus membership that decides who may vote on
-- it, and the node service that finds peers and brings a node into service; and what makes these
-- correct.
--
-- The program. A ledger keeps versioned accounts, reservations on them, a double-entry journal that
-- is a hash chain, the node's UTXOs, and withdrawals that are settled on the chain. Commands name
-- the version of the account that they expect; nonces and idempotency records stop replays; state
-- roots, checkpoints and quorum certificates bind a state to the nodes that signed it. A node that
-- lags installs a certified snapshot and replays commands; reconciliation compares assets with
-- liabilities, and the security gates decide from its report what a node may still do. Manifests
-- chain one roster of members to the next through a joint phase. A node authenticates its peers by
-- signed hellos that answer a challenge, and its lifecycle advances to active once a quorum of
-- authorized members is live and its state is verified.
--
-- Files, the ledger's with their sources under crates/kerosene-ledger/src:
--   Base.antt and Base/: tests, lists, fixed-width integers, text, results, tables.
--   Ledger/Chart.antt: account.rs, and StandardAccount::ALL of double_entry.rs.
--   Ledger/States.antt: the enums of reservation.rs, withdrawal.rs, chain.rs and membership.rs.
--   Ledger/Errors.antt: error.rs. A formatted message is a constructor with what it prints.
--   Ledger/Account.antt: account_state.rs. Ledger/Commands.antt: command.rs.
--   Ledger/Accounts.antt: InMemoryVersionedAccountStore of in_memory.rs.
--   Ledger/Reservations.antt: reservation.rs and InMemoryReservationStore of in_memory.rs.
--   Ledger/Idempotency.antt: idempotency.rs and its store. Ledger/Nonces.antt: nonce.rs.
--   Ledger/Journal.antt and Journal/Hashing.antt: double_entry.rs.
--   Ledger/Certificates.antt: signatures and quorum certificates of certificate.rs.
--   Ledger/Snapshots.antt: its checkpoints and certified snapshots, and snapshot.rs.
--   Ledger/Authorization.antt and Ledger/Settlement.antt: settlement.rs, the data and the validators.
--   Ledger/Withdrawals.antt: withdrawal.rs. Ledger/Chain.antt: chain.rs. Ledger/Utxos.antt and
--   Utxos/Listing.antt: utxo_store.rs.
--   Ledger/State.antt and Machine/: state_machine.rs: the data, `validate` (Validation), the
--   branches of `apply` on UTXOs (Outputs), and `apply` (Applying).
--   Ledger/Roots.antt: state_root.rs, and compute_utxo_root of chain.rs.
--   Ledger/Replication.antt: replication.rs. Ledger/Reconciliation.antt: reconciliation.rs.
--   Ledger/Wallets.antt: wallet.rs and invariants.rs. Ledger/Metrics.antt: metrics.rs.
--   Ledger/Admission.antt: membership.rs. Ledger/Gates.antt: gates.rs.
--   Ledger/Persistent.antt and Persistent/AccountStore, Entries, WithdrawalStore and Latest.antt:
--   persistent.rs, with a read and a write of an account as two steps (`begin_command`,
--   `finish_command`), since the code holds no lock between them.
--   Membership/Structure.antt (one manifest or trust plane by itself), Membership/Onion.antt (its
--   endpoints) and Membership/Verifier.antt (the chain): crates/kerosene-membership/src/lib.rs.
--   Membership/Contracts.antt: what that code uses of the contracts crate.
--   Identity.antt: crates/kerosene-identity-core/src/lib.rs. Sync.antt: crates/kerosene-sync/src/lib.rs.
--   Discovery.antt (challenges, authentication) and Discovery/Peers.antt (the peer store):
--   crates/kerosene-discovery/src/lib.rs.
--   Service.antt, Service/Bootstrap.antt and Service/Operations.antt: crates/kerosene-node/src/lib.rs.
--   Each Tests.antt and Ledger/Tests/: runs at concrete inputs. The other files hold proofs.
-- A definition has the name of its function; where two methods share one, the store's noun is added
-- (reserve_utxo, create_withdrawal, is_terminal_utxo), or `sled_` for a persistent store.
--
-- How the code is read. A method on `&mut self`, and one that holds its mutex from the first line to
-- the last, is a handler: it takes the state and returns a result and the state left, which an early
-- return by `?` does not roll back. An operation of the node service, or of a persistent store, that
-- takes several locks or none is run by itself too, except where it is split into its steps
-- (`begin_command`, `finish_command`). A HashMap is an association list; its order is open in Rust. A
-- `u64` is a natural number with its checked operations; `version += 1` wraps at 2^64, as in a
-- release build without overflow checks. Sums of postings are exact: they are `u128` sums of `u64`s,
-- and a Vec holds fewer than 2^64 of them. Recursion is structural; the printing of decimals counts
-- digits, 39 of them, enough for 128 bits; the bootstrap loop of the service runs on fuel, and four
-- rounds are enough.
-- Parameters: SHA-256, hex and ed25519 (`sha256_hex` of the journal, the records `Crypto` and
-- `Keys`); serde_json (`Payloads`, `Codec` and the reading of a snapshot's state); the types and
-- canonical hashes of the contracts crate (`Contracts`); the URL parser of onion endpoints; the files
-- of peers, manifests and the lifecycle (`PeerFiles`, `LifecycleFile`); the sled database (`Sled`);
-- the trait `SyncManager`, which the repository does not implement. The times and the random
-- challenges that a method draws are its arguments.
--
-- Not modelled: HTTP routes, the Tor client and the key file; the start-up of the node and of
-- the database; the command line kerosene-rsctl; command ids drawn at random; traits and
-- constants without code; clocks.
pub mod Base
pub mod Ledger
pub mod Membership
pub mod Identity
pub mod Sync
pub mod Discovery
pub mod Service
