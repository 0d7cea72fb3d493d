-- ===== src/Ledger/Snapshots.antt =====
-- Checkpoints and certified snapshots of crates/kerosene-ledger/src/certificate.rs, and the snapshot
-- store of crates/kerosene-ledger/src/snapshot.rs. The trait `SnapshotStore` is a record of
-- operations over an unknown state; `read_state` is `serde_json::from_slice`.
pub mod Saving
pub mod Checking
use kerosene_node.Base.{
  List, Option, String, [], get_last?, if◌then◌else◌, is_empty, ltb, nat_eq, none, some, text_eq, ℕ,
  ◌==◌,
}
use kerosene_node.Base.Results.{Handler, Result, err, ok, ok_or, reject_if, require, ◌>>=◌, ◌>>◌}
use kerosene_node.Base.Table.{Table, insert, lookup}
use kerosene_node.Base.Text.{is_empty_text}
use kerosene_node.Base.Words.{saturating_sub}
use kerosene_node.Ledger.Certificates.{Crypto, QuorumCertificate, verify_basic}
use kerosene_node.Ledger.Chain.{outpoint_eq}
use kerosene_node.Ledger.Chart.{account_eq}
use kerosene_node.Ledger.Errors.{
  LedgerError, invalid_signature, invariant_violation, membership_hash_mismatch,
  snapshot_bytes_empty, snapshot_cluster_empty, snapshot_root_empty, snapshot_state_unreadable,
  state_root_mismatch,
}
use kerosene_node.Ledger.Journal.Hashing.{JournalEntry}
use kerosene_node.Ledger.Roots.{compute_membership_hash, compute_state_root}
use kerosene_node.Ledger.State.{LedgerState}
use kerosene_node.Ledger.States.{onchain_eq, reservation_state_eq, role_eq, withdrawal_status_eq}

pub record Checkpoint : Type 0 where
  pub sequence : ℕ
  pub state_root : String
  pub membership_hash : String
  pub committed_commands_root : String
  pub timestamp_bucket : ℕ
  pub quorum_certificate : Option QuorumCertificate

pub record CertifiedSnapshot : Type 0 where
  pub cluster_id : String
  pub epoch : ℕ
  pub sequence : ℕ
  pub state_bytes : List ℕ
  pub state_root : String
  pub membership_hash : String
  pub constitution_hash : String
  pub policy_hash : String
  pub ledger_totals_hash : String
  pub utxo_set_root : String
  pub consumed_intents_root : String
  pub quorum_certificate : QuorumCertificate

pub record SnapshotStore : Type 1 where
  pub State : Type 0
  pub save_snapshot : CertifiedSnapshot → Handler State LedgerError (Unit {0})
  pub latest_snapshot : State → Result LedgerError (Option CertifiedSnapshot)
  pub get_snapshot : ℕ → State → Result LedgerError (Option CertifiedSnapshot)
  pub install_snapshot : CertifiedSnapshot → Result LedgerError LedgerState

-- `InMemorySnapshotStoreInner`
pub record SnapshotMap : Type 0 where
  pub snapshots : Table ℕ CertifiedSnapshot
  pub latest_sequence : ℕ

pub no_snapshots : SnapshotMap
no_snapshots = record { snapshots = []; latest_sequence = 0 }

-- `.map(|e| e.entry_hash.clone()).unwrap_or_else(|| "0")`
abbrev pub last_hash : Option JournalEntry → String
last_hash none = "0"
last_hash (some e) = e.entry_hash

-- The two writes of `save_snapshot`
abbrev pub put_snapshot : CertifiedSnapshot → SnapshotMap → SnapshotMap
put_snapshot n s = record {
  snapshots = insert n.sequence n s.snapshots;
  latest_sequence = if ltb s.latest_sequence n.sequence then n.sequence else s.latest_sequence;
}

module _ (crypto : Crypto) (read_state : List ℕ → Option LedgerState) where
  unfoldable pub from_state : LedgerState → ℕ → Option QuorumCertificate → Checkpoint
  from_state s bucket certificate = record {
    sequence = saturating_sub s.version 1;
    state_root = compute_state_root crypto s;
    membership_hash = compute_membership_hash crypto s.membership;
    committed_commands_root = last_hash (get_last? s.journal);
    timestamp_bucket = bucket;
    quorum_certificate = certificate;
  }

  unfoldable pub verify_checkpoint : Checkpoint → LedgerState → Result LedgerError (Unit {0})
  verify_checkpoint c s = do
    require (c.state_root == compute_state_root crypto s)
        (state_root_mismatch (compute_state_root crypto s) c.state_root)
    require (c.membership_hash == compute_membership_hash crypto s.membership) (
        invariant_violation (
          membership_hash_mismatch (compute_membership_hash crypto s.membership) c.membership_hash))

  unfoldable pub verify_snapshot : CertifiedSnapshot → Result LedgerError (Unit {0})
  verify_snapshot n = do
    reject_if (is_empty_text n.cluster_id) (invalid_signature snapshot_cluster_empty)
    reject_if (is_empty_text n.state_root) (invalid_signature snapshot_root_empty)
    reject_if (is_empty n.state_bytes) (invalid_signature snapshot_bytes_empty)
    verify_basic crypto n.quorum_certificate

  unfoldable pub install_certified : CertifiedSnapshot → Result LedgerError LedgerState
  install_certified n = do
    verify_snapshot n
    s ← ok_or (read_state n.state_bytes) (invalid_signature snapshot_state_unreadable)
    require (compute_state_root crypto s == n.state_root)
        (state_root_mismatch (compute_state_root crypto s) n.state_root)
    ok s

  unfoldable pub save_in_memory : CertifiedSnapshot → Handler SnapshotMap LedgerError (Unit {0})
  save_in_memory n s = elim (verify_snapshot n) [
    | ok _ ↦ (ok tt, put_snapshot n s)
    | err e ↦ (err e, s)
  ]

  abbrev pub latest_in_memory : SnapshotMap → Result LedgerError (Option CertifiedSnapshot)
  latest_in_memory s = ok (lookup s.latest_sequence s.snapshots)

  abbrev pub get_in_memory : ℕ → SnapshotMap → Result LedgerError (Option CertifiedSnapshot)
  get_in_memory sequence s = ok (lookup sequence s.snapshots)

  abbrev pub in_memory_snapshots : SnapshotStore
  in_memory_snapshots = record {
    State = SnapshotMap;
    save_snapshot = save_in_memory;
    latest_snapshot = latest_in_memory;
    get_snapshot = get_in_memory;
    install_snapshot = install_certified;
  }
