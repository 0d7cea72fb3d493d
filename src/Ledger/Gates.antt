-- ===== src/Ledger/Gates.antt =====
-- The production gates: crates/kerosene-ledger/src/gates.rs. Each reason that the code formats as a
-- text is a constructor with what the text names.
pub mod Modes
use kerosene_node.Base.{
  Bool, List, [], false, if◌then◌else◌, is_empty, leb, length, ltb, nat_eq, not, text_eq, true, ℕ,
  ◌&&◌, ◌++◌, ◌==◌, ◌||◌, ◌∷◌,
}
use kerosene_node.Base.Int.{ℤ}
use kerosene_node.Ledger.Admission.{reason_if}
use kerosene_node.Ledger.Chain.{outpoint_eq}
use kerosene_node.Ledger.Chart.{account_eq}
use kerosene_node.Ledger.Metrics.{LedgerMetrics}
use kerosene_node.Ledger.Reconciliation.{ReconciliationReport, deficit, incomplete_chain_data}
use kerosene_node.Ledger.Replication.{
  ReplicationStatus, SyncStatus, diverged, is_healthy, quarantined,
}
use kerosene_node.Ledger.State.{MembershipView}
use kerosene_node.Ledger.States.{onchain_eq, reservation_state_eq, role_eq, withdrawal_status_eq}

pub data GateReason : Type 0 where
  sync_must_be_healthy sync_blocks_deposits : SyncStatus → GateReason
  lag_not_zero lag_too_large membership_too_large : ℕ → GateReason
  reconciliation_deficit : ℤ → GateReason
  reconciliation_incomplete quorum_seems_unavailable : GateReason
  sequences_differ : ℕ → ℕ → GateReason

pub record GateResult : Type 0 where
  pub allowed : Bool
  pub reasons : List GateReason

-- `if reasons.is_empty() { allowed() } else { blocked(reasons) }`
abbrev pub gate_of : List GateReason → GateResult
gate_of reasons = record { allowed = is_empty reasons; reasons = reasons }

pub data DegradedMode : Type 0 where
  normal : DegradedMode
  degraded :
      (withdrawals_blocked membership_changes_blocked key_rotation_blocked : Bool)
      (internal_transfers_open credits_open : Bool)
      → DegradedMode
  read_only : DegradedMode

unfoldable pub withdrawals_allowed : DegradedMode → Bool
withdrawals_allowed normal = true
withdrawals_allowed (degraded w m k t c) = not w
withdrawals_allowed read_only = false

unfoldable pub internal_transfers_allowed : DegradedMode → Bool
internal_transfers_allowed normal = true
internal_transfers_allowed (degraded w m k t c) = t
internal_transfers_allowed read_only = false

unfoldable pub credits_allowed : DegradedMode → Bool
credits_allowed normal = true
credits_allowed (degraded w m k t c) = c
credits_allowed read_only = false

abbrev pub reconciliation_reason : ReconciliationReport → List GateReason
reconciliation_reason report = elim report.status [
  | deficit ↦ reconciliation_deficit report.difference_sats ∷ []
  | incomplete_chain_data ↦ reconciliation_incomplete ∷ []
  | _ ↦ []
]

-- `matches!(.., Diverged | Quarantined)`
abbrev pub is_cut_off : SyncStatus → Bool
is_cut_off diverged = true
is_cut_off quarantined = true
is_cut_off _ = false

unfoldable pub can_authorize_withdrawals :
    LedgerMetrics → ReconciliationReport → ReplicationStatus → GateResult
can_authorize_withdrawals metrics report status = gate_of (
    reason_if (not (is_healthy status.sync_status)) (sync_must_be_healthy status.sync_status)
    ++ (reason_if (ltb 0 metrics.sequence_lag) (lag_not_zero metrics.sequence_lag)
        ++ (reconciliation_reason report
            ++ reason_if
                ((status.committed_sequence == 0)
                  && ((status.applied_sequence == 0) && ltb 0 metrics.quorum_unavailable_total))
                quorum_seems_unavailable)))

unfoldable pub can_accept_deposits : LedgerMetrics → ReplicationStatus → GateResult
can_accept_deposits metrics status = gate_of (
    reason_if (is_cut_off status.sync_status) (sync_blocks_deposits status.sync_status)
    ++ reason_if (ltb 100 metrics.sequence_lag) (lag_too_large metrics.sequence_lag))

unfoldable pub can_add_nodes : LedgerMetrics → ReplicationStatus → MembershipView → GateResult
can_add_nodes metrics status membership = gate_of (
    reason_if (not (is_healthy status.sync_status)) (sync_must_be_healthy status.sync_status)
    ++ reason_if (leb 100 (length membership.nodes))
        (membership_too_large (length membership.nodes)))

unfoldable pub can_change_membership : ReplicationStatus → GateResult
can_change_membership status = gate_of (
    reason_if (not (is_healthy status.sync_status)) (sync_must_be_healthy status.sync_status)
    ++ reason_if (not (status.applied_sequence == status.committed_sequence))
        (sequences_differ status.applied_sequence status.committed_sequence))

unfoldable pub can_rotate_keys : ReplicationStatus → GateResult
can_rotate_keys status = gate_of (
    reason_if (not (is_healthy status.sync_status)) (sync_must_be_healthy status.sync_status)
    ++ reason_if (not (status.applied_sequence == status.committed_sequence))
        (sequences_differ status.applied_sequence status.committed_sequence))

unfoldable pub evaluate_degraded_mode :
    LedgerMetrics → ReconciliationReport → ReplicationStatus → MembershipView → DegradedMode
unfolding can_authorize_withdrawals can_accept_deposits can_add_nodes can_change_membership
    can_rotate_keys
evaluate_degraded_mode metrics report status membership =
    let withdrawals = (can_authorize_withdrawals metrics report status).allowed in
    let deposits = (can_accept_deposits metrics status).allowed in
    let changes = (can_change_membership status).allowed in
    let rotation = (can_rotate_keys status).allowed in
    let additions = (can_add_nodes metrics status membership).allowed in
    if not withdrawals || (not deposits || not changes)
    then degraded (not withdrawals) (not changes) (not rotation) true true
    else if not additions
    then degraded false (not changes) (not rotation) true true
    else normal
