-- ===== src/Ledger/Gates/Modes.antt =====
-- What the gates of crates/kerosene-ledger/src/gates.rs let through.
use kerosene_node.Base.{[], arith, nat_eq, text_eq, true, ◌+◌, ◌↔◌, ◌≡◌, ◌<◌, ◌⊎◌}
use kerosene_node.Ledger.Chain.{outpoint_eq}
use kerosene_node.Ledger.Chart.{account_eq}
use kerosene_node.Ledger.Gates.{
  can_authorize_withdrawals, credits_allowed, evaluate_degraded_mode, internal_transfers_allowed,
  reconciliation_reason, withdrawals_allowed,
}
use kerosene_node.Ledger.Metrics.{LedgerMetrics}
use kerosene_node.Ledger.Reconciliation.{ReconciliationReport}
use kerosene_node.Ledger.Replication.{ReplicationStatus, is_healthy}
use kerosene_node.Ledger.State.{MembershipView}
use kerosene_node.Ledger.States.{onchain_eq, reservation_state_eq, role_eq, withdrawal_status_eq}

-- The gate for withdrawals opens exactly for a healthy node with no lag, a report that is neither a
-- deficit nor incomplete, and no sign of a missing quorum before the first sequence.
can_authorize_withdrawals_lem :
    (metrics : LedgerMetrics) (report : ReconciliationReport) (status : ReplicationStatus)
    → ((can_authorize_withdrawals metrics report status).allowed ≡ true) ↔ (
        (is_healthy status.sync_status ≡ true)
        × ((metrics.sequence_lag ≡ 0)
            × ((reconciliation_reason report ≡ [])
                × ((0 < status.committed_sequence + status.applied_sequence)
                    ⊎ (metrics.quorum_unavailable_total ≡ 0)))))
unfolding can_authorize_withdrawals
can_authorize_withdrawals_lem metrics report status =
    (λ h. (ground arith, (ground arith, (ground arith, ground arith))), λ h. ground arith)

-- The mode allows withdrawals exactly when their gate does; credits and internal transfers it
-- allows whatever the gates say, on a quarantined node too.
pub evaluate_degraded_mode_lem :
    (metrics : LedgerMetrics) (report : ReconciliationReport) (status : ReplicationStatus)
    (membership : MembershipView)
    → let mode = evaluate_degraded_mode metrics report status membership in
      (withdrawals_allowed mode ≡ (can_authorize_withdrawals metrics report status).allowed)
      × ((credits_allowed mode ≡ true) × (internal_transfers_allowed mode ≡ true))
unfolding evaluate_degraded_mode withdrawals_allowed credits_allowed internal_transfers_allowed
evaluate_degraded_mode_lem metrics report status membership =
    (ground arith, (ground arith, ground arith))
