-- ===== src/Ledger/Tests/Gates.antt =====
-- Runs of wallet.rs, reconciliation.rs, membership.rs and gates.rs.
use kerosene_node.Base.{
  List, [], arith, nat_eq, none, refl, some, text_eq, true, ◌+◌, ◌<◌, ◌↔◌, ◌∷◌, ◌≡◌, ◌≤◌,
}
use kerosene_node.Base.Results.{ok}
use kerosene_node.Base.Table.{lookup}
use kerosene_node.Ledger.Account.{new_account}
use kerosene_node.Ledger.Admission.{NodeMembership}
use kerosene_node.Ledger.Admission.Roles.{
  NodeOp, beating, promoting, promotions_of, run_node_ops, run_node_ops-voter, steps_to_vote,
}
use kerosene_node.Ledger.Chain.{outpoint_eq}
use kerosene_node.Ledger.Chart.{account_eq}
use kerosene_node.Ledger.Gates.{
  can_authorize_withdrawals, credits_allowed, evaluate_degraded_mode, internal_transfers_allowed,
  withdrawals_allowed,
}
use kerosene_node.Ledger.Gates.Modes.{evaluate_degraded_mode_lem}
use kerosene_node.Ledger.Metrics.{LedgerMetrics}
use kerosene_node.Ledger.Reconciliation.{asset_values, deficit, reconcile, warning_tolerance}
use kerosene_node.Ledger.Reconciliation.Totals.{owed, reconcile-deficit, sum}
use kerosene_node.Ledger.Replication.{ReplicationStatus, quarantined}
use kerosene_node.Ledger.State.{LedgerState}
use kerosene_node.Ledger.States.{
  observer, onchain_eq, reservation_state_eq, role_eq, untrusted, voter, withdrawal_status_eq,
}
use kerosene_node.Ledger.Tests.Replicas.{flat, ledger_at}
use kerosene_node.Ledger.Wallets.{
  BalanceView, check_available_non_negative, check_pending_outgoing_not_exceed_available,
  check_reserved_not_exceed_available, check_spendable_consistency, validate_balance,
}

abbrev view : BalanceView
view = record {
  internal_available_sats = 100;
  internal_reserved_sats = 30;
  onchain_confirmed_sats = 90;
  onchain_unconfirmed_sats = 0;
  onchain_reserved_sats = 40;
  pending_incoming_sats = 0;
  pending_outgoing_sats = 20;
  externally_controlled_sats = 0;
  spendable_by_kerosene_sats = 50;
  state_version = 1;
  state_root = "r";
}

view_valid : validate_balance view ≡ ok tt
unfolding validate_balance check_available_non_negative check_reserved_not_exceed_available
    check_pending_outgoing_not_exceed_available check_spendable_consistency
view_valid = refl

abbrev indebted : LedgerState
indebted = record (ledger_at 7) {
  accounts = record (new_account "a") { available_sats = 5000; reserved_sats = 10 } ∷ [];
}

reconcile-deficit_example :
    let r = reconcile flat indebted "tip" true in
    (r.total_assets_sats ≡ sum (asset_values indebted.utxos))
    × ((r.total_liabilities_sats ≡ owed indebted.accounts)
        × ((r.status ≡ deficit) ↔ (
            (true ≡ true)
            × (r.total_assets_sats + warning_tolerance r.total_assets_sats
                < r.total_liabilities_sats))))
reconcile-deficit_example = reconcile-deficit flat indebted "tip" true (omega arith) (omega arith)

abbrev newcomer : NodeMembership
newcomer = record {
  node_id = "n1";
  role = untrusted;
  onion_endpoint = none;
  identity_pubkey = "k";
  attested_at_bucket = 0;
  joined_epoch = 0;
  last_heartbeat_bucket = 0;
  admission_signature = none;
}

abbrev node_ops : List NodeOp
node_ops = promoting "n1" observer ∷ beating "n1" 4 ∷ promoting "n1" voter ∷ []

run_node_ops-voter_example :
    (m : NodeMembership) × ((lookup "n1" (run_node_ops node_ops (("n1", newcomer) ∷ [])) ≡ some m)
      × (3 ≤ steps_to_vote m.role + promotions_of "n1" node_ops))
run_node_ops-voter_example =
    run_node_ops-voter node_ops "n1" newcomer (("n1", newcomer) ∷ []) (tt, (tt, (tt, tt))) refl

abbrev metrics : LedgerMetrics
metrics = record {
  committed_sequence = 9;
  applied_sequence = 9;
  sequence_lag = 0;
  state_root_mismatch_total = 0;
  version_conflict_total = 0;
  idempotency_replay_total = 0;
  insufficient_funds_total = 0;
  reservation_conflict_total = 0;
  quorum_unavailable_total = 1;
  snapshot_install_total = 0;
  divergence_recovery_total = 0;
  node_sync_status = "Quarantined";
  total_accounts = 1;
  total_utxos = 0;
  total_reservations = 0;
  total_withdrawals_pending = 0;
}

abbrev cut_off : ReplicationStatus
cut_off = record {
  epoch = 1;
  committed_sequence = 9;
  applied_sequence = 9;
  state_root = "r";
  leader_view = 0;
  sync_status = quarantined;
}

evaluate_degraded_mode_lem_example :
    let report = reconcile flat indebted "tip" true in
    let mode = evaluate_degraded_mode metrics report cut_off indebted.membership in
    (withdrawals_allowed mode ≡ (can_authorize_withdrawals metrics report cut_off).allowed)
    × ((credits_allowed mode ≡ true) × (internal_transfers_allowed mode ≡ true))
evaluate_degraded_mode_lem_example =
    evaluate_degraded_mode_lem metrics (reconcile flat indebted "tip" true) cut_off
      indebted.membership
