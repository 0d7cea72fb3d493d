-- ===== src/Ledger/Metrics.antt =====
-- The metrics of crates/kerosene-ledger/src/metrics.rs.
use kerosene_node.Base.{
  List, String, [], arith, if◌then◌else◌, nat_eq, none, some, text_eq, ℕ, ◌+◌, ◌<◌, ◌==◌, ◌∷◌, ◌≡◌,
  text_iff,
}
use kerosene_node.Base.Table.{Table, insert, lookup, lookup-insert}
use kerosene_node.Base.Words.{saturating_add, saturating_sub, u64_mod}
use kerosene_node.Ledger.Chain.{outpoint_eq}
use kerosene_node.Ledger.Chart.{account_eq}
use kerosene_node.Ledger.States.{onchain_eq, reservation_state_eq, role_eq, withdrawal_status_eq}

pub record LedgerMetrics : Type 0 where
  pub committed_sequence : ℕ
  pub applied_sequence : ℕ
  pub sequence_lag : ℕ
  pub state_root_mismatch_total : ℕ
  pub version_conflict_total : ℕ
  pub idempotency_replay_total : ℕ
  pub insufficient_funds_total : ℕ
  pub reservation_conflict_total : ℕ
  pub quorum_unavailable_total : ℕ
  pub snapshot_install_total : ℕ
  pub divergence_recovery_total : ℕ
  pub node_sync_status : String
  pub total_accounts : ℕ
  pub total_utxos : ℕ
  pub total_reservations : ℕ
  pub total_withdrawals_pending : ℕ

-- `BasicMetricsInner`
pub record BasicMetrics : Type 0 where
  pub counters : Table String ℕ
  pub gauges : Table String ℕ
  pub committed_sequence : ℕ
  pub applied_sequence : ℕ
  pub node_sync_status : String
  pub total_accounts : ℕ
  pub total_utxos : ℕ
  pub total_reservations : ℕ
  pub total_withdrawals_pending : ℕ

-- `BasicMetricsCollector::new`
pub no_metrics : BasicMetrics
no_metrics = record {
  counters = [];
  gauges = [];
  committed_sequence = 0;
  applied_sequence = 0;
  node_sync_status = "";
  total_accounts = 0;
  total_utxos = 0;
  total_reservations = 0;
  total_withdrawals_pending = 0;
}

-- `counters.get(name).copied().unwrap_or(0)`
unfoldable pub counter : String → BasicMetrics → ℕ
counter name m = elim (lookup name m.counters) [ none ↦ 0 | some n ↦ n ]

-- `MetricsCollector::snapshot`
unfoldable pub metrics_snapshot : BasicMetrics → LedgerMetrics
unfolding counter
metrics_snapshot m = record {
  committed_sequence = m.committed_sequence;
  applied_sequence = m.applied_sequence;
  sequence_lag = saturating_sub m.committed_sequence m.applied_sequence;
  state_root_mismatch_total = counter "state_root_mismatch" m;
  version_conflict_total = counter "version_conflict" m;
  idempotency_replay_total = counter "idempotency_replay" m;
  insufficient_funds_total = counter "insufficient_funds" m;
  reservation_conflict_total = counter "reservation_conflict" m;
  quorum_unavailable_total = counter "quorum_unavailable" m;
  snapshot_install_total = counter "snapshot_install" m;
  divergence_recovery_total = counter "divergence_recovery" m;
  node_sync_status = m.node_sync_status;
  total_accounts = m.total_accounts;
  total_utxos = m.total_utxos;
  total_reservations = m.total_reservations;
  total_withdrawals_pending = m.total_withdrawals_pending;
}

unfoldable pub increment_counter : String → ℕ → BasicMetrics → BasicMetrics
unfolding counter
increment_counter name value m = record m {
  counters = insert name (saturating_add (counter name m) value) m.counters;
}

unfoldable pub set_gauge : String → ℕ → BasicMetrics → BasicMetrics
set_gauge name value m = record m { gauges = insert name value m.gauges }

unfoldable pub set_committed_sequence : ℕ → BasicMetrics → BasicMetrics
set_committed_sequence n m = record m { committed_sequence = n }

unfoldable pub set_applied_sequence : ℕ → BasicMetrics → BasicMetrics
set_applied_sequence n m = record m { applied_sequence = n }

unfoldable pub set_node_sync_status : String → BasicMetrics → BasicMetrics
set_node_sync_status status m = record m { node_sync_status = status }

unfoldable pub set_total_accounts : ℕ → BasicMetrics → BasicMetrics
set_total_accounts n m = record m { total_accounts = n }

unfoldable pub set_total_utxos : ℕ → BasicMetrics → BasicMetrics
set_total_utxos n m = record m { total_utxos = n }

unfoldable pub set_total_reservations : ℕ → BasicMetrics → BasicMetrics
set_total_reservations n m = record m { total_reservations = n }

unfoldable pub set_total_withdrawals_pending : ℕ → BasicMetrics → BasicMetrics
set_total_withdrawals_pending n m = record m { total_withdrawals_pending = n }

-- The increments of one counter.
abbrev pub increments_of : String → List (String × ℕ) → ℕ
increments_of name [] = 0
increments_of name ((n, value) ∷ rest) =
    if n == name then value + increments_of name rest else increments_of name rest

abbrev pub increment_all : List (String × ℕ) → BasicMetrics → BasicMetrics
increment_all [] m = m
increment_all ((name, value) ∷ rest) m = increment_all rest (increment_counter name value m)

counter-increment_counter :
    (name n : String) (value : ℕ) (m : BasicMetrics)
    → counter name (increment_counter n value m)
      ≡ (if n == name then saturating_add (counter name m) value else counter name m)
unfolding increment_counter counter
counter-increment_counter name n value m =
    ground
      (arith, lookup-insert n name (saturating_add (counter n m) value) m.counters, text_iff n name)

-- A counter counts: after any increments it is the sum of those that name it, on top of what it was,
-- as long as that sum fits a `u64`, and the largest `u64` from there on.
counter-increment_all :
    (name : String) (values : List (String × ℕ)) (m : BasicMetrics)
    → counter name m < u64_mod
    → counter name (increment_all values m)
      ≡ saturating_add (counter name m) (increments_of name values)
counter-increment_all name [] m small = ground (arith, small)
counter-increment_all name ((n, value) ∷ rest) m small = ground (
  arith,
  small,
  counter-increment_counter name n value m,
  counter-increment_all name rest (increment_counter n value m),
)
