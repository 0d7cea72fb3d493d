-- ===== src/Ledger/Tests/CatchUp.antt =====
-- Runs of `execute_catch_up` of replication.rs.
use kerosene_node.Base.{
  List, [], ap, arith, length, nat_eq, none, refl, some, suc, text_eq, true, zero, ℕ, ◌+◌, ◌<◌, ◌∷◌,
  ◌≡◌, inl, inr, ◌∙◌,
}
use kerosene_node.Base.Results.{err, is_ok, ok, Result, Result-cases}
use kerosene_node.Base.Words.{u64_mod}
use kerosene_node.Ledger.Chain.{outpoint_eq}
use kerosene_node.Ledger.Chart.{account_eq}
use kerosene_node.Ledger.Errors.{LedgerError, node_not_found}
use kerosene_node.Ledger.Machine.Applying.{apply_ledger, perform, perform_as}
use kerosene_node.Ledger.Machine.Validation.{validate}
use kerosene_node.Ledger.Replication.{
  SyncManager, in_sync, replay, Node, execute_catch_up, latest_state,
}
use kerosene_node.Ledger.Replication.Recovering.{execute_catch_up_overshoots}
use kerosene_node.Ledger.Replication.Replaying.{replay-ok}
use kerosene_node.Ledger.Snapshots.{SnapshotStore}
use kerosene_node.Ledger.State.{LedgerCommand}
use kerosene_node.Ledger.States.{onchain_eq, reservation_state_eq, role_eq, withdrawal_status_eq}
use kerosene_node.Ledger.Tests.Replicas.{flat, ledger_at, snapshot_at, unreadable, prepare}

abbrev manager : SyncManager
manager = record {
  State = ℕ;
  status = λ s. err node_missing;
  check_divergence = λ peer s. ok in_sync;
  start_catch_up = λ n s. (ok tt, n);
  request_snapshot = λ n s. (err node_missing, s);
  mark_quarantined = λ reason s. (ok tt, s);
  recover_from_divergence = λ s. (ok tt, s);
}
  where
    node_missing : LedgerError
    node_missing = node_not_found "n"

-- A store whose latest snapshot is of the ledger at version 40.
abbrev snapshot_store : SnapshotStore
snapshot_store = record {
  State = Unit {0};
  save_snapshot = λ n s. (ok tt, s);
  latest_snapshot = λ s. ok (some (snapshot_at 39));
  get_snapshot = λ k s. ok none;
  install_snapshot = λ n. ok (ledger_at 40);
}

abbrev repeat_prepare : ℕ → List LedgerCommand
repeat_prepare zero = []
repeat_prepare (suc n) = prepare ∷ repeat_prepare n

length-repeat_prepare : (n : ℕ) → length (repeat_prepare n) ≡ n
length-repeat_prepare zero = refl
length-repeat_prepare (suc n) = ap suc (length-repeat_prepare n)

apply_prepare :
    (v : ℕ)
    → v + 1 < u64_mod
    → (is_ok (apply_ledger flat unreadable prepare (ledger_at v)).0 ≡ true)
      × ((apply_ledger flat unreadable prepare (ledger_at v)).1 ≡ ledger_at (v + 1))
unfolding apply_ledger perform perform_as validate
apply_prepare v h = (refl, ap ledger_at (omega arith))

abbrev all_applied : Result LedgerError (Unit {0})
all_applied = ok tt

latest_found : latest_state snapshot_store 7 tt ≡ ok (snapshot_at 39, ledger_at 40)
unfolding latest_state
latest_found = refl

replay_prepare :
    (n v : ℕ)
    → v + n < u64_mod
    → replay (apply_ledger flat unreadable) (repeat_prepare n) (ledger_at v)
      ≡ (ok tt, ledger_at (v + n))
unfolding replay
replay_prepare zero v h = ap (λ (w : ℕ). (all_applied, ledger_at w)) (omega arith)
replay_prepare (suc n) v h =
    let (applied, advanced) = apply_prepare v (omega (arith, h)) in
    elim (Result-cases (apply_ledger flat unreadable prepare (ledger_at v)).0) [
      | inl (r, p) ↦
          replay-ok (apply_ledger flat unreadable) prepare (repeat_prepare n) (ledger_at v) r p
          ∙ rw advanced (
              replay_prepare n (v + 1) (omega (arith, h))
              ∙ ap (λ (w : ℕ). (all_applied, ledger_at w)) (omega arith))
      | inr (e, p) ↦ absurd (ground (arith, applied, p))
    ]

abbrev node_at : ℕ → ℕ → Node ℕ
node_at sync version = record { sync = sync; ledger = ledger_at version }

caught_up :
    execute_catch_up
      (apply_ledger flat unreadable)
      manager
      snapshot_store
      tt
      7
      (repeat_prepare 10001)
      (node_at 0 8)
    ≡ (ok tt, node_at 7 10041)
unfolding execute_catch_up latest_state
caught_up = ground (arith, length-repeat_prepare 10001, replay_prepare 10001 40 (omega arith))

execute_catch_up_overshoots_example :
    (10041 ≡ 40 + length (repeat_prepare 10001)) × (8 + length (repeat_prepare 10001) < 10041)
execute_catch_up_overshoots_example =
    execute_catch_up_overshoots flat unreadable manager snapshot_store tt 7 (repeat_prepare 10001)
      (node_at 0 8) (node_at 7 10041) (snapshot_at 39, ledger_at 40)
      (omega (arith, length-repeat_prepare 10001)) latest_found
      (omega (arith, length-repeat_prepare 10001)) (omega arith) caught_up
