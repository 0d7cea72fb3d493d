-- ===== src/Ledger/Replication.antt =====
-- Catching up with the cluster: crates/kerosene-ledger/src/replication.rs. The traits `SyncManager`
-- and `SnapshotStore` are records of operations over unknown states, and `apply` of
-- `DeterministicStateMachine` is a handler on the ledger's state.
pub mod Replaying
pub mod Recovering
use kerosene_node.Base.{
  Bool, List, String, [], false, if◌then◌else◌, leb, length, ltb, nat_eq, none, some, text_eq, true,
  ℕ, ◌%◌, ◌&&◌, ◌==◌, ◌∷◌,
}
use kerosene_node.Base.Results.{
  bind as ◌>>=◌, then_do as ◌>>◌, Handler, Result, assign, check, err, ok, return,
}
use kerosene_node.Base.Words.{saturating_sub, u64_mod}
use kerosene_node.Ledger.Chain.{outpoint_eq}
use kerosene_node.Ledger.Chart.{account_eq}
use kerosene_node.Ledger.Errors.{LedgerError, snapshot_not_found}
use kerosene_node.Ledger.Snapshots.{CertifiedSnapshot, SnapshotStore}
use kerosene_node.Ledger.State.{LedgerCommand, LedgerState, install_snapshot}
use kerosene_node.Ledger.States.{onchain_eq, reservation_state_eq, role_eq, withdrawal_status_eq}

-- `MAX_REPLAY_COMMANDS`
abbrev pub max_replay_commands : ℕ
max_replay_commands = 10000

pub data SyncStatus : Type 0 where
  healthy catching_up snapshot_required diverged quarantined : SyncStatus

pub record ReplicationStatus : Type 0 where
  pub epoch : ℕ
  pub committed_sequence : ℕ
  pub applied_sequence : ℕ
  pub state_root : String
  pub leader_view : ℕ
  pub sync_status : SyncStatus

pub data DivergenceResult : Type 0 where
  in_sync : DivergenceResult
  ahead behind : ℕ → ℕ → DivergenceResult
  roots_differ : String → String → DivergenceResult

pub data CatchUpStrategy : Type 0 where
  replay_commands install_first : CatchUpStrategy

pub record CatchUpPlan : Type 0 where
  pub from_sequence : ℕ
  pub to_sequence : ℕ
  pub missing_count : ℕ
  pub strategy : CatchUpStrategy

-- `CatchUpPlan::new`
unfoldable pub new_plan : ℕ → ℕ → CatchUpPlan
new_plan from_sequence to_sequence =
    let missing = saturating_sub to_sequence from_sequence in
    record {
      from_sequence = from_sequence;
      to_sequence = to_sequence;
      missing_count = missing;
      strategy = if ltb max_replay_commands missing then install_first else replay_commands;
    }

abbrev pub is_healthy : SyncStatus → Bool
is_healthy healthy = true
is_healthy _ = false

unfoldable pub can_vote : ReplicationStatus → Bool
can_vote status =
    is_healthy status.sync_status && (status.applied_sequence == status.committed_sequence)

pub record SyncManager : Type 1 where
  pub State : Type 0
  pub status : State → Result LedgerError ReplicationStatus
  pub check_divergence : ReplicationStatus → State → Result LedgerError DivergenceResult
  pub start_catch_up : ℕ → Handler State LedgerError (Unit {0})
  pub request_snapshot : ℕ → Handler State LedgerError CertifiedSnapshot
  pub mark_quarantined : String → Handler State LedgerError (Unit {0})
  pub recover_from_divergence : Handler State LedgerError (Unit {0})

-- `commands.iter().filter(|c| c.epoch >= snapshot_epoch)`
abbrev pub from_epoch : ℕ → List LedgerCommand → List LedgerCommand
from_epoch epoch [] = []
from_epoch epoch (c ∷ cs) =
    let rest = from_epoch epoch cs in if leb epoch c.epoch then c ∷ rest else rest

-- What the flows change: the sync manager's state and the ledger's.
pub record Node (S : Type 0) : Type 0 where
  pub sync : S
  pub ledger : LedgerState

abbrev pub on_sync : {S A : Type 0} → Handler S LedgerError A → Handler (Node S) LedgerError A
on_sync f n = let (r, s) = f n.sync in (r, record { sync = s; ledger = n.ledger })

abbrev pub on_ledger :
    {S A : Type 0} → Handler LedgerState LedgerError A → Handler (Node S) LedgerError A
on_ledger f n = let (r, t) = f n.ledger in (r, record { sync = n.sync; ledger = t })

-- `latest_snapshot()?.ok_or(SnapshotNotFound(sequence))?`, then `install_snapshot`
unfoldable pub latest_state :
    (store : SnapshotStore) → ℕ → store.State → Result LedgerError (CertifiedSnapshot × LedgerState)
latest_state store sequence held = elim (store.latest_snapshot held) [
  | err e ↦ err e
  | ok none ↦ err (snapshot_not_found sequence)
  | ok (some n) ↦ elim (store.install_snapshot n) [ err e ↦ err e | ok s ↦ ok (n, s) ]
]

-- `let restored_state = ..; *state = restored_state;` and what follows
abbrev pub restore_latest :
    {S : Type 0} (store : SnapshotStore) (held : store.State)
    → ℕ
    → (CertifiedSnapshot → Handler (Node S) LedgerError (Unit {0}))
    → Handler (Node S) LedgerError (Unit {0})
restore_latest store held sequence rest = do
  (snapshot, restored) ← check λ n. latest_state store sequence held
  assign λ n. record { sync = n.sync; ledger = restored }
  rest snapshot

module _ {R : Type 0} (apply : LedgerCommand → Handler LedgerState LedgerError R) where
  -- `for cmd in commands { state_machine.apply(state, cmd)?; }`
  unfoldable pub replay : List LedgerCommand → Handler LedgerState LedgerError (Unit {0})
  replay [] = return tt
  replay (c ∷ cs) = do applied ← apply c; replay cs

  module _ (manager : SyncManager) (store : SnapshotStore) (held : store.State) where
    unfoldable pub recover_divergence :
        List LedgerCommand → Handler (Node manager.State) LedgerError (Unit {0})
    recover_divergence commands = do
      on_sync (manager.mark_quarantined "divergence detected")
      restore_latest store held 0
          λ snapshot. on_ledger (replay (from_epoch snapshot.epoch commands))

    unfoldable pub execute_catch_up :
        ℕ → List LedgerCommand → Handler (Node manager.State) LedgerError (Unit {0})
    execute_catch_up from_sequence commands =
        if ltb max_replay_commands (length commands % u64_mod)
        then (do
          restore_latest store held from_sequence λ snapshot. do
            on_sync (manager.start_catch_up from_sequence)
            on_ledger (replay commands))
        else (do on_sync (manager.start_catch_up from_sequence); on_ledger (replay commands))
