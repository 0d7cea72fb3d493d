-- ===== src/Ledger/Replication/Recovering.antt =====
-- What `recover_divergence` and `execute_catch_up` of replication.rs leave.
use kerosene_node.Base.{
  List, inl, inr, length, nat_eq, text_eq, ℕ, ◌%◌, ◌<◌, ◌≡◌, ◌≤◌, ◌⊎◌, Bool-cases, ltb, ap, arith,
  refl, none, ◌+◌,
}
use kerosene_node.Base.Results.{
  Handler, ok, bind-succeeds, then_do, Result, pair_eta, check, err, assign, ok_inj,
}
use kerosene_node.Base.Words.{u64_mod}
use kerosene_node.Ledger.Certificates.{Crypto}
use kerosene_node.Ledger.Chain.{outpoint_eq}
use kerosene_node.Ledger.Chart.{account_eq}
use kerosene_node.Ledger.Errors.{LedgerError, snapshot_not_found}
use kerosene_node.Ledger.Machine.Applying.{apply_ledger}
use kerosene_node.Ledger.Machine.Validation.{Payloads}
use kerosene_node.Ledger.Replication.{
  Node, SyncManager, execute_catch_up, latest_state, max_replay_commands, replay, on_ledger,
  on_sync, from_epoch, recover_divergence, restore_latest,
}
use kerosene_node.Ledger.Replication.Replaying.{replay-version}
use kerosene_node.Ledger.Snapshots.{CertifiedSnapshot, SnapshotStore}
use kerosene_node.Ledger.State.{LedgerCommand, LedgerState}
use kerosene_node.Ledger.States.{onchain_eq, reservation_state_eq, role_eq, withdrawal_status_eq}

module _ {R : Type 0} (apply : LedgerCommand → Handler LedgerState LedgerError R)
    (manager : SyncManager) (store : SnapshotStore) (held : store.State) where
  -- The state that a catch-up replays its commands on: the node's own, or the latest snapshot's when
  -- there are more commands than may be replayed.
  abbrev pub IsBase : ℕ → List LedgerCommand → LedgerState → LedgerState → Type 0
  IsBase from_sequence cs own base =
      ((length cs % u64_mod ≤ max_replay_commands) × (base ≡ own))
      ⊎ ((max_replay_commands < length cs % u64_mod)
          × ((n : CertifiedSnapshot) × (latest_state store from_sequence held ≡ ok (n, base))))

  -- The last two steps of both branches of `execute_catch_up`.
  resumed :
      (from_sequence : ℕ) (cs : List LedgerCommand) (n m : Node manager.State)
      → then_do (on_sync (manager.start_catch_up from_sequence)) (on_ledger (replay apply cs)) n
        ≡ (ok tt, m)
      → (manager.start_catch_up from_sequence n.sync ≡ (ok tt, m.sync))
        × (replay apply cs n.ledger ≡ (ok tt, m.ledger))
  resumed from_sequence cs n m h =
      let (_, (started, rest)) =
        bind-succeeds (on_sync (manager.start_catch_up from_sequence))
          (λ _. on_ledger (replay apply cs)) n m tt h in
      (
        pair_eta (manager.start_catch_up from_sequence n.sync) (ok tt) m.sync started
            (ap (λ (q : Result LedgerError (Unit {0}) × Node manager.State). q.1.sync) rest),
        pair_eta (replay apply cs n.ledger) (ok tt) m.ledger
            (ap (λ (q : Result LedgerError (Unit {0}) × Node manager.State). q.0) rest)
            (ap (λ (q : Result LedgerError (Unit {0}) × Node manager.State). q.1.ledger) rest),
      )

  restored_first :
      (sequence : ℕ) (f : CertifiedSnapshot → Handler (Node manager.State) LedgerError (Unit {0}))
      (n m : Node manager.State)
      → restore_latest store held sequence f n ≡ (ok tt, m)
      → (picked : CertifiedSnapshot × LedgerState) × ((latest_state store sequence held ≡ ok picked)
          × (f picked.0 (record { sync = n.sync; ledger = picked.1 }) ≡ (ok tt, m)))
  restored_first sequence f n m h =
      bind-succeeds {A = CertifiedSnapshot × LedgerState}
        (check λ _. latest_state store sequence held)
        (λ p.
          then_do (assign λ (k : Node manager.State). record { sync = k.sync; ledger = p.1 })
            (f p.0))
        n m tt h

  -- A catch-up that succeeds told the sync manager and replayed all the commands, on the node's own
  -- state, or on the state of the latest snapshot when there are more than 10000.
  execute_catch_up-IsBase :
      (from_sequence : ℕ) (cs : List LedgerCommand) (n m : Node manager.State)
      → execute_catch_up apply manager store held from_sequence cs n ≡ (ok tt, m)
      → (manager.start_catch_up from_sequence n.sync ≡ (ok tt, m.sync))
        × ((base : LedgerState) × (IsBase from_sequence cs n.ledger base
              × (replay apply cs base ≡ (ok tt, m.ledger))))
  unfolding execute_catch_up
  execute_catch_up-IsBase from_sequence cs n m h =
      elim (Bool-cases (ltb max_replay_commands (length cs % u64_mod))) [
        | inl long ↦
            (let (picked, (found, rest)) =
                restored_first from_sequence
                  (λ _.
                    then_do (on_sync (manager.start_catch_up from_sequence))
                      (on_ledger (replay apply cs)))
                  n m (rw (long, execute_catch_up) at h) in
              let (started, replayed) =
                resumed from_sequence cs (record { sync = n.sync; ledger = picked.1 }) m rest in
              (started, (picked.1, (inr (ground (arith, long), (picked.0, found)), replayed))))
        | inr short ↦
            (let (started, replayed) =
                resumed from_sequence cs n m (rw (short, execute_catch_up) at h) in
              (started, (n.ledger, (inl (ground (arith, short), refl), replayed))))
      ]

  -- A recovery that succeeds first quarantined the node, and then replayed, on the state of the
  -- latest snapshot, exactly the commands whose epoch is the snapshot's or a later one.
  recover_divergence_lem :
      (cs : List LedgerCommand) (n m : Node manager.State)
      → recover_divergence apply manager store held cs n ≡ (ok tt, m)
      → (manager.mark_quarantined "divergence detected" n.sync ≡ (ok tt, m.sync))
        × ((picked : CertifiedSnapshot × LedgerState) × ((latest_state store 0 held ≡ ok picked)
              × (replay apply (from_epoch picked.0.epoch cs) picked.1 ≡ (ok tt, m.ledger))))
  unfolding recover_divergence
  recover_divergence_lem cs n m h =
      let (_, (marked, rest)) =
        bind-succeeds (on_sync (manager.mark_quarantined "divergence detected"))
          (λ _. restore_latest store held 0 λ s. on_ledger (replay apply (from_epoch s.epoch cs))) n
          m tt h in
      let after_mark = (manager.mark_quarantined "divergence detected" n.sync).1 in
      let (picked, (found, replayed)) =
        restored_first 0 (λ s. on_ledger (replay apply (from_epoch s.epoch cs)))
          (record { sync = after_mark; ledger = n.ledger }) m rest in
      (
        pair_eta (manager.mark_quarantined "divergence detected" n.sync) (ok tt) m.sync marked
            (ap (λ (q : Result LedgerError (Unit {0}) × Node manager.State). q.1.sync) replayed),
        (
          picked,
          (
            found,
            pair_eta (replay apply (from_epoch picked.0.epoch cs) picked.1) (ok tt) m.ledger
                (ap (λ (q : Result LedgerError (Unit {0}) × Node manager.State). q.0) replayed)
                (ap (λ (q : Result LedgerError (Unit {0}) × Node manager.State). q.1.ledger)
                  replayed),
          ),
        ),
      )

  -- With no snapshot to install a recovery fails, and leaves the node quarantined with its ledger as
  -- it was.
  recover_divergence_without_snapshot :
      (cs : List LedgerCommand) (n : Node manager.State) (after_mark : manager.State)
      → manager.mark_quarantined "divergence detected" n.sync ≡ (ok tt, after_mark)
      → store.latest_snapshot held ≡ ok none
      → recover_divergence apply manager store held cs n
        ≡ (err (snapshot_not_found 0), record { sync = after_mark; ledger = n.ledger })
  unfolding recover_divergence latest_state
  recover_divergence_without_snapshot cs n after_mark marked missing =
      ground (arith, marked, missing)

module _ (crypto : Crypto) (payloads : Payloads) (manager : SyncManager) (store : SnapshotStore)
    (held : store.State) where
  -- When a node has more commands to catch up on than may be replayed and stands at a version below
  -- the latest snapshot's, and the snapshot's version and the number of commands add up to a `u64`, a
  -- catch-up that succeeds leaves the snapshot's version advanced by every missing command: beyond
  -- the node's target, its own version advanced by the missing commands.
  pub execute_catch_up_overshoots :
      (from_sequence : ℕ) (cs : List LedgerCommand) (n m : Node manager.State)
      (picked : CertifiedSnapshot × LedgerState)
      → max_replay_commands < length cs % u64_mod
      → latest_state store from_sequence held ≡ ok picked
      → picked.1.version + length cs < u64_mod
      → n.ledger.version < picked.1.version
      → execute_catch_up (apply_ledger crypto payloads) manager store held from_sequence cs n
        ≡ (ok tt, m)
      → (m.ledger.version ≡ picked.1.version + length cs)
        × (n.ledger.version + length cs < m.ledger.version)
  execute_catch_up_overshoots from_sequence cs n m picked long found small lagging h =
      let (_, (base, (chosen, replayed))) =
        execute_catch_up-IsBase (apply_ledger crypto payloads) manager store held from_sequence cs n
          m h in
      elim chosen [
        | inl (short, _) ↦ omega (arith, long, short)
        | inr (_, (sn, same)) ↦
            (let is_base : base.version ≡ picked.1.version =
                ap (λ (p : CertifiedSnapshot × LedgerState). p.1.version)
                  (ok_inj (latest_state store from_sequence held) same found) in
              let advanced =
                replay-version crypto payloads cs base m.ledger (omega arith) replayed in
              omega (arith, advanced, is_base))
      ]
