-- ===== src/Service/Bootstrap.antt =====
-- `bootstrap_local_lifecycle` of crates/kerosene-node/src/lib.rs.
use kerosene_node.Base.{
  Bool, false, if◌then◌else◌, ltb, nat_eq, none, some, suc, text_eq, true, zero, ℕ, ◌≡◌, refl,
}
use kerosene_node.Base.Results.{Result, err, ok}
use kerosene_node.Ledger.Chain.{outpoint_eq}
use kerosene_node.Ledger.Chart.{account_eq}
use kerosene_node.Ledger.States.{onchain_eq, reservation_state_eq, role_eq, withdrawal_status_eq}
use kerosene_node.Sync.{
  LifecycleState, SyncError, advance, created, discovering, identity_ready, next_state, stage,
  transport_ready, active, authenticated, eligible, member_verified, state_verified, syncing,
}

-- How a run of the loop ends; the fuel is the model's own.
pub data LoopEnd : Type 0 where
  finished : Result SyncError (Unit {0}) → LifecycleState → LoopEnd
  panicked out_of_fuel : LoopEnd

abbrev pub is_bootstrap : LifecycleState → Bool
is_bootstrap created = true
is_bootstrap identity_ready = true
is_bootstrap transport_ready = true
is_bootstrap _ = false

unfoldable pub bootstrap_local_lifecycle : ℕ → LifecycleState → LoopEnd
unfolding next_state
bootstrap_local_lifecycle zero s = out_of_fuel
bootstrap_local_lifecycle (suc fuel) s =
    if is_bootstrap s
    then elim (next_state s) [
      | none ↦ panicked
      | some next ↦ elim ((advance next s).0) [
        | err e ↦ finished (err e) (advance next s).1
        | ok _ ↦ bootstrap_local_lifecycle fuel (advance next s).1
      ]
    ]
    else finished (ok tt) s

-- The loop ends for every lifecycle in at most four rounds, with no error and no panic: in the
-- discovering state if it started before it, and where it was otherwise.
pub bootstrap_local_lifecycle-finished :
    (s : LifecycleState) (fuel : ℕ)
    → bootstrap_local_lifecycle (suc (suc (suc (suc fuel)))) s
      ≡ finished (ok tt) (if ltb (stage s) (stage discovering) then discovering else s)
unfolding bootstrap_local_lifecycle advance
bootstrap_local_lifecycle-finished created fuel = refl
bootstrap_local_lifecycle-finished identity_ready fuel = refl
bootstrap_local_lifecycle-finished transport_ready fuel = refl
bootstrap_local_lifecycle-finished discovering fuel = refl
bootstrap_local_lifecycle-finished authenticated fuel = refl
bootstrap_local_lifecycle-finished member_verified fuel = refl
bootstrap_local_lifecycle-finished syncing fuel = refl
bootstrap_local_lifecycle-finished state_verified fuel = refl
bootstrap_local_lifecycle-finished eligible fuel = refl
bootstrap_local_lifecycle-finished active fuel = refl
