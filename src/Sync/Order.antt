-- ===== src/Sync/Order.antt =====
-- The order of the lifecycle of crates/kerosene-sync/src/lib.rs.
use kerosene_node.Base.{arith, nat_eq, suc, text_eq, ◌≡◌, ◌≢◌, ◌⊎◌}
use kerosene_node.Base.Results.{err, ok}
use kerosene_node.Ledger.Chain.{outpoint_eq}
use kerosene_node.Ledger.Chart.{account_eq}
use kerosene_node.Ledger.States.{onchain_eq, reservation_state_eq, role_eq, withdrawal_status_eq}
use kerosene_node.Sync.{LifecycleState, advance, invalid_transition, stage}

-- An advance succeeds exactly to the next stage, and moves there; otherwise the state stays.
pub advance_lem :
    (s t : LifecycleState)
    → ((stage t ≡ suc (stage s)) × (advance t s ≡ (ok tt, t)))
      ⊎ ((stage t ≢ suc (stage s)) × (advance t s ≡ (err (invalid_transition s t), s)))
unfolding advance
advance_lem s t = ground arith
