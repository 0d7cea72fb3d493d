-- ===== src/Ledger/Wallets.antt =====
-- `BalanceView` of crates/kerosene-ledger/src/wallet.rs with the checks of
-- crates/kerosene-ledger/src/invariants.rs. The checks of the state version and of overflow accept
-- every view, as in the source.
use kerosene_node.Base.{
  Bool, String, arith, if◌then◌else◌, leb, ltb, nat_eq, not, text_eq, ℕ, ◌&&◌, ◌+◌, ◌-◌, ◌==◌, ◌||◌,
  ◌≡◌, ◌≤◌,
}
use kerosene_node.Base.Results.{Result, ok, reject_if, ◌>>◌}
use kerosene_node.Base.Words.{saturating_sub, u64_mod}
use kerosene_node.Ledger.Chain.{outpoint_eq}
use kerosene_node.Ledger.Chart.{account_eq}
use kerosene_node.Ledger.Errors.{
  LedgerError, internal_at_max, invariant_violation, onchain_at_max,
  pending_outgoing_exceeds_available, reserved_exceeds_available, zero_spendable_with_balances,
}
use kerosene_node.Ledger.States.{onchain_eq, reservation_state_eq, role_eq, withdrawal_status_eq}

pub record BalanceView : Type 0 where
  pub internal_available_sats : ℕ
  pub internal_reserved_sats : ℕ
  pub onchain_confirmed_sats : ℕ
  pub onchain_unconfirmed_sats : ℕ
  pub onchain_reserved_sats : ℕ
  pub pending_incoming_sats : ℕ
  pub pending_outgoing_sats : ℕ
  pub externally_controlled_sats : ℕ
  pub spendable_by_kerosene_sats : ℕ
  pub state_version : ℕ
  pub state_root : String

unfoldable pub internal_spendable : BalanceView → ℕ
internal_spendable v = saturating_sub v.internal_available_sats v.internal_reserved_sats

abbrev min_ℕ : ℕ → ℕ → ℕ
min_ℕ a b = if leb a b then a else b

unfoldable pub custodied_spendable : BalanceView → ℕ
unfolding internal_spendable
custodied_spendable v =
    min_ℕ (internal_spendable v) (saturating_sub v.onchain_confirmed_sats v.onchain_reserved_sats)

unfoldable pub is_watch_only : BalanceView → Bool
is_watch_only v = v.spendable_by_kerosene_sats == 0

unfoldable pub check_available_non_negative : BalanceView → Result LedgerError (Unit {0})
check_available_non_negative v = do
  reject_if (v.internal_available_sats == u64_mod - 1) (invariant_violation internal_at_max)
  reject_if (v.onchain_confirmed_sats == u64_mod - 1) (invariant_violation onchain_at_max)

unfoldable pub check_reserved_not_exceed_available : BalanceView → Result LedgerError (Unit {0})
check_reserved_not_exceed_available v = do
  reject_if (ltb v.internal_available_sats v.internal_reserved_sats)
      (reserved_exceeds_available v.internal_reserved_sats v.internal_available_sats)
  reject_if (ltb v.onchain_confirmed_sats v.onchain_reserved_sats)
      (reserved_exceeds_available v.onchain_reserved_sats v.onchain_confirmed_sats)

unfoldable pub check_pending_outgoing_not_exceed_available :
    BalanceView → Result LedgerError (Unit {0})
check_pending_outgoing_not_exceed_available v =
    reject_if (ltb v.internal_available_sats v.pending_outgoing_sats)
      (pending_outgoing_exceeds_available v.pending_outgoing_sats v.internal_available_sats)

unfoldable pub check_spendable_consistency : BalanceView → Result LedgerError (Unit {0})
check_spendable_consistency v =
    reject_if
      ((v.spendable_by_kerosene_sats == 0)
        && (not (v.internal_available_sats == 0)
            || (not (v.onchain_confirmed_sats == 0) || not (v.onchain_unconfirmed_sats == 0))))
      (invariant_violation zero_spendable_with_balances)

unfoldable pub check_state_version_monotonic : BalanceView → Result LedgerError (Unit {0})
check_state_version_monotonic v = ok tt

unfoldable pub check_no_balance_overflow : BalanceView → Result LedgerError (Unit {0})
check_no_balance_overflow v = ok tt

-- `BalanceView::validate`
unfoldable pub validate_balance : BalanceView → Result LedgerError (Unit {0})
unfolding check_available_non_negative check_reserved_not_exceed_available
    check_pending_outgoing_not_exceed_available check_spendable_consistency
    check_state_version_monotonic check_no_balance_overflow
validate_balance v = do
  check_available_non_negative v
  check_reserved_not_exceed_available v
  check_pending_outgoing_not_exceed_available v
  check_spendable_consistency v
  check_state_version_monotonic v
  check_no_balance_overflow v

-- In a view that passes its checks nothing saturates: the spendable balance and the reserved one add
-- up to the available one, what a custodied wallet can spend is covered by its free balance inside
-- and on the chain, and pending payments are covered.
validate_balance-covered :
    (v : BalanceView)
    → validate_balance v ≡ ok tt
    → (internal_spendable v + v.internal_reserved_sats ≡ v.internal_available_sats)
      × ((custodied_spendable v + v.internal_reserved_sats ≤ v.internal_available_sats)
          × ((custodied_spendable v + v.onchain_reserved_sats ≤ v.onchain_confirmed_sats)
              × (v.pending_outgoing_sats ≤ v.internal_available_sats)))
unfolding validate_balance internal_spendable custodied_spendable check_available_non_negative
    check_reserved_not_exceed_available check_pending_outgoing_not_exceed_available
    check_spendable_consistency
validate_balance-covered v h = ground (arith, h)
