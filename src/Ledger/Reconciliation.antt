-- ===== src/Ledger/Reconciliation.antt =====
-- Reconciliation: crates/kerosene-ledger/src/reconciliation.rs.
pub mod Totals
use kerosene_node.Base.{
  Bool, List, String, [], false, if◌then◌else◌, leb, ltb, map, nat_eq, not, text_eq, true, ℕ, ◌&&◌,
  ◌+◌, ◌/◌, ◌==◌, ◌∷◌,
}
use kerosene_node.Base.Int.{is_negative, is_positive, neg_part, pos_part, sub_ℕ, ℤ}
use kerosene_node.Base.Words.{saturating_add}
use kerosene_node.Ledger.Account.{AccountState}
use kerosene_node.Ledger.Certificates.{Crypto}
use kerosene_node.Ledger.Chain.{UtxoEntry, outpoint_eq}
use kerosene_node.Ledger.Chart.{account_eq}
use kerosene_node.Ledger.Roots.{compute_state_root}
use kerosene_node.Ledger.State.{LedgerState}
use kerosene_node.Ledger.States.{
  OnchainState, WithdrawalStatus, confirmed, failed, onchain_eq, replaced, reservation_state_eq,
  role_eq, spent, withdrawal_status_eq,
}

pub data ReconciliationStatus : Type 0 where
  balanced warning deficit surplus incomplete_chain_data : ReconciliationStatus

pub record ReconciliationReport : Type 0 where
  pub state_root : String
  pub chain_tip_hash : String
  pub total_assets_sats : ℕ
  pub total_liabilities_sats : ℕ
  pub total_reserved_sats : ℕ
  pub total_pending_sats : ℕ
  pub difference_sats : ℤ
  pub status : ReconciliationStatus

pub record ReconciliationInputs : Type 0 where
  pub hot_sats : ℕ
  pub cold_sats : ℕ
  pub custodied_sats : ℕ
  pub lightning_sats : ℕ
  pub available_sats : ℕ
  pub reserved_sats : ℕ
  pub pending_sats : ℕ
  pub credits_sats : ℕ

-- `ReconciliationReport::calculate`
unfoldable pub calculate_report : ReconciliationInputs → Bool → ReconciliationReport
calculate_report i complete =
    let assets =
      saturating_add (saturating_add (saturating_add i.hot_sats i.cold_sats) i.custodied_sats)
        i.lightning_sats in
    let liabilities =
      saturating_add
        (saturating_add (saturating_add i.available_sats i.reserved_sats) i.pending_sats)
        i.credits_sats in
    let difference = sub_ℕ assets liabilities in
    record {
      state_root = "";
      chain_tip_hash = "";
      total_assets_sats = assets;
      total_liabilities_sats = liabilities;
      total_reserved_sats = i.reserved_sats;
      total_pending_sats = i.pending_sats;
      difference_sats = difference;
      status =
          if not complete
          then incomplete_chain_data
          else if assets == liabilities
          then balanced
          else if is_positive difference
          then surplus
          else deficit;
    }

-- `fold(0u64, u64::saturating_add)`
abbrev pub sum_from : ℕ → List ℕ → ℕ
sum_from acc [] = acc
sum_from acc (n ∷ ns) = sum_from (saturating_add acc n) ns

-- The entry is neither spent nor replaced.
abbrev pub is_asset : UtxoEntry → Bool
is_asset u = not (u.state == OnchainState.spent) && not (u.state == OnchainState.replaced)

-- `filter(..).map(|u| u.value_sats)`
abbrev pub asset_values : List UtxoEntry → List ℕ
asset_values [] = []
asset_values (u ∷ us) = if is_asset u then u.value_sats ∷ asset_values us else asset_values us

abbrev pub liability_of : AccountState → ℕ
liability_of a =
    saturating_add (saturating_add a.available_sats a.reserved_sats) a.pending_outgoing_sats

unfoldable pub compute_total_assets : LedgerState → ℕ
compute_total_assets s = sum_from 0 (asset_values s.utxos)

unfoldable pub compute_total_liabilities : LedgerState → ℕ
compute_total_liabilities s = sum_from 0 (map liability_of s.accounts)

unfoldable pub compute_total_reserved : LedgerState → ℕ
compute_total_reserved s = sum_from 0 (map (λ (a : AccountState). a.reserved_sats) s.accounts)

unfoldable pub compute_total_pending : LedgerState → ℕ
compute_total_pending s =
    sum_from 0 (map (λ (a : AccountState). a.pending_outgoing_sats) s.accounts)

unfoldable pub warning_tolerance : ℕ → ℕ
warning_tolerance total_assets =
    if ltb (total_assets / 1000) 1000 then 1000 else total_assets / 1000

-- `unsigned_abs`
abbrev pub unsigned_abs : ℤ → ℕ
unsigned_abs z = pos_part z + neg_part z

-- The chain of tests on the difference in `reconcile`
unfoldable pub status_of : Bool → ℤ → ℕ → ReconciliationStatus
status_of complete difference tolerance =
    if not complete
    then incomplete_chain_data
    else if unsigned_abs difference == 0
    then balanced
    else if is_positive difference && leb (unsigned_abs difference) tolerance
    then balanced
    else if is_negative difference && leb (unsigned_abs difference) tolerance
    then warning
    else if is_positive difference
    then surplus
    else deficit

-- `ReconciliationEngine::reconcile`
unfoldable pub reconcile : Crypto → LedgerState → String → Bool → ReconciliationReport
unfolding compute_total_assets compute_total_liabilities compute_total_reserved
    compute_total_pending warning_tolerance status_of
reconcile crypto s chain_tip_hash complete =
    let assets = compute_total_assets s in
    let liabilities = compute_total_liabilities s in
    let difference = sub_ℕ assets liabilities in
    record {
      state_root = compute_state_root crypto s;
      chain_tip_hash = chain_tip_hash;
      total_assets_sats = assets;
      total_liabilities_sats = liabilities;
      total_reserved_sats = compute_total_reserved s;
      total_pending_sats = compute_total_pending s;
      difference_sats = difference;
      status = status_of complete difference (warning_tolerance assets);
    }

unfoldable pub is_pending_liability : WithdrawalStatus → Bool
is_pending_liability WithdrawalStatus.confirmed = false
is_pending_liability WithdrawalStatus.failed = false
is_pending_liability WithdrawalStatus.replaced = false
is_pending_liability _ = true
