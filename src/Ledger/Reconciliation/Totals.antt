-- ===== src/Ledger/Reconciliation/Totals.antt =====
-- What the report of `reconcile` of crates/kerosene-ledger/src/reconciliation.rs says of the totals.
use kerosene_node.Base.{
  Bool, List, String, [], arith, map, nat_eq, refl, text_eq, true, ℕ, ◌+◌, ◌<◌, ◌↔◌, ◌∷◌, ◌≡◌,
  false,
}
use kerosene_node.Base.Int.{sub_ℕ}
use kerosene_node.Base.Words.{saturating_add, u64_mod}
use kerosene_node.Ledger.Account.{AccountState}
use kerosene_node.Ledger.Certificates.{Crypto}
use kerosene_node.Ledger.Chain.{outpoint_eq}
use kerosene_node.Ledger.Chart.{account_eq}
use kerosene_node.Ledger.Reconciliation.{
  asset_values, compute_total_assets, compute_total_liabilities, deficit, liability_of, reconcile,
  status_of, sum_from, warning_tolerance,
}
use kerosene_node.Ledger.State.{LedgerState}
use kerosene_node.Ledger.States.{onchain_eq, reservation_state_eq, role_eq, withdrawal_status_eq}

abbrev pub sum : List ℕ → ℕ
sum [] = 0
sum (n ∷ ns) = n + sum ns

-- A saturating sum is the sum, or the largest `u64` when that is smaller.
sum_from-sum :
    (acc : ℕ) (ns : List ℕ) → acc < u64_mod → sum_from acc ns ≡ saturating_add acc (sum ns)
sum_from-sum acc [] small = ground (arith, small)
sum_from-sum acc (n ∷ ns) small = ground (arith, small, sum_from-sum (saturating_add acc n) ns)

-- What an account owes, with no bound.
abbrev pub owed : List AccountState → ℕ
owed [] = 0
owed (a ∷ as_) = a.available_sats + a.reserved_sats + a.pending_outgoing_sats + owed as_

sum-owed :
    (accounts : List AccountState)
    → owed accounts < u64_mod
    → sum (map liability_of accounts) ≡ owed accounts
sum-owed [] small = refl
sum-owed (a ∷ rest) small = ground (arith, small, sum-owed rest)

status_of-deficit :
    (complete : Bool) (assets debts tolerance : ℕ)
    → (status_of complete (sub_ℕ assets debts) tolerance ≡ deficit)
      ↔ ((complete ≡ true) × (assets + tolerance < debts))
unfolding status_of
status_of-deficit true assets debts tolerance = (λ h. ground arith, λ h. ground arith)
status_of-deficit false assets debts tolerance = (λ h. ground arith, λ h. ground arith)

-- While the values of the unspent outputs and what the accounts hold, reserve and owe each add up to
-- a `u64`, the report's totals are those sums, and a deficit is reported exactly when the chain data
-- is complete and the accounts exceed the outputs by more than the tolerance.
pub reconcile-deficit :
    (crypto : Crypto) (s : LedgerState) (tip : String) (complete : Bool)
    → sum (asset_values s.utxos) < u64_mod
    → owed s.accounts < u64_mod
    → let r = reconcile crypto s tip complete in
      (r.total_assets_sats ≡ sum (asset_values s.utxos))
      × ((r.total_liabilities_sats ≡ owed s.accounts)
          × ((r.status ≡ deficit) ↔ (
              (complete ≡ true)
              × (r.total_assets_sats + warning_tolerance r.total_assets_sats
                  < r.total_liabilities_sats))))
unfolding reconcile compute_total_assets compute_total_liabilities
reconcile-deficit crypto s tip complete assets_fit debts_fit =
    let assets = sum_from-sum 0 (asset_values s.utxos) (omega arith) in
    let debts = sum_from-sum 0 (map liability_of s.accounts) (omega arith) in
    let owes = sum-owed s.accounts debts_fit in
    (
      ground (arith, assets, assets_fit),
      (
        ground (arith, debts, owes, debts_fit),
        status_of-deficit complete (compute_total_assets s) (compute_total_liabilities s)
            (warning_tolerance (compute_total_assets s)),
      ),
    )
