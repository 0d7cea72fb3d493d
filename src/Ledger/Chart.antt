-- ===== src/Ledger/Chart.antt =====
-- The chart of accounts: crates/kerosene-ledger/src/account.rs, and the list of all accounts from
-- crates/kerosene-ledger/src/double_entry.rs.
use kerosene_node.Base.{
  Bool, Eq, List, String, [], arith, nat_beq, nat_beq_iff, true, ℕ, ◌↔◌, ◌∷◌, ◌≡◌,
}

pub data AccountClass : Type 0 where
  asset liability equity expense revenue : AccountClass

pub data StandardAccount : Type 0 where
  asset_custodied_btc asset_cold_btc asset_hot_btc : StandardAccount
  liability_user_balances liability_pending_withdrawals : StandardAccount
  liability_internal_reserved : StandardAccount
  equity_platform expense_miner_fees revenue_platform_fees : StandardAccount

unfoldable pub class : StandardAccount → AccountClass
class asset_custodied_btc = asset
class asset_cold_btc = asset
class asset_hot_btc = asset
class liability_user_balances = liability
class liability_pending_withdrawals = liability
class liability_internal_reserved = liability
class equity_platform = equity
class expense_miner_fees = expense
class revenue_platform_fees = revenue

-- The derived order: the position of the variant.
abbrev pub ordinal : StandardAccount → ℕ
ordinal asset_custodied_btc = 0
ordinal asset_cold_btc = 1
ordinal asset_hot_btc = 2
ordinal liability_user_balances = 3
ordinal liability_pending_withdrawals = 4
ordinal liability_internal_reserved = 5
ordinal equity_platform = 6
ordinal expense_miner_fees = 7
ordinal revenue_platform_fees = 8

-- The variants' names, as `{:?}` prints them.
unfoldable pub account_repr : StandardAccount → String
account_repr asset_custodied_btc = "AssetCustodiedBtc"
account_repr asset_cold_btc = "AssetColdBtc"
account_repr asset_hot_btc = "AssetHotBtc"
account_repr liability_user_balances = "LiabilityUserBalances"
account_repr liability_pending_withdrawals = "LiabilityPendingWithdrawals"
account_repr liability_internal_reserved = "LiabilityInternalReserved"
account_repr equity_platform = "EquityPlatform"
account_repr expense_miner_fees = "ExpenseMinerFees"
account_repr revenue_platform_fees = "RevenuePlatformFees"

abbrev pub account_beq : StandardAccount → StandardAccount → Bool
account_beq a b = nat_beq (ordinal a) (ordinal b)

abbrev pub all_accounts : List StandardAccount
all_accounts =
    asset_custodied_btc ∷ asset_cold_btc ∷ asset_hot_btc ∷ liability_user_balances
    ∷ liability_pending_withdrawals ∷ liability_internal_reserved ∷ equity_platform
    ∷ expense_miner_fees ∷ revenue_platform_fees ∷ []

ordinal_injective : (a b : StandardAccount) → ordinal a ≡ ordinal b → a ≡ b
ordinal_injective a b h = ground arith

pub account_beq_iff : (a b : StandardAccount) → (account_beq a b ≡ true) ↔ (a ≡ b)
account_beq_iff a b = (λ h. ordinal_injective a b ((nat_beq_iff _ _).0 h), λ h. ground arith)

instance abbrev pub account_eq : Eq StandardAccount
account_eq = record { beq = account_beq; beq_iff = account_beq_iff }
