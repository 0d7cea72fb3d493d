-- ===== src/Ledger/Commands.antt =====
-- The balance commands of crates/kerosene-ledger/src/command.rs, and the dispatch of
-- `apply_command` in crates/kerosene-ledger/src/in_memory.rs on the operation.
use kerosene_node.Base.{String, ℕ}
use kerosene_node.Ledger.Account.{
  AccountOp, apply_credit, apply_debit, apply_release_reservation, apply_reserve,
}

pub data BalanceOperation : Type 0 where
  credit debit reserve release_reservation : BalanceOperation

pub record BalanceCommand : Type 0 where
  pub command_id : String
  pub account_id : String
  pub expected_version : ℕ
  pub operation : BalanceOperation
  pub amount_sats : ℕ
  pub epoch : ℕ
  pub payload_hash : String

pub record InternalTransferCommand : Type 0 where
  pub command_id : String
  pub source_account_id : String
  pub source_expected_version : ℕ
  pub destination_account_id : String
  pub destination_expected_version : ℕ
  pub amount_sats : ℕ
  pub authorization_commitment : String

unfoldable pub apply_operation : BalanceOperation → ℕ → AccountOp
unfolding apply_credit apply_debit apply_reserve apply_release_reservation
apply_operation credit amount = apply_credit amount
apply_operation debit amount = apply_debit amount
apply_operation reserve amount = apply_reserve amount
apply_operation release_reservation amount = apply_release_reservation amount
