-- ===== src/Ledger/Accounts.antt =====
-- `InMemoryVersionedAccountStore` of crates/kerosene-ledger/src/in_memory.rs. A method holds the
-- mutex from its first line to its last, so it is one handler over the map.
pub mod Refinement
pub mod Transfers
use kerosene_node.Base.{
  List, Option, String, [], foldl, if◌then◌else◌, ltb, nat_eq, none, some, text_eq, ◌==◌,
}
use kerosene_node.Base.Results.{
  bind as ◌>>=◌, then_do as ◌>>◌, Handler, assign, check, err, ok, ok_or, return, and_ok,
}
use kerosene_node.Base.Table.{Table, insert, lookup}
use kerosene_node.Ledger.Account.{
  AccountOp, AccountState, apply_credit, apply_debit, check_version, new_account, spendable_sats,
}
use kerosene_node.Ledger.Commands.{BalanceCommand, InternalTransferCommand, apply_operation}
use kerosene_node.Ledger.Errors.{
  LedgerError, atomic_transfer_failed, destination_not_found, insufficient_funds, source_not_found,
  version_conflict,
}
use kerosene_node.Ledger.States.{}

abbrev pub Accounts : Type 0
Accounts = Table String AccountState

abbrev pub AccountsOp : Type 0 → Type 0
AccountsOp = Handler Accounts LedgerError

-- `with_accounts`: a later account replaces an earlier one of the same id.
pub with_accounts : List AccountState → Accounts
with_accounts = foldl (λ m a. insert a.account_id a m) []

-- `insert`
pub insert_account : AccountState → Accounts → Accounts
insert_account a m = insert a.account_id a m

pub get_account : String → Accounts → Option AccountState
get_account id m = lookup id m

-- The entry that `apply_command` works on, created at version 0 if it is missing.
unfoldable pub open_entry : BalanceCommand → AccountsOp AccountState
unfolding check_version
open_entry cmd m = elim (lookup cmd.account_id m) [
  | some s ↦ (and_ok (check_version s cmd.expected_version) s, m)
  | none ↦
      if cmd.expected_version == 0
      then (ok (new_account cmd.account_id), insert cmd.account_id (new_account cmd.account_id) m)
      else (err (version_conflict cmd.account_id cmd.expected_version 0), m)
]

-- A method run on the map's entry: what it did to the entry stays, also when it fails.
unfoldable pub on_entry : String → AccountState → AccountOp → AccountsOp AccountState
on_entry id s op m = let (r, t) = op s in (elim r [ ok _ ↦ ok t | err e ↦ err e ], insert id t m)

unfoldable pub apply_command : BalanceCommand → AccountsOp AccountState
apply_command cmd = do
  s ← open_entry cmd
  on_entry cmd.account_id s (apply_operation cmd.operation cmd.amount_sats)

-- Both sides are computed on clones; the map is written only at the end.
unfoldable pub apply_transfer : InternalTransferCommand → AccountsOp (AccountState × AccountState)
unfolding check_version apply_debit apply_credit
apply_transfer cmd = do
  src ← check λ m.
      ok_or (lookup cmd.source_account_id m)
        (atomic_transfer_failed (source_not_found cmd.source_account_id))
  dst ← check λ m.
      ok_or (lookup cmd.destination_account_id m)
        (atomic_transfer_failed (destination_not_found cmd.destination_account_id))
  check λ _. check_version src cmd.source_expected_version
  check λ _. check_version dst cmd.destination_expected_version
  check λ _.
      if ltb (spendable_sats src) cmd.amount_sats
      then err (insufficient_funds src.account_id (spendable_sats src) cmd.amount_sats)
      else ok tt
  let debited = apply_debit cmd.amount_sats src
  let credited = apply_credit cmd.amount_sats dst
  check λ _. debited.0
  check λ _. credited.0
  assign (insert debited.1.account_id debited.1)
  assign (insert credited.1.account_id credited.1)
  return (debited.1, credited.1)
