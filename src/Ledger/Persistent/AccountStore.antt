-- ===== src/Ledger/Persistent/AccountStore.antt =====
-- `SledVersionedAccountStore` of crates/kerosene-ledger/src/persistent.rs.
use kerosene_node.Base.{
  List, Option, String, [], if◌then◌else◌, ltb, nat_eq, none, some, text_eq, ℕ, ◌==◌, ◌∷◌,
}
use kerosene_node.Base.Results.{
  bind as ◌>>=◌, then_do as ◌>>◌, Result, and_ok, check, err, ok, ok_or, reject_if, require, return,
}
use kerosene_node.Ledger.Account.{
  AccountOp, AccountState, apply_credit, apply_debit, check_version, new_account, spendable_sats,
}
use kerosene_node.Ledger.Chain.{outpoint_eq}
use kerosene_node.Ledger.Chart.{account_eq}
use kerosene_node.Ledger.Commands.{BalanceCommand, InternalTransferCommand, apply_operation}
use kerosene_node.Ledger.Errors.{
  LedgerError, atomic_transfer_failed, destination_not_found, insufficient_funds, source_not_found,
  version_conflict,
}
use kerosene_node.Ledger.Persistent.{
  Codec, DbOp, Sled, deserialize, fetch, get_bytes, key_of, serialize, sled_checked, store,
}
use kerosene_node.Ledger.States.{onchain_eq, reservation_state_eq, role_eq, withdrawal_status_eq}

module _ (sled : Sled) (codec : Codec AccountState) where
  abbrev pub account_key : String → List ℕ
  account_key id = key_of "account:" id

  unfoldable pub sled_get_account : String → DbOp sled (Option AccountState)
  sled_get_account id = fetch sled codec (account_key id)

  -- A method run on a copy: an error drops the copy.
  abbrev pub on_copy : AccountOp → AccountState → Result LedgerError AccountState
  on_copy op s = and_ok (op s).0 (op s).1

  -- The account that `apply_command` works on
  abbrev pub open_copy : BalanceCommand → Option AccountState → Result LedgerError AccountState
  open_copy cmd (some s) = ok s
  open_copy cmd none =
      if cmd.expected_version == 0
      then ok (new_account cmd.account_id)
      else err (version_conflict cmd.account_id cmd.expected_version 0)

  -- `apply_command` up to the account that it writes
  unfoldable pub begin_command : BalanceCommand → DbOp sled AccountState
  begin_command cmd = do
    found ← fetch sled codec (account_key cmd.account_id)
    s ← check λ _. open_copy cmd found
    check λ _.
        require (s.version == cmd.expected_version)
          (version_conflict cmd.account_id cmd.expected_version s.version)
    check λ _. on_copy (apply_operation cmd.operation cmd.amount_sats) s

  unfoldable pub finish_command : BalanceCommand → AccountState → DbOp sled AccountState
  finish_command cmd s = do store sled codec (account_key cmd.account_id) s; return s

  unfoldable pub sled_apply_command : BalanceCommand → DbOp sled AccountState
  sled_apply_command cmd = do s ← begin_command cmd; finish_command cmd s

  unfoldable pub sled_apply_transfer :
      InternalTransferCommand → DbOp sled (AccountState × AccountState)
  sled_apply_transfer cmd = do
    src_bytes ← get_bytes sled (account_key cmd.source_account_id)
    dst_bytes ← get_bytes sled (account_key cmd.destination_account_id)
    src_held ←
        check λ _. ok_or src_bytes (atomic_transfer_failed (source_not_found cmd.source_account_id))
    src ← check λ _. deserialize codec src_held
    dst_held ← check λ _.
        ok_or dst_bytes (atomic_transfer_failed (destination_not_found cmd.destination_account_id))
    dst ← check λ _. deserialize codec dst_held
    check λ _. check_version src cmd.source_expected_version
    check λ _. check_version dst cmd.destination_expected_version
    check λ _.
        reject_if (ltb (spendable_sats src) cmd.amount_sats)
          (insufficient_funds src.account_id (spendable_sats src) cmd.amount_sats)
    debited ← check λ _. on_copy (apply_debit cmd.amount_sats) src
    credited ← check λ _. on_copy (apply_credit cmd.amount_sats) dst
    src_json ← check λ _. serialize codec debited
    dst_json ← check λ _. serialize codec credited
    put_batch (
        (account_key cmd.source_account_id, src_json)
        ∷ (account_key cmd.destination_account_id, dst_json)
        ∷ [])
    return (debited, credited)
    where
      put_batch : List (List ℕ × List ℕ) → DbOp sled (Unit {0})
      put_batch writes db = let (r, t) = sled.apply_batch writes db in (sled_checked r, t)
