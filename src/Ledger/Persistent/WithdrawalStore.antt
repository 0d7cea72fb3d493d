-- ===== src/Ledger/Persistent/WithdrawalStore.antt =====
-- `SledWithdrawalStore` of crates/kerosene-ledger/src/persistent.rs.
use kerosene_node.Base.{List, Option, String, is_some, nat_eq, some, text_eq, ℕ, ◌==◌}
use kerosene_node.Base.Results.{Result, ok, reject_if, require, ◌>>◌}
use kerosene_node.Ledger.Authorization.{PsbtCommitment, SettlementAuthorization}
use kerosene_node.Ledger.Chain.{outpoint_eq}
use kerosene_node.Ledger.Chart.{account_eq}
use kerosene_node.Ledger.Errors.{
  LedgerError, authorization_not_reserved, duplicate_entry_id, invalid_state_transition,
  txid_already_set, withdrawal_not_found, withdrawal_transition,
}
use kerosene_node.Ledger.Persistent.{Codec, DbOp, Sled, create_entry, fetch, key_of, update_entry}
use kerosene_node.Ledger.States.{
  WithdrawalStatus, authorized, onchain_eq, reservation_state_eq, reserved, role_eq,
  withdrawal_status_eq,
}
use kerosene_node.Ledger.Withdrawals.{WithdrawalRecord, can_transition_to}

module _ (sled : Sled) (codec : Codec WithdrawalRecord) where
  abbrev pub withdrawal_key : String → List ℕ
  withdrawal_key id = key_of "wd:" id

  unfoldable pub sled_create_withdrawal : WithdrawalRecord → DbOp sled (Unit {0})
  sled_create_withdrawal w =
      create_entry sled codec (withdrawal_key w.withdrawal_id) (duplicate_entry_id w.withdrawal_id)
        w

  unfoldable pub sled_get_withdrawal : String → DbOp sled (Option WithdrawalRecord)
  sled_get_withdrawal id = fetch sled codec (withdrawal_key id)

  abbrev pub change_withdrawal :
      String → (WithdrawalRecord → Result LedgerError WithdrawalRecord) → DbOp sled (Unit {0})
  change_withdrawal id change =
      update_entry sled codec (withdrawal_key id) (withdrawal_not_found id) change

  unfoldable pub sled_update_status : String → WithdrawalStatus → ℕ → DbOp sled (Unit {0})
  sled_update_status id status bucket = change_withdrawal id λ w.
      require (can_transition_to w.status status)
        (invalid_state_transition (withdrawal_transition id w.status status))
      >> ok (record w { status = status; updated_at_bucket = bucket })

  unfoldable pub sled_set_authorization : String → SettlementAuthorization → DbOp sled (Unit {0})
  sled_set_authorization id auth = change_withdrawal id λ w.
      require (w.status == reserved)
        (invalid_state_transition (authorization_not_reserved id w.status))
      >> ok (record w { authorization = some auth; status = authorized })

  unfoldable pub sled_set_psbt : String → PsbtCommitment → DbOp sled (Unit {0})
  sled_set_psbt id commitment =
      change_withdrawal id λ w. ok (record w { psbt_commitment = some commitment })

  unfoldable pub sled_set_broadcast_txid : String → String → DbOp sled (Unit {0})
  sled_set_broadcast_txid id txid = change_withdrawal id λ w.
      reject_if (is_some w.broadcast_txid)
        (invalid_state_transition (txid_already_set id w.broadcast_txid))
      >> ok (record w { broadcast_txid = some txid })
