-- ===== src/Ledger/Withdrawals.antt =====
-- Withdrawals: crates/kerosene-ledger/src/withdrawal.rs.
pub mod Changes
pub mod Lifecycle
use kerosene_node.Base.{
  Bool, List, Option, String, [], false, is_some, none, not, some, text_eq, true, ℕ, ◌&&◌, ◌==◌,
  ◌∷◌,
}
use kerosene_node.Base.Results.{
  bind as ◌>>=◌, then_do as ◌>>◌, Handler, assign, check, ok_or, reject_if, require,
}
use kerosene_node.Base.Table.{Table, contains_key, insert, lookup}
use kerosene_node.Ledger.Authorization.{PsbtCommitment, SettlementAuthorization}
use kerosene_node.Ledger.Errors.{
  LedgerError, authorization_not_reserved, duplicate_entry_id, invalid_state_transition,
  txid_already_set, withdrawal_not_found, withdrawal_transition,
}
use kerosene_node.Ledger.States.{
  WithdrawalStatus, authorized, broadcast, confirmed, confirming, failed, replaced, reserved,
  signing, withdrawal_status_eq,
}

-- `WithdrawalStatus::is_terminal`
abbrev pub is_final : WithdrawalStatus → Bool
is_final confirmed = true
is_final failed = true
is_final WithdrawalStatus.replaced = true
is_final _ = false

-- The guards of the match are tried in the source's order.
pub can_transition_to : WithdrawalStatus → WithdrawalStatus → Bool
can_transition_to reserved authorized = true
can_transition_to authorized signing = true
can_transition_to signing broadcast = true
can_transition_to broadcast WithdrawalStatus.confirming = true
can_transition_to WithdrawalStatus.confirming confirmed = true
can_transition_to s failed = not (is_final s) && not (s == confirmed)
can_transition_to broadcast WithdrawalStatus.replaced = true
can_transition_to WithdrawalStatus.confirming WithdrawalStatus.replaced = true
can_transition_to _ _ = false

pub record WithdrawalRecord : Type 0 where
  pub withdrawal_id : String
  pub intent_commitment : String
  pub account_id : String
  pub amount_sats : ℕ
  pub destination_address : String
  pub status : WithdrawalStatus
  pub reservation_id : Option String
  pub authorization : Option SettlementAuthorization
  pub psbt_commitment : Option PsbtCommitment
  pub broadcast_txid : Option String
  pub created_at_bucket : ℕ
  pub updated_at_bucket : ℕ

-- `WithdrawalRecord::new`
pub new_withdrawal : String → String → String → ℕ → String → ℕ → WithdrawalRecord
new_withdrawal id intent account amount destination created = record {
  withdrawal_id = id;
  intent_commitment = intent;
  account_id = account;
  amount_sats = amount;
  destination_address = destination;
  status = reserved;
  reservation_id = none;
  authorization = none;
  psbt_commitment = none;
  broadcast_txid = none;
  created_at_bucket = created;
  updated_at_bucket = created;
}

abbrev pub Withdrawals : Type 0
Withdrawals = Table String WithdrawalRecord

abbrev pub WithdrawalsOp : Type 0
WithdrawalsOp = Handler Withdrawals LedgerError (Unit {0})

-- `create`
pub create_withdrawal : WithdrawalRecord → WithdrawalsOp
create_withdrawal w = do
  check λ m. reject_if (contains_key w.withdrawal_id m) (duplicate_entry_id w.withdrawal_id)
  assign (insert w.withdrawal_id w)

abbrev pub find_withdrawal : String → Handler Withdrawals LedgerError WithdrawalRecord
find_withdrawal id = check λ m. ok_or (lookup id m) (withdrawal_not_found id)

pub update_status : String → WithdrawalStatus → ℕ → WithdrawalsOp
update_status id status bucket = do
  w ← find_withdrawal id
  check λ _.
      require (can_transition_to w.status status)
        (invalid_state_transition (withdrawal_transition id w.status status))
  assign (insert id (record w { status = status; updated_at_bucket = bucket }))

pub set_authorization : String → SettlementAuthorization → WithdrawalsOp
set_authorization id auth = do
  w ← find_withdrawal id
  check λ _.
      require (w.status == reserved)
        (invalid_state_transition (authorization_not_reserved id w.status))
  assign (insert id (record w { authorization = some auth; status = authorized }))

pub set_psbt : String → PsbtCommitment → WithdrawalsOp
set_psbt id commitment = do
  w ← find_withdrawal id
  assign (insert id (record w { psbt_commitment = some commitment }))

pub set_broadcast_txid : String → String → WithdrawalsOp
set_broadcast_txid id txid = do
  w ← find_withdrawal id
  check λ _.
      reject_if (is_some w.broadcast_txid)
        (invalid_state_transition (txid_already_set id w.broadcast_txid))
  assign (insert id (record w { broadcast_txid = some txid }))

-- The calls that change a store.
pub data WithdrawalCall : Type 0 where
  create : WithdrawalRecord → WithdrawalCall
  update : String → WithdrawalStatus → ℕ → WithdrawalCall
  authorize : String → SettlementAuthorization → WithdrawalCall
  attach_psbt : String → PsbtCommitment → WithdrawalCall
  attach_txid : String → String → WithdrawalCall

pub call_withdrawal : WithdrawalCall → WithdrawalsOp
call_withdrawal (create w) = create_withdrawal w
call_withdrawal (update id status bucket) = update_status id status bucket
call_withdrawal (authorize id auth) = set_authorization id auth
call_withdrawal (attach_psbt id commitment) = set_psbt id commitment
call_withdrawal (attach_txid id txid) = set_broadcast_txid id txid

-- A history of calls, some of which may fail.
abbrev pub run_withdrawals : List WithdrawalCall → Withdrawals → Withdrawals
run_withdrawals [] m = m
run_withdrawals (c ∷ cs) m = run_withdrawals cs (call_withdrawal c m).1
