-- ===== src/Ledger/Machine/Validation.antt =====
-- `validate` of state_machine.rs: the checks that a command passes before it is applied. The JSON
-- payloads of chain.rs are read by serde_json, which is the parameter `Payloads`.
use kerosene_node.Base.{
  Bool, List, Option, String, [], if◌then◌else◌, is_none, nat_eq, none, some, text_eq, ℕ, ◌==◌, ◌∷◌,
}
use kerosene_node.Base.Results.{Result, err, ok, ok_or, reject_if, require, ◌>>=◌, ◌>>◌}
use kerosene_node.Base.Text.{is_empty_text, parse_unsigned}
use kerosene_node.Base.Words.{u64_mod}
use kerosene_node.Ledger.Account.{AccountState, check_version}
use kerosene_node.Ledger.Chain.{
  OutPoint, UtxoEntry, from_canonical_string, is_reservable, outpoint_eq, validate_transition,
}
use kerosene_node.Ledger.Errors.{
  LedgerError, confirm_height_invalid, detect_address_empty, detect_payload_invalid,
  detect_value_zero, invalid_utxo_data, invalid_utxo_transition, reorg_payload_invalid,
  reserve_utxo_without_owner, utxo_already_reserved, utxo_not_reserved, version_conflict,
}
use kerosene_node.Ledger.State.{
  LedgerCommand, LedgerState, apply_chain_reorganization, commit_internal_transfer, confirm_utxo,
  credit_internal_balance, debit_internal_balance, detect_utxo, mark_utxo_spendable,
  mark_utxo_spent, release_reserved_balance, release_utxo_command, reserve_balance,
  reserve_utxo_command,
}
use kerosene_node.Ledger.States.{OnchainState, spendable, spent}
use kerosene_node.Ledger.Utxos.{find_utxo, not_found}

pub record DetectUtxoPayload : Type 0 where
  pub value_sats : ℕ
  pub address : String

pub record ReorgPayload : Type 0 where
  pub disconnected_txids : List String
  pub new_utxos : List UtxoEntry

-- `serde_json::from_str`, at the two payload types
pub record Payloads : Type 0 where
  pub read_detect : String → Option DetectUtxoPayload
  pub read_reorg : String → Option ReorgPayload

-- `LedgerState::find_account`, on the state's list
abbrev pub find_account : String → List AccountState → Option AccountState
find_account id [] = none
find_account id (a ∷ rest) = if a.account_id == id then some a else find_account id rest

abbrev unwrap_or_zero : Option ℕ → ℕ
unwrap_or_zero none = 0
unwrap_or_zero (some n) = n

-- `if let Some(expected) = cmd.expected_version { account.check_version(expected)?; }`
unfoldable pub check_expected : Option ℕ → AccountState → Result LedgerError (Unit {0})
unfolding check_version
check_expected none a = ok tt
check_expected (some v) a = check_version a v

unfoldable pub validate_credit : LedgerState → LedgerCommand → Result LedgerError (Unit {0})
unfolding check_version
validate_credit s c = elim c.expected_version [
  | none ↦ ok tt
  | some v ↦ elim (find_account c.partition_key s.accounts) [
    | some a ↦ check_version a v
    | none ↦ if v == 0 then ok tt else err (version_conflict c.partition_key v 0)
  ]
]

unfoldable pub validate_debit : LedgerState → LedgerCommand → Result LedgerError (Unit {0})
unfolding check_expected
validate_debit s c = do
  a ←
      ok_or (find_account c.partition_key s.accounts)
        (version_conflict c.partition_key (unwrap_or_zero c.expected_version) 0)
  check_expected c.expected_version a

unfoldable pub validate_reserve : LedgerState → LedgerCommand → Result LedgerError (Unit {0})
unfolding check_expected
validate_reserve s c = do
  a ←
      ok_or (find_account c.partition_key s.accounts)
        (version_conflict c.partition_key (unwrap_or_zero c.expected_version) 0)
  check_expected c.expected_version a

unfoldable pub validate_release_reservation :
    LedgerState → LedgerCommand → Result LedgerError (Unit {0})
unfolding check_version
validate_release_reservation s c = elim c.expected_version [
  | none ↦ ok tt
  | some v ↦ elim (find_account c.partition_key s.accounts) [
    | some a ↦ check_version a v
    | none ↦ err (version_conflict c.partition_key v 0)
  ]
]

-- `validate_transfer` checks nothing.
unfoldable pub validate_transfer : LedgerState → LedgerCommand → Result LedgerError (Unit {0})
validate_transfer s c = ok tt

abbrev pub is_at : OutPoint → UtxoEntry → Bool
is_at p u = u.outpoint == p

-- A check of the UTXO at the command's outpoint.
unfoldable pub validate_utxo :
    (UtxoEntry → Result LedgerError (Unit {0}))
    → LedgerState
    → LedgerCommand
    → Result LedgerError (Unit {0})
validate_utxo test s c = do
  p ← from_canonical_string c.partition_key
  u ← ok_or (find_utxo (is_at p) s.utxos) (not_found p)
  test u

-- `ReserveUtxo`: the owner must be named before the UTXO is looked up.
unfoldable pub can_reserve : UtxoEntry → Result LedgerError (Unit {0})
can_reserve u = do
  require (is_reservable u.state) (invalid_utxo_transition u.state u.state)
  elim u.reserved_by [ some existing ↦ err (utxo_already_reserved existing) | none ↦ ok tt ]

unfoldable pub validate_reserve_utxo : LedgerState → LedgerCommand → Result LedgerError (Unit {0})
unfolding can_reserve
validate_reserve_utxo s c = do
  p ← from_canonical_string c.partition_key
  reject_if (is_empty_text c.authorization_commitment)
      (invalid_utxo_data reserve_utxo_without_owner)
  u ← ok_or (find_utxo (is_at p) s.utxos) (not_found p)
  can_reserve u

unfoldable pub validate_confirm : LedgerState → LedgerCommand → Result LedgerError (Unit {0})
validate_confirm s c = do
  p ← from_canonical_string c.partition_key
  _ ←
      ok_or (parse_unsigned u64_mod c.authorization_commitment)
        (invalid_utxo_data confirm_height_invalid)
  u ← ok_or (find_utxo (is_at p) s.utxos) (not_found p)
  validate_transition u.state OnchainState.confirming

module _ (payloads : Payloads) where
  open payloads use {read_detect, read_reorg}

  unfoldable pub validate_detect : LedgerCommand → Result LedgerError (Unit {0})
  validate_detect c = do
    _ ← from_canonical_string c.partition_key
    payload ←
        ok_or (read_detect c.authorization_commitment) (invalid_utxo_data detect_payload_invalid)
    reject_if (payload.value_sats == 0) (invalid_utxo_data detect_value_zero)
    reject_if (is_empty_text payload.address) (invalid_utxo_data detect_address_empty)

  -- `StateMachine::validate`
  unfoldable pub validate : LedgerState → LedgerCommand → Result LedgerError (Unit {0})
  unfolding validate_credit validate_debit validate_reserve validate_release_reservation
      validate_transfer validate_detect validate_confirm validate_utxo validate_reserve_utxo
  validate s c = elim c.command_type [
    | credit_internal_balance ↦ validate_credit s c
    | debit_internal_balance ↦ validate_debit s c
    | reserve_balance ↦ validate_reserve s c
    | release_reserved_balance ↦ validate_release_reservation s c
    | commit_internal_transfer ↦ validate_transfer s c
    | detect_utxo ↦ validate_detect c
    | confirm_utxo ↦ validate_confirm s c
    | mark_utxo_spendable ↦ validate_utxo (λ u. validate_transition u.state spendable) s c
    | reserve_utxo_command ↦ validate_reserve_utxo s c
    | release_utxo_command ↦
        validate_utxo (λ u. reject_if (is_none u.reserved_by) utxo_not_reserved) s c
    | mark_utxo_spent ↦ validate_utxo (λ u. validate_transition u.state spent) s c
    | apply_chain_reorganization ↦
        ok_or (read_reorg c.authorization_commitment) (invalid_utxo_data reorg_payload_invalid)
        >>= λ _. ok tt
    | _ ↦ ok tt
  ]
