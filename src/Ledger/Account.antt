-- ===== src/Ledger/Account.antt =====
-- `AccountState` of crates/kerosene-ledger/src/account_state.rs: each method on `&mut self` is a
-- handler over the record. The `u64` fields are numbers, their ranges stated where they matter; a
-- `version += 1` wraps at 2^64.
pub mod Effects
pub mod Atomic
use kerosene_node.Base.{String, if◌then◌else◌, ltb, nat_eq, ℕ, ◌==◌}
use kerosene_node.Base.Results.{
  bind as ◌>>=◌, then_do as ◌>>◌, Handler, Result, assign, check, err, ok, ok_or,
}
use kerosene_node.Base.Words.{checked_add, checked_sub, wrapping_succ}
use kerosene_node.Ledger.Errors.{
  LedgerError, cannot_consume, cannot_release, consume_underflow, credit_overflow, debit_underflow,
  insufficient_funds, invariant_violation, release_overflow, release_underflow, reserve_overflow,
  reserve_underflow, version_conflict,
}

pub record AccountState : Type 0 where
  pub account_id : String
  pub version : ℕ
  pub available_sats : ℕ
  pub reserved_sats : ℕ
  pub pending_incoming_sats : ℕ
  pub pending_outgoing_sats : ℕ
  pub last_committed_sequence : ℕ

-- `AccountState::new`
abbrev pub new_account : String → AccountState
new_account id = record {
  account_id = id;
  version = 0;
  available_sats = 0;
  reserved_sats = 0;
  pending_incoming_sats = 0;
  pending_outgoing_sats = 0;
  last_committed_sequence = 0;
}

abbrev pub spendable_sats : AccountState → ℕ
spendable_sats s = s.available_sats

unfoldable pub check_version : AccountState → ℕ → Result LedgerError (Unit {0})
check_version s expected =
    if s.version == expected then ok tt else err (version_conflict s.account_id expected s.version)

abbrev set_available : ℕ → AccountState → AccountState
set_available n s = record s { available_sats = n }

abbrev set_reserved : ℕ → AccountState → AccountState
set_reserved n s = record s { reserved_sats = n }

abbrev bump_version : AccountState → AccountState
bump_version s = record s { version = wrapping_succ s.version }

abbrev pub AccountOp : Type 0
AccountOp = Handler AccountState LedgerError (Unit {0})

-- The guard that `apply_debit` and `apply_reserve` share.
abbrev require_spendable : ℕ → AccountState → Result LedgerError (Unit {0})
require_spendable amount s =
    if ltb (spendable_sats s) amount
    then err (insufficient_funds s.account_id (spendable_sats s) amount)
    else ok tt

unfoldable pub apply_credit : ℕ → AccountOp
apply_credit amount = do
  sum ← check λ s.
      ok_or (checked_add s.available_sats amount)
        (invariant_violation (credit_overflow s.account_id))
  assign (set_available sum)
  assign bump_version

unfoldable pub apply_debit : ℕ → AccountOp
apply_debit amount = do
  check (require_spendable amount)
  rest ← check λ s.
      ok_or (checked_sub s.available_sats amount)
        (invariant_violation (debit_underflow s.account_id))
  assign (set_available rest)
  assign bump_version

unfoldable pub apply_reserve : ℕ → AccountOp
apply_reserve amount = do
  check (require_spendable amount)
  rest ← check λ s.
      ok_or (checked_sub s.available_sats amount)
        (invariant_violation (reserve_underflow s.account_id))
  assign (set_available rest)
  sum ← check λ s.
      ok_or (checked_add s.reserved_sats amount)
        (invariant_violation (reserve_overflow s.account_id))
  assign (set_reserved sum)
  assign bump_version

unfoldable pub apply_release_reservation : ℕ → AccountOp
apply_release_reservation amount = do
  check λ s.
      if ltb s.reserved_sats amount
      then err (invariant_violation (cannot_release amount s.reserved_sats s.account_id))
      else ok tt
  rest ← check λ s.
      ok_or (checked_sub s.reserved_sats amount)
        (invariant_violation (release_underflow s.account_id))
  assign (set_reserved rest)
  sum ← check λ s.
      ok_or (checked_add s.available_sats amount)
        (invariant_violation (release_overflow s.account_id))
  assign (set_available sum)
  assign bump_version

unfoldable pub apply_consume_reservation : ℕ → AccountOp
apply_consume_reservation amount = do
  check λ s.
      if ltb s.reserved_sats amount
      then err (invariant_violation (cannot_consume amount s.reserved_sats s.account_id))
      else ok tt
  rest ← check λ s.
      ok_or (checked_sub s.reserved_sats amount)
        (invariant_violation (consume_underflow s.account_id))
  assign (set_reserved rest)
  assign bump_version

unfoldable pub set_last_committed_sequence : ℕ → AccountState → AccountState
set_last_committed_sequence sequence s =
    bump_version (record s { last_committed_sequence = sequence })
