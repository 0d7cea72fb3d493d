-- ===== src/Ledger/Account/Effects.antt =====
-- What the balance operations of account_state.rs do to one account.
use kerosene_node.Base.{arith, ℕ, ◌%◌, ◌+◌, ◌<◌, ◌↔◌, ◌≡◌, ◌≤◌}
use kerosene_node.Base.Results.{Result, err, ok}
use kerosene_node.Base.Words.{u64_mod}
use kerosene_node.Ledger.Account.{
  AccountState, apply_consume_reservation, apply_debit, apply_release_reservation, apply_reserve,
}
use kerosene_node.Ledger.Commands.{
  BalanceOperation, apply_operation, credit, debit, release_reservation, reserve,
}
use kerosene_node.Ledger.Errors.{LedgerError}

-- Every counter of the account fits its `u64`.
pub record InRange (s : AccountState) : Type 0 where
  pub version_fits : s.version < u64_mod
  pub available_fits : s.available_sats < u64_mod
  pub reserved_fits : s.reserved_sats < u64_mod

-- The two balances after an operation, by the operation's meaning.
abbrev pub Moves : BalanceOperation → ℕ → AccountState → AccountState → Type 0
Moves credit n s t = (t.available_sats ≡ s.available_sats + n) × (t.reserved_sats ≡ s.reserved_sats)
Moves debit n s t = (t.available_sats + n ≡ s.available_sats) × (t.reserved_sats ≡ s.reserved_sats)
Moves reserve n s t =
    (t.available_sats + n ≡ s.available_sats) × (t.reserved_sats ≡ s.reserved_sats + n)
Moves release_reservation n s t =
    (t.available_sats ≡ s.available_sats + n) × (t.reserved_sats + n ≡ s.reserved_sats)

-- What a balance operation must leave alone.
pub record SameElse (s t : AccountState) : Type 0 where
  pub same_id : t.account_id ≡ s.account_id
  pub same_incoming : t.pending_incoming_sats ≡ s.pending_incoming_sats
  pub same_outgoing : t.pending_outgoing_sats ≡ s.pending_outgoing_sats
  pub same_sequence : t.last_committed_sequence ≡ s.last_committed_sequence

abbrev pub IfOk :
    {A : Type 0} → (AccountState → Type 0) → Result LedgerError A × AccountState → Type 0
IfOk P (ok _, t) = P t
IfOk P (err _, t) = Unit

-- A balance operation that succeeds moves exactly its amount, between the balances that it names,
-- advances the version by one, leaves every other field alone, and keeps the fields in their range.
pub apply_operation-Moves :
    (op : BalanceOperation) (n : ℕ) (s : AccountState)
    → InRange s
    → IfOk
        (λ t. Moves op n s t × (t.version ≡ (s.version + 1) % u64_mod) × SameElse s t × InRange t)
        (apply_operation op n s)
unfolding apply_operation
apply_operation-Moves credit n s h = ground arith
apply_operation-Moves debit n s h = ground arith
apply_operation-Moves reserve n s h = ground arith
apply_operation-Moves release_reservation n s h = ground arith

-- When an operation is admitted, in terms of the balances alone.
abbrev pub Admits : BalanceOperation → ℕ → AccountState → Type 0
Admits credit n s = s.available_sats + n < u64_mod
Admits debit n s = n ≤ s.available_sats
Admits reserve n s = (n ≤ s.available_sats) × (s.reserved_sats + n < u64_mod)
Admits release_reservation n s = (n ≤ s.reserved_sats) × (s.available_sats + n < u64_mod)

-- An operation succeeds exactly when the balances admit it.
apply_operation-Admits :
    (op : BalanceOperation) (n : ℕ) (s : AccountState)
    → ((apply_operation op n s).0 ≡ ok tt) ↔ Admits op n s
unfolding apply_operation
apply_operation-Admits credit n s = (λ h. ground arith, λ h. ground arith)
apply_operation-Admits debit n s = (λ h. ground arith, λ h. ground arith)
apply_operation-Admits reserve n s = (λ h. ground arith, λ h. ground arith)
apply_operation-Admits release_reservation n s = (λ h. ground arith, λ h. ground arith)

-- Reserving an admitted amount and releasing it again restores the account but for its version,
-- which has advanced by two.
release-reserve :
    (n : ℕ) (s : AccountState)
    → InRange s
    → n ≤ s.available_sats
    → s.reserved_sats + n < u64_mod
    → apply_release_reservation n (apply_reserve n s).1
      ≡ (ok tt, record s { version = (s.version + 2) % u64_mod })
unfolding apply_reserve apply_release_reservation
release-reserve n s h covered fits = ground arith

-- Reserving an admitted amount and consuming it has the balances of a plain debit.
consume-reserve :
    (n : ℕ) (s : AccountState)
    → n ≤ s.available_sats
    → s.reserved_sats + n < u64_mod
    → let t = (apply_consume_reservation n (apply_reserve n s).1).1 in
      let u = (apply_debit n s).1 in
      (t.available_sats ≡ u.available_sats) × (t.reserved_sats ≡ u.reserved_sats)
unfolding apply_reserve apply_consume_reservation apply_debit
consume-reserve n s covered fits = ground arith
