-- ===== src/Ledger/Account/Atomic.antt =====
-- Failures of the operations of account_state.rs.
use kerosene_node.Base.{arith, ℕ, ◌+◌, ◌-◌, ◌<◌, ◌≡◌, ◌≤◌}
use kerosene_node.Base.Results.{Result, err, ok}
use kerosene_node.Base.Words.{u64_mod}
use kerosene_node.Ledger.Account.{AccountState, apply_reserve}
use kerosene_node.Ledger.Commands.{
  BalanceOperation, apply_operation, credit, debit, release_reservation, reserve,
}
use kerosene_node.Ledger.Errors.{LedgerError, invariant_violation, reserve_overflow}

abbrev pub IfErr :
    {A : Type 0} → (AccountState → Type 0) → Result LedgerError A × AccountState → Type 0
IfErr P (ok _, t) = Unit
IfErr P (err _, t) = P t

-- While the two balances together fit a `u64`, an operation that fails leaves the account as it was.
apply_operation-atomic :
    (op : BalanceOperation) (n : ℕ) (s : AccountState)
    → s.available_sats + s.reserved_sats < u64_mod
    → IfErr (λ t. t ≡ s) (apply_operation op n s)
unfolding apply_operation
apply_operation-atomic credit n s h = ground arith
apply_operation-atomic debit n s h = ground arith
apply_operation-atomic reserve n s h = ground arith
apply_operation-atomic release_reservation n s h = ground arith

-- Beyond that range it does not: a reservation that would overflow `reserved_sats` fails with the
-- amount already taken from `available_sats`.
reserve_overflow_loses :
    (n : ℕ) (s : AccountState)
    → n ≤ s.available_sats
    → u64_mod ≤ s.reserved_sats + n
    → apply_reserve n s ≡ (
      err (invariant_violation (reserve_overflow s.account_id)),
      record s { available_sats = s.available_sats - n },
    )
unfolding apply_reserve
reserve_overflow_loses n s covered over = ground arith
