-- ===== src/Ledger/Machine/Totals.antt =====
-- What `apply` of state_machine.rs does to the money held.
use kerosene_node.Base.{
  Bool-cases, List, String, [], arith, inl, inr, text_eq, ℕ, ◌+◌, ◌==◌, ◌∷◌, ◌≡◌, Option-cases, ap,
}
use kerosene_node.Base.Results.{err, ok, Result-cases}
use kerosene_node.Base.Text.{split_once}
use kerosene_node.Ledger.Account.{
  AccountOp, AccountState, apply_credit, apply_debit, apply_release_reservation, apply_reserve,
  new_account,
}
use kerosene_node.Ledger.Certificates.{Crypto}
use kerosene_node.Ledger.Errors.{LedgerError}
use kerosene_node.Ledger.Machine.Applying.{
  amount_of, credit_amount_of, on_listed, StateTransitionReceipt, account_command, apply_ledger,
  consume_intent_command, perform, perform_as, transfer_command,
}
use kerosene_node.Ledger.Machine.Validation.{Payloads, validate}
use kerosene_node.Ledger.State.{
  LedgerCommand, LedgerCommandType, credit_internal_balance, debit_internal_balance, LedgerState,
  commit_internal_transfer, release_reserved_balance, reserve_balance,
}
use kerosene_node.Ledger.States.{}

abbrev pub held : AccountState → ℕ
held a = a.available_sats + a.reserved_sats

abbrev pub total_held : List AccountState → ℕ
total_held [] = 0
total_held (a ∷ rest) = held a + total_held rest

-- What a command says to add to and to take from the money held.
abbrev pub credited_by : LedgerCommandType → LedgerCommand → ℕ
credited_by credit_internal_balance c = credit_amount_of c
credited_by _ c = 0

abbrev pub debited_by : LedgerCommandType → LedgerCommand → ℕ
debited_by debit_internal_balance c = amount_of c
debited_by _ c = 0

-- A method that adds `gain` and takes `loss` where it succeeds.
abbrev pub Shifts : ℕ → ℕ → AccountOp → Type 0
Shifts gain loss op = (a : AccountState) → (op a).0 ≡ ok tt → held (op a).1 + loss ≡ held a + gain

credit-Shifts : (n : ℕ) → Shifts n 0 (apply_credit n)
unfolding apply_credit
credit-Shifts n a h = ground arith

pub debit-Shifts : (n : ℕ) → Shifts 0 n (apply_debit n)
unfolding apply_debit
debit-Shifts n a h = ground arith

reserve-Shifts : (n : ℕ) → Shifts 0 0 (apply_reserve n)
unfolding apply_reserve
reserve-Shifts n a h = ground arith

release-Shifts : (n : ℕ) → Shifts 0 0 (apply_release_reservation n)
unfolding apply_release_reservation
release-Shifts n a h = ground arith

pub on_listed-Shifts :
    (id : String) (op : AccountOp) (gain loss : ℕ) (listed : List AccountState) (x : String)
    → Shifts gain loss op
    → (on_listed id op listed).0 ≡ ok x
    → total_held (on_listed id op listed).1 + loss ≡ total_held listed + gain
on_listed-Shifts id op gain loss [] x h done = ground (arith, h (new_account id))
on_listed-Shifts id op gain loss (a ∷ rest) x h done = elim (Bool-cases (a.account_id == id)) [
  | inl here ↦ ground (arith, h a)
  | inr there ↦ ground (arith, on_listed-Shifts id op gain loss rest x h)
]

-- A credit that fails has changed nothing.
pub credit-refused :
    (id : String) (n : ℕ) (listed : List AccountState) (e : LedgerError)
    → (on_listed id (apply_credit n) listed).0 ≡ err e
    → total_held (on_listed id (apply_credit n) listed).1 ≡ total_held listed
unfolding apply_credit
credit-refused id n [] e h = ground arith
credit-refused id n (a ∷ rest) e h = elim (Bool-cases (a.account_id == id)) [
  | inl here ↦ ground arith
  | inr there ↦ ground (arith, credit-refused id n rest e)
]

account_command-Shifts :
    (id : String) (op : AccountOp) (gain loss : ℕ) (s : LedgerState) (x : List String)
    → Shifts gain loss op
    → (account_command id op s).0 ≡ ok x
    → total_held (account_command id op s).1.accounts + loss ≡ total_held s.accounts + gain
account_command-Shifts id op gain loss s x h done =
    elim (Result-cases (on_listed id op s.accounts).0) [
      | inl (y, e) ↦ ground (arith, on_listed-Shifts id op gain loss s.accounts y h e, e)
      | inr (y, e) ↦ ground (arith, e)
    ]

transfer_command-total :
    (c : LedgerCommand) (s : LedgerState) (x : List String)
    → (transfer_command c s).0 ≡ ok x
    → total_held (transfer_command c s).1.accounts ≡ total_held s.accounts
unfolding transfer_command
transfer_command-total c s x h = elim (Option-cases (split_once b'|' c.partition_key)) [
  | inl bad ↦ ground (arith, bad)
  | inr ((source, dest), parts) ↦
      let n = amount_of c in
      let (r, middle) = on_listed source (apply_debit n) s.accounts in
      elim (Result-cases r) [
        | inl (y, e) ↦ elim (Result-cases (on_listed dest (apply_credit n) middle).0) [
          | inl (z, f) ↦ ground (
            arith,
            parts,
            e,
            f,
            on_listed-Shifts source (apply_debit n) 0 n s.accounts y (debit-Shifts n) e,
            on_listed-Shifts dest (apply_credit n) n 0 middle z (credit-Shifts n) f,
          )
          | inr (z, f) ↦ ground (arith, parts, e, f)
        ]
        | inr (y, e) ↦ ground (arith, parts, e)
      ]
]

module _ (crypto : Crypto) (payloads : Payloads) where
  perform_as-total :
      (t : LedgerCommandType) (c : LedgerCommand) (s : LedgerState) (x : List String)
      → (perform_as crypto payloads t c s).0 ≡ ok x
      → total_held (perform_as crypto payloads t c s).1.accounts + debited_by t c
        ≡ total_held s.accounts + credited_by t c
  unfolding perform_as consume_intent_command
  perform_as-total credit_internal_balance c s x h =
      account_command-Shifts c.partition_key (apply_credit (credit_amount_of c))
        (credit_amount_of c) 0 s x (credit-Shifts (credit_amount_of c)) h
  perform_as-total debit_internal_balance c s x h =
      account_command-Shifts c.partition_key (apply_debit (amount_of c)) 0 (amount_of c) s x
        (debit-Shifts (amount_of c)) h
  perform_as-total reserve_balance c s x h =
      account_command-Shifts c.partition_key (apply_reserve (amount_of c)) 0 0 s x
        (reserve-Shifts (amount_of c)) h
  perform_as-total release_reserved_balance c s x h =
      account_command-Shifts c.partition_key (apply_release_reservation (amount_of c)) 0 0 s x
        (release-Shifts (amount_of c)) h
  perform_as-total commit_internal_transfer c s x h =
      ap (λ n. n + 0) (transfer_command-total c s x h)
  perform_as-total _ c s x h = ground arith

  -- Money is neither made nor lost: after a command that succeeds, the accounts hold together, in
  -- available and reserved funds, what they held before, more by the amount of a credit and less by
  -- the amount of a debit.
  pub apply_ledger-total :
      (c : LedgerCommand) (s : LedgerState) (r : StateTransitionReceipt)
      → (apply_ledger crypto payloads c s).0 ≡ ok r
      → total_held (apply_ledger crypto payloads c s).1.accounts + debited_by c.command_type c
        ≡ total_held s.accounts + credited_by c.command_type c
  unfolding apply_ledger perform
  apply_ledger-total c s r h = elim (Result-cases (validate payloads s c)) [
    | inl (_, v) ↦ elim (Result-cases (perform_as crypto payloads c.command_type c s).0) [
      | inl (x, e) ↦ ground (arith, v, e, perform_as-total c.command_type c s x e)
      | inr (x, e) ↦ ground (arith, v, e)
    ]
    | inr (_, v) ↦ ground (arith, v)
  ]
