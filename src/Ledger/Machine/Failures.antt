-- ===== src/Ledger/Machine/Failures.antt =====
-- What `apply` of state_machine.rs leaves behind when it fails.
use kerosene_node.Base.{
  Bool, String, arith, false, inl, inr, some, true, ◌+◌, ◌≡◌, Option-cases, [], nat_eq, refl,
  text_eq, ℕ, ◌∷◌,
}
use kerosene_node.Base.Results.{Result-cases, err, ok, Handler}
use kerosene_node.Base.Text.{split_once, parse_unsigned}
use kerosene_node.Base.Words.{u64_mod}
use kerosene_node.Ledger.Account.{apply_credit, apply_debit}
use kerosene_node.Ledger.Certificates.{Crypto}
use kerosene_node.Ledger.Chain.{UtxoEntry, from_canonical_string, outpoint_eq}
use kerosene_node.Ledger.Chart.{account_eq}
use kerosene_node.Ledger.Errors.{LedgerError}
use kerosene_node.Ledger.Machine.Applying.{
  amount_of, apply_ledger, consume_intent_command, on_listed, on_utxos, perform, perform_as,
  transfer_command,
}
use kerosene_node.Ledger.Machine.Outputs.{
  change_utxo, confirm_utxos, detect_utxos, reorg_utxos, spend_entry, EntryOp, OutputsOp, at_utxo,
  confirm_entry, detect_again, mark_spendable, release_in_place, reserve_in_place, see_again,
}
use kerosene_node.Ledger.Machine.Totals.{credit-refused, debit-Shifts, on_listed-Shifts, total_held}
use kerosene_node.Ledger.Machine.Validation.{Payloads, validate, validate_transfer, is_at}
use kerosene_node.Ledger.State.{
  LedgerCommand, LedgerCommandType, LedgerState, apply_chain_reorganization,
  commit_internal_transfer, confirm_utxo, credit_internal_balance, debit_internal_balance,
  detect_utxo, mark_utxo_spendable, mark_utxo_spent, release_reserved_balance, release_utxo_command,
  reserve_balance, reserve_utxo_command,
}
use kerosene_node.Ledger.States.{onchain_eq, reservation_state_eq, role_eq, withdrawal_status_eq}
use kerosene_node.Ledger.Utxos.{not_found}

-- The commands that work on accounts.
abbrev pub is_account_command : LedgerCommandType → Bool
is_account_command credit_internal_balance = true
is_account_command debit_internal_balance = true
is_account_command reserve_balance = true
is_account_command release_reserved_balance = true
is_account_command commit_internal_transfer = true
is_account_command _ = false

-- What an operation that fails leaves is what it was given.
abbrev pub IsAtomic : {S A : Type 0} → Handler S LedgerError A → Type 0
IsAtomic {S} op = (s : S) (e : LedgerError) → (op s).0 ≡ err e → (op s).1 ≡ s

at_utxo-IsAtomic :
    (p : UtxoEntry → Bool) (missing : LedgerError) (op : EntryOp)
    → IsAtomic op
    → IsAtomic (at_utxo p missing op)
at_utxo-IsAtomic p missing op h [] e r = refl
at_utxo-IsAtomic p missing op h (u ∷ us) e r =
    ground (arith, h u e, at_utxo-IsAtomic p missing op h us e)

on_utxos-IsAtomic : (op : OutputsOp) → IsAtomic op → IsAtomic (on_utxos op)
on_utxos-IsAtomic op h s e r = ground (arith, h s.utxos e)

mark_spendable-IsAtomic : IsAtomic mark_spendable
unfolding mark_spendable
mark_spendable-IsAtomic u e h = ground arith

reserve_in_place-IsAtomic : (c : LedgerCommand) → IsAtomic (reserve_in_place c)
unfolding reserve_in_place
reserve_in_place-IsAtomic c u e h = ground arith

release_in_place-IsAtomic : IsAtomic release_in_place
unfolding release_in_place
release_in_place-IsAtomic u e h = ground arith

confirm_entry-IsAtomic : (c : LedgerCommand) (height : ℕ) → IsAtomic (confirm_entry c height)
unfolding confirm_entry
confirm_entry-IsAtomic c height u e h = ground arith

spend_entry-IsAtomic : (c : LedgerCommand) → IsAtomic (spend_entry c)
unfolding spend_entry
spend_entry-IsAtomic c u e h = ground arith

detect_again-IsAtomic : (c : LedgerCommand) → IsAtomic (detect_again c)
unfolding detect_again see_again
detect_again-IsAtomic c u e h = ground arith

change_utxo-IsAtomic :
    (op : EntryOp) (c : LedgerCommand) → IsAtomic op → IsAtomic (change_utxo op c)
unfolding change_utxo
change_utxo-IsAtomic op c h us e r = elim (Result-cases (from_canonical_string c.partition_key)) [
  | inl (p, read) ↦ ground (arith, read, at_utxo-IsAtomic (is_at p) (not_found p) op h us e)
  | inr (x, bad) ↦ ground (arith, bad)
]

confirm_utxos-IsAtomic : (c : LedgerCommand) → IsAtomic (confirm_utxos c)
unfolding confirm_utxos
confirm_utxos-IsAtomic c us e r = elim (Result-cases (from_canonical_string c.partition_key)) [
  | inr (x, bad) ↦ ground (arith, bad)
  | inl (p, read) ↦ elim (Option-cases (parse_unsigned u64_mod c.authorization_commitment)) [
    | inl none_read ↦ ground (arith, read, none_read)
    | inr (n, height) ↦ ground (
      arith,
      read,
      height,
      at_utxo-IsAtomic (is_at p) (not_found p) (confirm_entry c n) (confirm_entry-IsAtomic c n) us
          e,
    )
  ]
]

-- A command that changes one entry.
on_utxos-change_utxo-IsAtomic :
    (op : EntryOp) (c : LedgerCommand) → IsAtomic op → IsAtomic (on_utxos (change_utxo op c))
on_utxos-change_utxo-IsAtomic op c h =
    on_utxos-IsAtomic (change_utxo op c) (change_utxo-IsAtomic op c h)

module _ (payloads : Payloads) where
  detect_utxos-IsAtomic : (c : LedgerCommand) → IsAtomic (detect_utxos payloads c)
  unfolding detect_utxos
  detect_utxos-IsAtomic c us e r = elim (Result-cases (from_canonical_string c.partition_key)) [
    | inr (x, bad) ↦ ground (arith, bad)
    | inl (p, read) ↦ ground (
      arith,
      read,
      at_utxo-IsAtomic (is_at p) (not_found p) (detect_again c) (detect_again-IsAtomic c) us e,
    )
  ]

  reorg_utxos-IsAtomic : (c : LedgerCommand) → IsAtomic (reorg_utxos payloads c)
  unfolding reorg_utxos
  reorg_utxos-IsAtomic c us e r = ground arith

module _ (crypto : Crypto) (payloads : Payloads) where
  perform_as-err :
      (t : LedgerCommandType) (c : LedgerCommand) (s : LedgerState) (e : LedgerError)
      → is_account_command t ≡ false
      → (perform_as crypto payloads t c s).0 ≡ err e
      → (perform_as crypto payloads t c s).1 ≡ s
  unfolding perform_as consume_intent_command
  perform_as-err detect_utxo c s e other h =
      on_utxos-IsAtomic (detect_utxos payloads c) (detect_utxos-IsAtomic payloads c) s e h
  perform_as-err confirm_utxo c s e other h =
      on_utxos-IsAtomic (confirm_utxos c) (confirm_utxos-IsAtomic c) s e h
  perform_as-err mark_utxo_spendable c s e other h =
      on_utxos-change_utxo-IsAtomic mark_spendable c mark_spendable-IsAtomic s e h
  perform_as-err reserve_utxo_command c s e other h =
      on_utxos-change_utxo-IsAtomic (reserve_in_place c) c (reserve_in_place-IsAtomic c) s e h
  perform_as-err release_utxo_command c s e other h =
      on_utxos-change_utxo-IsAtomic release_in_place c release_in_place-IsAtomic s e h
  perform_as-err mark_utxo_spent c s e other h =
      on_utxos-change_utxo-IsAtomic (spend_entry c) c (spend_entry-IsAtomic c) s e h
  perform_as-err apply_chain_reorganization c s e other h =
      on_utxos-IsAtomic (reorg_utxos payloads c) (reorg_utxos-IsAtomic payloads c) s e h
  perform_as-err _ c s e other h = ground arith

  -- A command that is not on accounts and fails has changed nothing: it can be tried again.
  pub apply_ledger-atomic :
      (c : LedgerCommand) (s : LedgerState) (e : LedgerError)
      → is_account_command c.command_type ≡ false
      → (apply_ledger crypto payloads c s).0 ≡ err e
      → (apply_ledger crypto payloads c s).1 ≡ s
  unfolding apply_ledger perform
  apply_ledger-atomic c s e other h = elim (Result-cases (validate payloads s c)) [
    | inl (_, v) ↦ elim (Result-cases (perform_as crypto payloads c.command_type c s).0) [
      | inl (x, d) ↦ ground (arith, v, d)
      | inr (x, d) ↦ ground (arith, v, d, perform_as-err c.command_type c s x other d)
    ]
    | inr (_, v) ↦ ground (arith, v)
  ]

  -- A transfer whose debit goes through and whose credit would overflow fails with the debit done:
  -- the accounts hold less by the amount, and the version of the ledger is the same.
  apply_ledger_half_transfer :
      (c : LedgerCommand) (s : LedgerState) (source dest x : String) (e : LedgerError)
      → c.command_type ≡ commit_internal_transfer
      → split_once b'|' c.partition_key ≡ some (source, dest)
      → (on_listed source (apply_debit (amount_of c)) s.accounts).0 ≡ ok x
      → (on_listed dest
          (apply_credit (amount_of c))
          (on_listed source (apply_debit (amount_of c)) s.accounts).1).0
        ≡ err e
      → let (r, t) = apply_ledger crypto payloads c s in
        (r ≡ err e)
        × (total_held t.accounts + amount_of c ≡ total_held s.accounts)
        × (t.version ≡ s.version)
  unfolding apply_ledger perform validate validate_transfer perform_as transfer_command
  apply_ledger_half_transfer c s source dest x e type parts debited refused =
      let n = amount_of c in
      let middle = (on_listed source (apply_debit n) s.accounts).1 in
      ground (
        arith,
        type,
        parts,
        debited,
        refused,
        on_listed-Shifts source (apply_debit n) 0 n s.accounts x (debit-Shifts n) debited,
        credit-refused dest n middle e refused,
      )
