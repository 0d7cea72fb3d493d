-- ===== src/Ledger/Machine/Outputs.antt =====
-- The commands of state_machine.rs on UTXOs: the branches of `apply`, which write in place. What they
-- wrote before an early return by `?` would stay.
use kerosene_node.Base.{Bool, List, [], if◌then◌else◌, is_none, none, some, ℕ, ◌++◌, ◌==◌, ◌∷◌}
use kerosene_node.Base.Results.{
  bind as ◌>>=◌, then_do as ◌>>◌, Handler, assign, check, err, ok, ok_or, reject_if, require,
}
use kerosene_node.Base.Text.{is_empty_text, parse_unsigned}
use kerosene_node.Base.Words.{u64_mod}
use kerosene_node.Ledger.Chain.{
  UtxoEntry, apply_reorg, from_canonical_string, is_reservable, new_seen, validate_transition,
}
use kerosene_node.Ledger.Errors.{
  LedgerError, confirm_height_invalid, detect_payload_invalid, invalid_utxo_data,
  invalid_utxo_transition, reorg_payload_invalid, utxo_already_reserved, utxo_not_reserved,
}
use kerosene_node.Ledger.Machine.Validation.{Payloads, is_at}
use kerosene_node.Ledger.State.{LedgerCommand}
use kerosene_node.Ledger.States.{OnchainState, onchain_eq, reorged, seen, spendable, spent}
use kerosene_node.Ledger.Utxos.{find_utxo, not_found}

abbrev pub EntryOp : Type 0
EntryOp = Handler UtxoEntry LedgerError (Unit {0})

abbrev pub OutputsOp : Type 0
OutputsOp = Handler (List UtxoEntry) LedgerError (Unit {0})

-- `utxos.iter_mut().find(..).ok_or(..)?` with what is done to the entry that it finds, in place
abbrev pub at_utxo : (UtxoEntry → Bool) → LedgerError → EntryOp → OutputsOp
at_utxo p missing op [] = (err missing, [])
at_utxo p missing op (u ∷ us) =
    let (r, v) = op u in
    let (q, rest) = at_utxo p missing op us in if p u then (r, v ∷ us) else (q, u ∷ rest)

-- The UTXO at the command's outpoint, changed in place.
unfoldable pub change_utxo : EntryOp → LedgerCommand → OutputsOp
change_utxo op c = do
  p ← check λ us. from_canonical_string c.partition_key
  at_utxo (is_at p) (not_found p) op

unfoldable pub mark_spendable : EntryOp
mark_spendable = do
  check λ u. validate_transition u.state spendable
  assign λ u. record u { state = spendable }

unfoldable pub reserve_in_place : LedgerCommand → EntryOp
reserve_in_place c = do
  check λ u. require (is_reservable u.state) (invalid_utxo_transition u.state u.state)
  check λ u. elim u.reserved_by [
    | none ↦ ok tt
    | some existing ↦ err (utxo_already_reserved existing)
  ]
  assign λ u. record u { reserved_by = some c.authorization_commitment }
  assign λ u. record u { reserved_at_bucket = some c.created_at_bucket }

unfoldable pub release_in_place : EntryOp
release_in_place = do
  check λ u. reject_if (is_none u.reserved_by) utxo_not_reserved
  assign λ u. record u { reserved_by = none }
  assign λ u. record u { reserved_at_bucket = none }

unfoldable pub confirm_entry : LedgerCommand → ℕ → EntryOp
confirm_entry c height = do
  check λ u. validate_transition u.state OnchainState.confirming
  assign λ u. record u { state = OnchainState.confirming }
  assign λ u. record u { block_height = some height }
  assign λ u. record u { confirmed_at_bucket = some c.created_at_bucket }

unfoldable pub confirm_utxos : LedgerCommand → OutputsOp
confirm_utxos c = do
  p ← check λ us. from_canonical_string c.partition_key
  height ← check λ us.
      ok_or (parse_unsigned u64_mod c.authorization_commitment)
        (invalid_utxo_data confirm_height_invalid)
  at_utxo (is_at p) (not_found p) (confirm_entry c height)

unfoldable pub spend_entry : LedgerCommand → EntryOp
spend_entry c = do
  check λ u. validate_transition u.state spent
  assign λ u. record u { reserved_by = none }
  assign λ u. record u { reserved_at_bucket = none }
  assign λ u. record u { state = spent }
  assign λ u. record u { spent_at_bucket = some c.created_at_bucket }
  assign λ u. record u {
    spent_by_txid =
        if is_empty_text c.authorization_commitment then none else some c.authorization_commitment;
  }

-- From reorged back to seen
unfoldable pub see_again : LedgerCommand → EntryOp
see_again c = do
  check λ u. validate_transition u.state seen
  assign λ u. record u { state = seen }
  assign λ u. record u { detected_at_bucket = c.created_at_bucket }

-- `DetectUtxo` on an outpoint that is tracked: only a reorged entry changes.
unfoldable pub detect_again : LedgerCommand → EntryOp
detect_again c u = let again = see_again c u in if u.state == reorged then again else (ok tt, u)

module _ (payloads : Payloads) where
  open payloads use {read_detect, read_reorg}

  unfoldable pub detect_utxos : LedgerCommand → OutputsOp
  detect_utxos c = do
    p ← check λ us. from_canonical_string c.partition_key
    payload ← check λ us.
        ok_or (read_detect c.authorization_commitment) (invalid_utxo_data detect_payload_invalid)
    existing ← check λ us. ok (find_utxo (is_at p) us)
    elim existing [
      | some _ ↦ at_utxo (is_at p) (not_found p) (detect_again c)
      | none ↦
          assign λ us. us ++ new_seen p payload.value_sats payload.address c.created_at_bucket ∷ []
    ]

  unfoldable pub reorg_utxos : LedgerCommand → OutputsOp
  reorg_utxos c = do
    payload ← check λ us.
        ok_or (read_reorg c.authorization_commitment) (invalid_utxo_data reorg_payload_invalid)
    assign λ us. (apply_reorg payload.disconnected_txids payload.new_utxos c.created_at_bucket us).0
