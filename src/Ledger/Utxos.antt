-- ===== src/Ledger/Utxos.antt =====
-- `InMemoryUtxoStore` of crates/kerosene-ledger/src/utxo_store.rs. A method that fails has written
-- nothing, so it returns the new list or an error.
pub mod Reserving
pub mod Listing
use kerosene_node.Base.{
  Bool, List, Option, String, [], if◌then◌else◌, is_none, none, some, text_eq, ℕ, ◌++◌, ◌==◌, ◌∷◌,
}
use kerosene_node.Base.Results.{Result, err, ok, reject_if, require, ◌>>=◌, ◌>>◌}
use kerosene_node.Ledger.Chain.{
  OutPoint, UtxoEntry, canonical_key, has_key, is_reservable, to_canonical_string,
  validate_transition,
}
use kerosene_node.Ledger.Errors.{
  LedgerError, invalid_utxo_transition, utxo_already_reserved, utxo_not_found, utxo_not_reserved,
}
use kerosene_node.Ledger.States.{OnchainState}

abbrev pub Utxos : Type 0
Utxos = List UtxoEntry

-- `iter_mut().find(..)` with a method run on the entry that it finds.
unfoldable pub on_utxo :
    (UtxoEntry → Bool)
    → LedgerError
    → (UtxoEntry → Result LedgerError UtxoEntry)
    → Utxos
    → Result LedgerError Utxos
on_utxo p missing op [] = err missing
on_utxo p missing op (u ∷ us) =
    let here = op u >>= λ v. ok (v ∷ us) in
    let there = on_utxo p missing op us >>= λ vs. ok (u ∷ vs) in if p u then here else there

abbrev pub not_found : OutPoint → LedgerError
not_found p = utxo_not_found p.txid p.vout

abbrev pub has_outpoint_key : OutPoint → UtxoEntry → Bool
has_outpoint_key p u = canonical_key u == to_canonical_string p

pub add_utxo : UtxoEntry → Utxos → Utxos
add_utxo u us = if has_key (canonical_key u) us then us else us ++ u ∷ []

abbrev pub find_utxo : (UtxoEntry → Bool) → Utxos → Option UtxoEntry
find_utxo p [] = none
find_utxo p (u ∷ us) = if p u then some u else find_utxo p us

pub get_utxo : OutPoint → Utxos → Option UtxoEntry
get_utxo p us = find_utxo (has_outpoint_key p) us

-- `update_state` on the entry
pub move_to : OnchainState → UtxoEntry → Result LedgerError UtxoEntry
move_to target u = do validate_transition u.state target; ok (record u { state = target })

pub update_state : OutPoint → OnchainState → Utxos → Result LedgerError Utxos
update_state p target us = on_utxo (has_outpoint_key p) (not_found p) (move_to target) us

-- `reserve` on the entry
unfoldable pub reserve_entry : String → ℕ → UtxoEntry → Result LedgerError UtxoEntry
reserve_entry by bucket u = do
  require (is_reservable u.state) (invalid_utxo_transition u.state u.state)
  elim u.reserved_by [
    | some existing ↦ err (utxo_already_reserved existing)
    | none ↦ ok (record u { reserved_by = some by; reserved_at_bucket = some bucket })
  ]

unfoldable pub reserve_utxo : OutPoint → String → ℕ → Utxos → Result LedgerError Utxos
reserve_utxo p by bucket us =
    on_utxo (has_outpoint_key p) (not_found p) (reserve_entry by bucket) us

-- `release` on the entry
pub release_entry : UtxoEntry → Result LedgerError UtxoEntry
release_entry u = do
  reject_if (is_none u.reserved_by) utxo_not_reserved
  ok (record u { reserved_by = none; reserved_at_bucket = none })

pub release_utxo : OutPoint → Utxos → Result LedgerError Utxos
release_utxo p us = on_utxo (has_outpoint_key p) (not_found p) release_entry us
