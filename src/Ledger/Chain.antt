-- ===== src/Ledger/Chain.antt =====
-- UTXOs and their lifecycle: crates/kerosene-ledger/src/chain.rs, but for the root hash.
pub mod Gate
pub mod Keys
pub mod Reorganization
pub mod Replacement
use kerosene_node.Base.{
  Bool, Eq, List, Option, String, [], any, arith, false, if◌then◌else◌, is_none, nat_eq, none, not,
  some, text_eq, text_iff, true, ℕ, ◌&&◌, ◌++◌, ◌==◌, ◌||◌, ◌↔◌, ◌∷◌, ◌≡◌,
}
use kerosene_node.Base.Results.{Result, err, ok}
use kerosene_node.Base.Text.{decimal, parse_unsigned, split_once, ◌+++◌}
use kerosene_node.Ledger.Errors.{
  LedgerError, invalid_utxo_data, invalid_utxo_transition, invalid_vout, outpoint_without_colon,
}
use kerosene_node.Ledger.Nonces.{contains_text}
use kerosene_node.Ledger.States.{
  OnchainState, confirming, finalized_by_policy, in_mempool, onchain_eq, reorged, replaced, seen,
  spendable, spent,
}

pub record OutPoint : Type 0 where
  pub txid : String
  pub vout : ℕ

abbrev pub outpoint_beq : OutPoint → OutPoint → Bool
outpoint_beq a b = a.txid == b.txid && a.vout == b.vout

pub outpoint_iff : (a b : OutPoint) → (outpoint_beq a b ≡ true) ↔ (a ≡ b)
outpoint_iff a b =
    (λ h. ground (arith, text_iff a.txid b.txid), λ h. ground (arith, text_iff a.txid b.txid))

instance abbrev pub outpoint_eq : Eq OutPoint
outpoint_eq = record { beq = outpoint_beq; beq_iff = outpoint_iff }

unfoldable pub to_canonical_string : OutPoint → String
to_canonical_string p = p.txid +++ ":" +++ decimal p.vout

-- `from_canonical_string`: split at the first colon, then a `u32`.
unfoldable pub from_canonical_string : String → Result LedgerError OutPoint
from_canonical_string s = elim (split_once b':' s) [
  | none ↦ err (invalid_utxo_data (outpoint_without_colon s))
  | some (txid, vout_text) ↦ elim (parse_unsigned 4294967296 vout_text) [
    | none ↦ err (invalid_utxo_data (invalid_vout vout_text))
    | some vout ↦ ok (record { txid = txid; vout = vout })
  ]
]

pub record UtxoEntry : Type 0 where
  pub outpoint : OutPoint
  pub value_sats : ℕ
  pub address : String
  pub state : OnchainState
  pub block_height : Option ℕ
  pub detected_at_bucket : ℕ
  pub confirmed_at_bucket : Option ℕ
  pub reserved_by : Option String
  pub reserved_at_bucket : Option ℕ
  pub spent_at_bucket : Option ℕ
  pub spent_by_txid : Option String

-- `UtxoEntry::new_seen`
abbrev pub new_seen : OutPoint → ℕ → String → ℕ → UtxoEntry
new_seen outpoint value address detected = record {
  outpoint = outpoint;
  value_sats = value;
  address = address;
  state = seen;
  block_height = none;
  detected_at_bucket = detected;
  confirmed_at_bucket = none;
  reserved_by = none;
  reserved_at_bucket = none;
  spent_at_bucket = none;
  spent_by_txid = none;
}

unfoldable pub canonical_key : UtxoEntry → String
canonical_key u = to_canonical_string u.outpoint

-- `UtxoEntry::is_terminal`
pub is_terminal_utxo : UtxoEntry → Bool
is_terminal_utxo u = u.state == OnchainState.replaced || u.state == spent

abbrev pub is_reservable : OnchainState → Bool
is_reservable spendable = true
is_reservable finalized_by_policy = true
is_reservable _ = false

-- `UtxoEntry::is_available`
unfoldable pub is_available : UtxoEntry → Bool
is_available u = is_reservable u.state && is_none u.reserved_by

abbrev pub is_allowed : OnchainState → OnchainState → Bool
is_allowed seen in_mempool = true
is_allowed in_mempool seen = true
is_allowed seen OnchainState.replaced = true
is_allowed in_mempool OnchainState.confirming = true
is_allowed in_mempool OnchainState.replaced = true
is_allowed OnchainState.confirming spendable = true
is_allowed OnchainState.confirming reorged = true
is_allowed spendable finalized_by_policy = true
is_allowed spendable spent = true
is_allowed reorged seen = true
is_allowed _ _ = false

-- `UtxoTransitionGate::validate_transition`
unfoldable pub validate_transition : OnchainState → OnchainState → Result LedgerError (Unit {0})
validate_transition current target =
    if is_allowed current target then ok tt else err (invalid_utxo_transition current target)

abbrev pub has_key : String → List UtxoEntry → Bool
has_key key us = any (λ u. canonical_key u == key) us

-- The states that a disconnected block takes back.
abbrev pub is_confirmed_state : OnchainState → Bool
is_confirmed_state s = s == OnchainState.confirming || s == spendable || s == finalized_by_policy

abbrev pub is_disconnected : List String → UtxoEntry → Bool
is_disconnected txids u = contains_text u.outpoint.txid txids && is_confirmed_state u.state

abbrev pub as_reorged : UtxoEntry → UtxoEntry
as_reorged u = record u { state = reorged; block_height = none; confirmed_at_bucket = none }

-- The first loop of `apply_reorg`: the entries, and the keys of those that it changed.
pub mark_reorged : List String → List UtxoEntry → List UtxoEntry × List String
mark_reorged txids [] = ([], [])
mark_reorged txids (u ∷ us) =
    let (rest, affected) = mark_reorged txids us in
    if is_disconnected txids u
    then (as_reorged u ∷ rest, canonical_key u ∷ affected)
    else (u ∷ rest, affected)

-- The second loop: what is not yet known is appended as seen now.
pub add_new : ℕ → List UtxoEntry → List UtxoEntry → List UtxoEntry × List String
add_new now [] us = (us, [])
add_new now (n ∷ ns) us =
    let entry = record n { state = seen; detected_at_bucket = now } in
    let known = add_new now ns us in
    let (rest, affected) = add_new now ns (us ++ entry ∷ []) in
    let grown : List UtxoEntry × List String = (rest, canonical_key n ∷ affected) in
    if has_key (canonical_key n) us then known else grown

-- `ReorgHandler::apply_reorg`, which cannot fail.
pub apply_reorg : List String → List UtxoEntry → ℕ → List UtxoEntry → List UtxoEntry × List String
apply_reorg txids new_utxos now us =
    let (marked, affected) = mark_reorged txids us in
    let (all, added) = add_new now new_utxos marked in (all, affected ++ added)

abbrev pub is_replaced_by : String → UtxoEntry → Bool
is_replaced_by txid u = u.outpoint.txid == txid && not (u.state == OnchainState.replaced)

-- What RBF makes of an original: its reservation is released with it.
abbrev pub as_replaced : UtxoEntry → UtxoEntry
as_replaced u = elim u.reserved_by [
  | none ↦ record u { state = OnchainState.replaced }
  | some _ ↦ record u {
    reserved_by = none;
    reserved_at_bucket = none;
    state = OnchainState.replaced;
  }
]

-- The first loop of `apply_rbf_replacement`: the entries, and the reservations released.
pub mark_replaced : String → List UtxoEntry → List UtxoEntry × List String
mark_replaced txid [] = ([], [])
mark_replaced txid (u ∷ us) =
    let (rest, freed) = mark_replaced txid us in
    if is_replaced_by txid u
    then (as_replaced u ∷ rest, (elim u.reserved_by [ none ↦ freed | some by ↦ by ∷ freed ]))
    else (u ∷ rest, freed)

-- The second loop: the entries of the replacement, as seen.
pub add_replacements : List UtxoEntry → List UtxoEntry → List UtxoEntry
add_replacements [] us = us
add_replacements (n ∷ ns) us =
    add_replacements ns
      (if has_key (canonical_key n) us then us else us ++ record n { state = seen } ∷ [])

pub apply_rbf_replacement : String → List UtxoEntry → List UtxoEntry → List UtxoEntry × List String
apply_rbf_replacement txid replacements us =
    let (marked, reservations) = mark_replaced txid us in
    (add_replacements replacements marked, reservations)
