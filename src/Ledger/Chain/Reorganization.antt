-- ===== src/Ledger/Chain/Reorganization.antt =====
-- `ReorgHandler::apply_reorg` of chain.rs.
use kerosene_node.Base.{
  All, Bool-cases, List, String, [], arith, false, inl, inr, refl, ℕ, ◌∷◌, ◌≡◌, All-append,
}
use kerosene_node.Ledger.Chain.{
  UtxoEntry, add_new, apply_reorg, canonical_key, has_key, is_disconnected, mark_reorged,
}
use kerosene_node.Ledger.Chain.Keys.{HasDistinctOutpoints, add_new-HasDistinctOutpoints}
use kerosene_node.Ledger.States.{}

has_key-mark_reorged :
    (k : String) (txids : List String) (us : List UtxoEntry)
    → has_key k (mark_reorged txids us).0 ≡ has_key k us
unfolding mark_reorged canonical_key
has_key-mark_reorged k txids [] = refl
has_key-mark_reorged k txids (u ∷ us) = ground (arith, has_key-mark_reorged k txids us)

mark_reorged-HasDistinctOutpoints :
    (txids : List String) (us : List UtxoEntry)
    → HasDistinctOutpoints us
    → HasDistinctOutpoints (mark_reorged txids us).0
unfolding mark_reorged canonical_key
mark_reorged-HasDistinctOutpoints txids [] h = tt
mark_reorged-HasDistinctOutpoints txids (u ∷ us) h = ground (
  arith,
  has_key-mark_reorged (canonical_key u) txids us,
  mark_reorged-HasDistinctOutpoints txids us h.1,
)

-- A reorganization keeps one entry to an outpoint, whatever entries the new chain brings.
apply_reorg-HasDistinctOutpoints :
    (txids : List String) (new_utxos : List UtxoEntry) (now : ℕ) (us : List UtxoEntry)
    → HasDistinctOutpoints us
    → HasDistinctOutpoints (apply_reorg txids new_utxos now us).0
unfolding apply_reorg
apply_reorg-HasDistinctOutpoints txids new_utxos now us h =
    add_new-HasDistinctOutpoints now new_utxos _ (mark_reorged-HasDistinctOutpoints txids us h)

abbrev IsConnected : List String → UtxoEntry → Type 0
IsConnected txids u = is_disconnected txids u ≡ false

mark_reorged-IsConnected :
    (txids : List String) (us : List UtxoEntry) → All (IsConnected txids) (mark_reorged txids us).0
unfolding mark_reorged
mark_reorged-IsConnected txids [] = tt
mark_reorged-IsConnected txids (u ∷ us) = ground (arith, mark_reorged-IsConnected txids us)

add_new-IsConnected :
    (txids : List String) (now : ℕ) (ns us : List UtxoEntry)
    → All (IsConnected txids) us
    → All (IsConnected txids) (add_new now ns us).0
unfolding add_new
add_new-IsConnected txids now [] us h = h
add_new-IsConnected txids now (n ∷ ns) us h = elim (Bool-cases (has_key (canonical_key n) us)) [
  | inl old ↦ rw (old, add_new) (add_new-IsConnected txids now ns us h)
  | inr new ↦
      rw (new, add_new)
        (add_new-IsConnected txids now ns _ (All-append (IsConnected txids) us _ h (ground arith)))
]

-- After a reorganization no entry of a disconnected transaction counts as confirming, spendable or
-- finalized, those that the new chain brings included.
pub apply_reorg-IsConnected :
    (txids : List String) (new_utxos : List UtxoEntry) (now : ℕ) (us : List UtxoEntry)
    → All (λ u. is_disconnected txids u ≡ false) (apply_reorg txids new_utxos now us).0
unfolding apply_reorg
apply_reorg-IsConnected txids new_utxos now us =
    add_new-IsConnected txids now new_utxos _ (mark_reorged-IsConnected txids us)
