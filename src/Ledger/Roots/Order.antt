-- ===== src/Ledger/Roots/Order.antt =====
-- The state root of state_root.rs does not depend on the order in which the state lists its items.
use mathlib.Core.List.Perm
use Prim.Native.String.{compare as compare_text}
use kerosene_node.Base.{Bool-cases, List, String, [], ap, inl, inr, ℕ, ◌++◌, ◌∷◌, ◌≡◌}
use kerosene_node.Base.Text.{as_bytes}
use kerosene_node.Ledger.Certificates.{Crypto}
use kerosene_node.Ledger.Chain.{UtxoEntry, canonical_key}
use kerosene_node.Ledger.Roots.{
  compute_state_root, compute_utxo_root, concat_bytes, hash_account, hash_intent,
  hash_journal_entry, hash_reservation, hash_sorted, sort_by_key, utxo_bytes, insert_by_key,
}
use kerosene_node.Ledger.Roots.Sorting.{sort_bytes-perm}
use kerosene_node.Ledger.State.{LedgerState}
use mathlib.Core.List.{Perm}
use text.Mathlib.Text.{is_le}

-- The same ledger, its items listed in some other order.
pub record SameItems (s t : LedgerState) : Type 0 where
  pub version : t.version ≡ s.version
  pub accounts : Perm t.accounts s.accounts
  pub journal : Perm t.journal s.journal
  pub reservations : Perm t.reservations s.reservations
  pub consumed_intents : Perm t.consumed_intents s.consumed_intents
  pub membership : t.membership ≡ s.membership
  pub utxos : Perm t.utxos s.utxos

insert_by_key-perm : (u : UtxoEntry) (us : List UtxoEntry) → Perm (insert_by_key u us) (u ∷ us)
insert_by_key-perm u [] = Perm.refl (u ∷ [])
insert_by_key-perm u (v ∷ vs) =
    elim (Bool-cases (is_le (compare_text (canonical_key u) (canonical_key v)))) [
      | inl first ↦ rw (first, insert_by_key) (Perm.refl (u ∷ v ∷ vs))
      | inr later ↦
          rw (later, insert_by_key)
            (Perm.trans (Perm.cons v (insert_by_key-perm u vs)) (Perm.swap u v vs))
    ]

sort_by_key-perm : (us : List UtxoEntry) → Perm (sort_by_key us) us
unfolding sort_by_key
sort_by_key-perm [] = Perm.refl []
sort_by_key-perm (u ∷ us) =
    Perm.trans (insert_by_key-perm u (sort_by_key us)) (Perm.cons u (sort_by_key-perm us))

module _ (crypto : Crypto) where
  compute_utxo_root-perm :
      {us vs : List UtxoEntry}
      → Perm us vs
      → compute_utxo_root crypto us ≡ compute_utxo_root crypto vs
  unfolding compute_utxo_root
  compute_utxo_root-perm {us} {vs} p =
      ap
        (λ (hs : List (List ℕ)).
          crypto.hex_encode (crypto.sha256 (as_bytes "KROOTv1:utxos" ++ concat_bytes hs)))
        (sort_bytes-perm (
          Perm.map (λ u. crypto.sha256 (utxo_bytes u))
            (Perm.trans (sort_by_key-perm us) (Perm.trans p (Perm.symm (sort_by_key-perm vs))))))

  hash_sorted-perm :
      (tag : String) {xs ys : List (List ℕ)}
      → Perm xs ys
      → hash_sorted crypto tag xs ≡ hash_sorted crypto tag ys
  unfolding hash_sorted
  hash_sorted-perm tag p =
      ap (λ (hs : List (List ℕ)). crypto.sha256 (as_bytes tag ++ (as_bytes ":" ++ concat_bytes hs)))
        (sort_bytes-perm p)

  -- Two listings of one ledger have the same state root: the order of the accounts, journal entries,
  -- reservations, consumed intents and UTXOs does not matter.
  pub compute_state_root-SameItems :
      (s t : LedgerState)
      → SameItems s t
      → compute_state_root crypto t ≡ compute_state_root crypto s
  unfolding compute_state_root
  compute_state_root-SameItems s t h = cc (
    h.version,
    h.membership,
    hash_sorted-perm "KROOTv1:accounts" (Perm.map (hash_account crypto) h.accounts),
    hash_sorted-perm "KROOTv1:journal" (Perm.map (hash_journal_entry crypto) h.journal),
    hash_sorted-perm "KROOTv1:reservations" (Perm.map (hash_reservation crypto) h.reservations),
    hash_sorted-perm "KROOTv1:intents" (Perm.map (hash_intent crypto) h.consumed_intents),
    compute_utxo_root-perm h.utxos,
  )
