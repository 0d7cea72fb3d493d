-- ===== src/Ledger/Utxos/Reserving.antt =====
-- Reserving and releasing an output of the store of utxo_store.rs.
use kerosene_node.Base.{
  All, String, [], none, ℕ, ◌∷◌, ◌≡◌, Bool, Bool-cases, arith, false, inl, inr, some, true, ◌⊎◌,
}
use kerosene_node.Base.Results.{err, ok, Result, Result-cases}
use kerosene_node.Ledger.Chain.{OutPoint, UtxoEntry, canonical_key, is_reservable}
use kerosene_node.Ledger.Errors.{utxo_already_reserved, LedgerError}
use kerosene_node.Ledger.Utxos.{
  Utxos, on_utxo, release_entry, release_utxo, reserve_entry, reserve_utxo, has_outpoint_key,
  not_found,
}

-- An output that is not reserved records no time of reservation.
abbrev pub HasNoStaleTime : UtxoEntry → Type 0
HasNoStaleTime u = u.reserved_by ≡ none → u.reserved_at_bucket ≡ none

on_utxo-cons :
    (p : UtxoEntry → Bool) (missing : LedgerError) (op : UtxoEntry → Result LedgerError UtxoEntry)
    (u : UtxoEntry) (us us' : Utxos)
    → on_utxo p missing op (u ∷ us) ≡ ok us'
    → ((p u ≡ true) × ((v : UtxoEntry) × (op u ≡ ok v) × (us' ≡ v ∷ us)))
      ⊎ ((p u ≡ false) × ((vs : Utxos) × (on_utxo p missing op us ≡ ok vs) × (us' ≡ u ∷ vs)))
unfolding on_utxo
on_utxo-cons p missing op u us us' h = elim (Bool-cases (p u)) [
  | inl hit ↦ elim (Result-cases (op u)) [
    | inl (v, e) ↦ inl (hit, (v, e, ground arith))
    | inr (x, e) ↦ absurd (ground arith)
  ]
  | inr miss ↦ elim (Result-cases (on_utxo p missing op us)) [
    | inl (vs, e) ↦ inr (miss, (vs, e, ground arith))
    | inr (x, e) ↦ absurd (ground arith)
  ]
]

abbrev held : String → ℕ → UtxoEntry → UtxoEntry
held by now u = record u { reserved_by = some by; reserved_at_bucket = some now }

reserve_entry-ok :
    (by : String) (now : ℕ) (u v : UtxoEntry)
    → reserve_entry by now u ≡ ok v
    → (v ≡ held by now u) × (u.reserved_by ≡ none) × (is_reservable u.state ≡ true)
unfolding reserve_entry
reserve_entry-ok by now u v h = ground arith

reserve_held :
    (p : OutPoint) (by other : String) (now later : ℕ) (u : UtxoEntry) (us : Utxos)
    → has_outpoint_key p u ≡ true
    → is_reservable u.state ≡ true
    → reserve_utxo p other later (held by now u ∷ us) ≡ err (utxo_already_reserved by)
unfolding reserve_utxo on_utxo reserve_entry canonical_key
reserve_held p by other now later u us hit s = ground arith

release_held :
    (p : OutPoint) (by : String) (now : ℕ) (u : UtxoEntry) (us : Utxos)
    → has_outpoint_key p u ≡ true
    → u.reserved_by ≡ none
    → u.reserved_at_bucket ≡ none
    → release_utxo p (held by now u ∷ us) ≡ ok (u ∷ us)
unfolding release_utxo on_utxo release_entry canonical_key
release_held p by now u us hit free at = ground arith

-- An output that was reserved cannot be reserved again, by whomever and whenever, while the store
-- is as the reservation left it: the attempt fails and names the holder.
reserve_utxo_twice :
    (p : OutPoint) (by other : String) (now later : ℕ) (us us' : Utxos)
    → reserve_utxo p by now us ≡ ok us'
    → reserve_utxo p other later us' ≡ err (utxo_already_reserved by)
unfolding reserve_utxo on_utxo canonical_key
reserve_utxo_twice p by other now later [] us' h = cc
reserve_utxo_twice p by other now later (u ∷ us) us' h =
    elim (on_utxo-cons (has_outpoint_key p) (not_found p) (reserve_entry by now) u us us' h) [
      | inl (hit, (v, done, e)) ↦
          let f = reserve_entry-ok by now u v done in
          rw (e, f.0) (reserve_held p by other now later u us hit f.2)
      | inr (miss, (vs, done, e)) ↦
          rw e (ground (arith, reserve_utxo_twice p by other now later us vs done))
    ]

-- Releasing an output that was just reserved restores the store exactly.
release-reserve_utxo :
    (p : OutPoint) (by : String) (now : ℕ) (us us' : Utxos)
    → All HasNoStaleTime us
    → reserve_utxo p by now us ≡ ok us'
    → release_utxo p us' ≡ ok us
unfolding reserve_utxo release_utxo on_utxo canonical_key
release-reserve_utxo p by now [] us' stale h = cc
release-reserve_utxo p by now (u ∷ us) us' stale h =
    elim (on_utxo-cons (has_outpoint_key p) (not_found p) (reserve_entry by now) u us us' h) [
      | inl (hit, (v, done, e)) ↦
          let f = reserve_entry-ok by now u v done in
          rw (e, f.0) (release_held p by now u us hit f.1 (stale.0 f.1))
      | inr (miss, (vs, done, e)) ↦
          rw e (ground (arith, release-reserve_utxo p by now us vs stale.1 done))
    ]
