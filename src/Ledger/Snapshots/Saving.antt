-- ===== src/Ledger/Snapshots/Saving.antt =====
-- The snapshots that `InMemorySnapshotStore` of snapshot.rs keeps.
use kerosene_node.Base.{
  Bool-cases, List, Option, [], inl, inr, nat_eq, some, text_eq, ℕ, ◌==◌, ◌∷◌, ◌≡◌, ◌≤◌, ◌⊎◌, ap,
  arith, ltb, sym, ◌∙◌, refl,
}
use kerosene_node.Base.Results.{ok, Result-cases, err}
use kerosene_node.Base.Table.{lookup, lookup-insert_self, lookup-insert_some, lookup-insert}
use kerosene_node.Ledger.Certificates.{Crypto}
use kerosene_node.Ledger.Chain.{outpoint_eq}
use kerosene_node.Ledger.Chart.{account_eq}
use kerosene_node.Ledger.Errors.{LedgerError}
use kerosene_node.Ledger.Snapshots.{
  CertifiedSnapshot, SnapshotMap, put_snapshot, save_in_memory, verify_snapshot, no_snapshots,
}
use kerosene_node.Ledger.State.{LedgerState}
use kerosene_node.Ledger.States.{onchain_eq, reservation_state_eq, role_eq, withdrawal_status_eq}

module _ (crypto : Crypto) (read_state : List ℕ → Option LedgerState) where
  -- A snapshot that the store keeps under `k`, of a store whose latest sequence is `latest`.
  pub record IsKept (latest k : ℕ) (n : CertifiedSnapshot) : Type 0 where
    pub keyed : n.sequence ≡ k
    pub bounded : k ≤ latest
    pub verified : verify_snapshot crypto read_state n ≡ ok tt

  pub record IsIndexed (s : SnapshotMap) : Type 0 where
    pub kept :
        (k : ℕ) (n : CertifiedSnapshot)
        → lookup k s.snapshots ≡ some n
        → IsKept s.latest_sequence k n
    pub newest :
        ((s.latest_sequence ≡ 0) × (s.snapshots ≡ []))
        ⊎ ((n : CertifiedSnapshot) × (lookup s.latest_sequence s.snapshots ≡ some n))

  unfoldable pub save_all : List CertifiedSnapshot → SnapshotMap → SnapshotMap
  save_all [] s = s
  save_all (n ∷ ns) s = save_all ns (save_in_memory crypto read_state n s).1

  put_snapshot-IsKept :
      (n : CertifiedSnapshot) (s : SnapshotMap)
      → verify_snapshot crypto read_state n ≡ ok tt
      → IsIndexed s
      → (k : ℕ) (m : CertifiedSnapshot) → lookup k (put_snapshot n s).snapshots ≡ some m
      → IsKept (put_snapshot n s).latest_sequence k m
  put_snapshot-IsKept n s v i k m h = elim (lookup-insert_some n.sequence k n m s.snapshots h) [
    | inl (same, is_n) ↦ record {
      keyed = sym (ap (λ (x : CertifiedSnapshot). x.sequence) is_n) ∙ same;
      bounded = ground (arith, same);
      verified = rw (sym is_n) v;
    }
    | inr old ↦ record {
      keyed = (i.kept k m old).keyed;
      bounded = ground (arith, (i.kept k m old).bounded);
      verified = (i.kept k m old).verified;
    }
  ]

  put_snapshot-newest :
      (n : CertifiedSnapshot) (s : SnapshotMap)
      → IsIndexed s
      → (m : CertifiedSnapshot) × (lookup
            (put_snapshot n s).latest_sequence
            (put_snapshot n s).snapshots
          ≡ some m)
  put_snapshot-newest n s i = elim (Bool-cases (ltb s.latest_sequence n.sequence)) [
    | inl later ↦ (n, ground (arith, lookup-insert_self n.sequence n s.snapshots))
    | inr older ↦ elim i.newest [
      | inl (start, none_yet) ↦ (n, ground (arith, lookup-insert_self n.sequence n s.snapshots))
      | inr (m, held) ↦ elim (Bool-cases (n.sequence == s.latest_sequence)) [
        | inl same ↦ (n, ground (arith, lookup-insert n.sequence s.latest_sequence n s.snapshots))
        | inr other ↦ (m, ground (arith, lookup-insert n.sequence s.latest_sequence n s.snapshots))
      ]
    ]
  ]

  -- A save keeps its snapshot if the check passes, and changes nothing otherwise.
  save_in_memory-cases :
      (n : CertifiedSnapshot) (s : SnapshotMap)
      → ((verify_snapshot crypto read_state n ≡ ok tt)
          × (save_in_memory crypto read_state n s ≡ (ok tt, put_snapshot n s)))
        ⊎ ((e : LedgerError) × ((verify_snapshot crypto read_state n ≡ err e)
              × (save_in_memory crypto read_state n s ≡ (err e, s))))
  unfolding save_in_memory
  save_in_memory-cases n s = elim (Result-cases (verify_snapshot crypto read_state n)) [
    | inl (_, v) ↦ inl (v, ground (arith, v))
    | inr (e, v) ↦ inr (e, (v, ground (arith, v)))
  ]

  save_in_memory-IsIndexed :
      (n : CertifiedSnapshot) (s : SnapshotMap)
      → IsIndexed s
      → IsIndexed (save_in_memory crypto read_state n s).1
  save_in_memory-IsIndexed n s i = elim (save_in_memory-cases n s) [
    | inl (v, saved) ↦
        rw saved
          (record { kept = put_snapshot-IsKept n s v i; newest = inr (put_snapshot-newest n s i) })
    | inr (_, (_, refused)) ↦ rw refused i
  ]

  -- Under any history of saves, refused ones included, the store keeps only snapshots that passed
  -- their check, each under its own sequence, none later than the latest sequence, under which
  -- there is one as soon as any was kept.
  pub save_all-IsIndexed :
      (ns : List CertifiedSnapshot) (s : SnapshotMap) → IsIndexed s → IsIndexed (save_all ns s)
  unfolding save_all
  save_all-IsIndexed [] s i = i
  save_all-IsIndexed (n ∷ ns) s i =
      save_all-IsIndexed ns (save_in_memory crypto read_state n s).1
        (save_in_memory-IsIndexed n s i)

  pub no_snapshots-IsIndexed : IsIndexed no_snapshots
  unfolding no_snapshots
  no_snapshots-IsIndexed = record { kept = λ k n h. ground (arith, h); newest = inl (refl, refl) }
