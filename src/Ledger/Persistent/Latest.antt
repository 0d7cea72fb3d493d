-- ===== src/Ledger/Persistent/Latest.antt =====
-- `SledSnapshotStore` of crates/kerosene-ledger/src/persistent.rs.
use kerosene_node.Base.{
  List, Option, [], arith, if◌then◌else◌, length, nat_eq, none, refl, some, suc, text_eq, zero, ℕ,
  ◌*◌, ◌++◌, ◌+◌, ◌/◌, ◌<◌, ◌==◌, ◌∷◌, ◌≡◌, ◌≢◌, Option-cases, ap, inl, inr,
}
use kerosene_node.Base.Results.{Result, err, ok, Result-cases}
use kerosene_node.Base.Text.{as_bytes, to_le_bytes}
use kerosene_node.Base.Words.{u64_mod}
use kerosene_node.Ledger.Certificates.{Crypto}
use kerosene_node.Ledger.Chain.{outpoint_eq}
use kerosene_node.Ledger.Chart.{account_eq}
use kerosene_node.Ledger.Errors.{LedgerError, invariant_violation, latest_sequence_invalid}
use kerosene_node.Ledger.Persistent.{Codec, DbOp, Sled, deserialize, fetch, serialize, sled_checked}
use kerosene_node.Ledger.Persistent.Concurrency.{ReadsBack}
use kerosene_node.Ledger.Snapshots.{
  CertifiedSnapshot, SnapshotStore, install_certified, verify_snapshot,
}
use kerosene_node.Ledger.State.{LedgerState}
use kerosene_node.Ledger.States.{onchain_eq, reservation_state_eq, role_eq, withdrawal_status_eq}

-- `u64::from_le_bytes`
pub from_le_bytes : List ℕ → ℕ
from_le_bytes [] = 0
from_le_bytes (b ∷ bs) = b + 256 * from_le_bytes bs

module _ (sled : Sled) (codec : Codec CertifiedSnapshot) (crypto : Crypto)
    (read_state : List ℕ → Option LedgerState) where
  abbrev pub snapshot_key : ℕ → List ℕ
  snapshot_key sequence = as_bytes "snap:" ++ to_le_bytes 8 sequence

  abbrev pub latest_key : List ℕ
  latest_key = as_bytes "snap:latest_seq"

  unfoldable pub sled_save_snapshot : CertifiedSnapshot → DbOp sled (Unit {0})
  sled_save_snapshot n db = elim (verify_snapshot crypto read_state n) [
    | err e ↦ (err e, db)
    | ok _ ↦ elim (serialize codec n) [
      | err e ↦ (err e, db)
      | ok bytes ↦
          (let (r, t) =
              sled.apply_batch
                ((snapshot_key n.sequence, bytes) ∷ (latest_key, to_le_bytes 8 n.sequence) ∷ [])
                db in
            (sled_checked r, t))
    ]
  ]

  unfoldable pub sled_get_snapshot : ℕ → sled.Db → Result LedgerError (Option CertifiedSnapshot)
  sled_get_snapshot sequence db = (fetch sled codec (snapshot_key sequence) db).0

  unfoldable pub sled_latest_snapshot : sled.Db → Result LedgerError (Option CertifiedSnapshot)
  sled_latest_snapshot db = elim (sled_checked (sled.get latest_key db)) [
    | err e ↦ err e
    | ok none ↦ ok none
    | ok (some bytes) ↦
        if length bytes == 8
        then sled_get_snapshot (from_le_bytes bytes) db
        else err (invariant_violation latest_sequence_invalid)
  ]

  abbrev pub sled_snapshots : SnapshotStore
  sled_snapshots = record {
    State = sled.Db;
    save_snapshot = sled_save_snapshot;
    latest_snapshot = sled_latest_snapshot;
    get_snapshot = λ sequence db. sled_get_snapshot sequence db;
    install_snapshot = install_certified crypto read_state;
  }

-- What sled promises of a batch of two keys that differ: both are read back.
pub record HasBatches (sled : Sled) : Type 0 where
  pub get-apply_batch :
      (k v j w : List ℕ) (db : sled.Db)
      → k ≢ j
      → (sled.apply_batch ((k, v) ∷ (j, w) ∷ []) db).0 ≡ ok tt
      → (sled.get k (sled.apply_batch ((k, v) ∷ (j, w) ∷ []) db).1 ≡ ok (some v))
        × (sled.get j (sled.apply_batch ((k, v) ∷ (j, w) ∷ []) db).1 ≡ ok (some w))

abbrev power_256 : ℕ → ℕ
power_256 zero = 1
power_256 (suc k) = 256 * power_256 k

from_le-to_le : (k n : ℕ) → n < power_256 k → from_le_bytes (to_le_bytes k n) ≡ n
unfolding from_le_bytes to_le_bytes
from_le-to_le zero n h = omega arith
from_le-to_le (suc k) n h = omega (arith, from_le-to_le k (n / 256) (omega arith))

length-to_le : (k n : ℕ) → length (to_le_bytes k n) ≡ k
unfolding to_le_bytes
length-to_le zero n = refl
length-to_le (suc k) n = omega (arith, length-to_le k (n / 256))

module _ (sled : Sled) (codec : Codec CertifiedSnapshot) (crypto : Crypto)
    (read_state : List ℕ → Option LedgerState) (lawful : HasBatches sled) where
  keys_differ :
      (sequence : ℕ)
      → snapshot_key sled codec crypto read_state sequence ≢ latest_key sled codec crypto read_state
  unfolding as_bytes
  keys_differ sequence e = omega (arith, ap (λ (bs : List ℕ). length bs) e, length-to_le 8 sequence)

  -- After a save that succeeds the latest snapshot is the one just saved, also when an earlier save
  -- had a higher sequence.
  pub sled_latest_snapshot-save :
      (n : CertifiedSnapshot) (db : sled.Db)
      → ReadsBack codec n
      → n.sequence < u64_mod
      → (sled_save_snapshot sled codec crypto read_state n db).0 ≡ ok tt
      → sled_latest_snapshot sled codec crypto read_state
          (sled_save_snapshot sled codec crypto read_state n db).1
        ≡ ok (some n)
  unfolding sled_save_snapshot sled_latest_snapshot sled_get_snapshot fetch serialize deserialize
  sled_latest_snapshot-save n db faithful small h =
      let key = snapshot_key sled codec crypto read_state n.sequence in
      let sequence_bytes = to_le_bytes 8 n.sequence in
      elim (Result-cases (verify_snapshot crypto read_state n)) [
        | inl (_, v) ↦ elim (Option-cases (codec.to_json n)) [
          | inl none_written ↦ absurd (ground (arith, h, v, none_written))
          | inr (bytes, written) ↦
              (let batch : List (List ℕ × List ℕ) =
                  (key, bytes) ∷ (as_bytes "snap:latest_seq", sequence_bytes) ∷ [] in
                elim (Result-cases (sled.apply_batch batch db).0) [
                  | inl (_, p) ↦
                      (let (entry, latest) =
                          lawful.get-apply_batch key bytes (as_bytes "snap:latest_seq")
                            sequence_bytes db (keys_differ n.sequence) p in
                        ground (
                          arith,
                          v,
                          written,
                          p,
                          entry,
                          latest,
                          length-to_le 8 n.sequence,
                          from_le-to_le 8 n.sequence small,
                          faithful.from_json-to_json bytes written,
                        ))
                  | inr (e, p) ↦ absurd (ground (arith, h, v, written, p))
                ])
        ]
        | inr (e, v) ↦ absurd (ground (arith, h, v))
      ]
