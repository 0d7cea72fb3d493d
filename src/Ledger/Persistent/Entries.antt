-- ===== src/Ledger/Persistent/Entries.antt =====
-- The stores of reservations, idempotency records, outputs, withdrawals and nodes of
-- crates/kerosene-ledger/src/persistent.rs.
use kerosene_node.Base.{
  keep, List, Option, String, [], if◌then◌else◌, nat_eq, none, some, text_eq, ℕ, ◌+◌, ◌==◌, ◌∷◌,
}
use kerosene_node.Base.Results.{Result, err, ok, require, ◌>>◌}
use kerosene_node.Base.Text.{as_bytes}
use kerosene_node.Ledger.Admission.{NodeMembership, sort_by_id, validate_role_transition}
use kerosene_node.Ledger.Certificates.{Crypto}
use kerosene_node.Ledger.Chain.{
  OutPoint, UtxoEntry, canonical_key, outpoint_eq, to_canonical_string,
}
use kerosene_node.Ledger.Chart.{account_eq}
use kerosene_node.Ledger.Errors.{
  LedgerError, idempotency_conflict, invariant_violation, node_exists, node_not_found,
  reservation_exists, reservation_not_found, reservation_state_mismatch, sled_error,
}
use kerosene_node.Ledger.Idempotency.{IdempotencyRecord}
use kerosene_node.Ledger.Persistent.{
  Codec, DbOp, Sled, create_entry, fetch, key_of, readable, sled_checked, store, update_entry,
}
use kerosene_node.Ledger.Reservations.{Reservation, is_stale}
use kerosene_node.Ledger.Roots.{compute_utxo_root, sort_by_key}
use kerosene_node.Ledger.States.{
  NodeRole, OnchainState, ReservationState, onchain_eq, reservation_state_eq, role_eq,
  withdrawal_status_eq,
}
use kerosene_node.Ledger.Utxos.{move_to, not_found, release_entry, reserve_entry}

module _ (sled : Sled) where
  -- `SledReservationStore`
  module _ (codec : Codec Reservation) where
    unfoldable pub sled_create_reservation : Reservation → DbOp sled (Unit {0})
    sled_create_reservation r =
        create_entry sled codec (key_of "resv:" r.reservation_id)
          (invariant_violation (reservation_exists r.reservation_id)) r

    unfoldable pub sled_get_reservation : String → DbOp sled (Option Reservation)
    sled_get_reservation id = fetch sled codec (key_of "resv:" id)

    unfoldable pub sled_transition :
        String → ReservationState → ReservationState → DbOp sled (Unit {0})
    sled_transition id from to =
        update_entry sled codec (key_of "resv:" id) (reservation_not_found id) λ r.
          require (r.state == from)
            (invariant_violation (reservation_state_mismatch id from r.state))
          >> ok (record r { state = to })

    -- The first pass of `expire_stale`
    pub stale_entries : ℕ → List (List ℕ × List ℕ) → List (List ℕ × Reservation)
    stale_entries now [] = []
    stale_entries now ((key, bytes) ∷ rest) =
        let later = stale_entries now rest in
        elim (codec.from_json bytes) [
          | none ↦ later
          | some r ↦ if is_stale now r then (key, r) ∷ later else later
        ]

    -- The second pass, which ignores what fails, with its count
    pub expire_entries : List (List ℕ × Reservation) → ℕ × sled.Db → ℕ × sled.Db
    expire_entries [] (n, db) = (n, db)
    expire_entries ((key, r) ∷ rest) (n, db) = expire_entries rest (
      n + 1,
      elim (codec.to_json (record r { state = ReservationState.expired })) [
        | none ↦ db
        | some bytes ↦ (sled.insert key bytes db).1
      ],
    )

    unfoldable pub sled_expire_stale : ℕ → sled.Db → ℕ × sled.Db
    sled_expire_stale now db =
        expire_entries (stale_entries now (sled.scan_prefix (as_bytes "resv:") db)) (0, db)

  -- `SledIdempotencyStore`
  module _ (codec : Codec IdempotencyRecord) where
    unfoldable pub sled_check_command :
        String → String → sled.Db → Result LedgerError (Option IdempotencyRecord)
    sled_check_command id hash db = elim (fetch sled codec (key_of "idemp:" id) db).0 [
      | err e ↦ err e
      | ok none ↦ ok none
      | ok (some r) ↦ if r.command_hash == hash then ok (some r) else err (idempotency_conflict id)
    ]

    unfoldable pub sled_record_command : IdempotencyRecord → DbOp sled (Unit {0})
    sled_record_command r = store sled codec (key_of "idemp:" r.command_id) r

  -- `SledUtxoStore`
  module _ (codec : Codec UtxoEntry) where
    abbrev pub outpoint_key : OutPoint → List ℕ
    outpoint_key p = key_of "utxo:" (to_canonical_string p)

    unfoldable pub sled_list_all : sled.Db → List UtxoEntry
    sled_list_all db = sort_by_key (readable sled codec (sled.scan_prefix (as_bytes "utxo:") db))

    unfoldable pub sled_add_utxo : UtxoEntry → DbOp sled (Unit {0})
    sled_add_utxo u db = elim (sled_checked (sled.get (key_of "utxo:" (canonical_key u)) db)) [
      | err e ↦ (err e, db)
      | ok (some _) ↦ (ok tt, db)
      | ok none ↦ store sled codec (key_of "utxo:" (canonical_key u)) u db
    ]

    unfoldable pub sled_get_utxo : OutPoint → DbOp sled (Option UtxoEntry)
    sled_get_utxo p = fetch sled codec (outpoint_key p)

    unfoldable pub sled_list_by_state : OnchainState → sled.Db → List UtxoEntry
    sled_list_by_state state db =
        sort_by_key (keep (λ (u : UtxoEntry). u.state == state) (sled_list_all db))

    unfoldable pub sled_update_state : OutPoint → OnchainState → DbOp sled (Unit {0})
    sled_update_state p target =
        update_entry sled codec (outpoint_key p) (not_found p) (move_to target)

    unfoldable pub sled_reserve : OutPoint → String → ℕ → DbOp sled (Unit {0})
    sled_reserve p by bucket =
        update_entry sled codec (outpoint_key p) (not_found p) (reserve_entry by bucket)

    unfoldable pub sled_release : OutPoint → DbOp sled (Unit {0})
    sled_release p = update_entry sled codec (outpoint_key p) (not_found p) release_entry

    unfoldable pub sled_utxo_root : Crypto → sled.Db → String
    sled_utxo_root crypto db = compute_utxo_root crypto (sled_list_all db)

  -- `SledMembershipStore`
  module _ (codec : Codec NodeMembership) where
    unfoldable pub sled_add_node : NodeMembership → DbOp sled (Unit {0})
    sled_add_node n =
        create_entry sled codec (key_of "member:" n.node_id)
          (invariant_violation (node_exists n.node_id)) n

    unfoldable pub sled_get_node : String → DbOp sled (Option NodeMembership)
    sled_get_node id = fetch sled codec (key_of "member:" id)

    unfoldable pub sled_list_by_role : NodeRole → sled.Db → List NodeMembership
    sled_list_by_role role db = sort_by_id (
        keep (λ (n : NodeMembership). n.role == role)
          (sort_by_id (readable sled codec (sled.scan_prefix (as_bytes "member:") db))))

    unfoldable pub sled_promote : String → NodeRole → DbOp sled (Unit {0})
    sled_promote id target =
        update_entry sled codec (key_of "member:" id) (node_not_found id)
          λ n. validate_role_transition n.role target >> ok (record n { role = target })

    unfoldable pub sled_remove_node : String → DbOp sled (Unit {0})
    sled_remove_node id db =
        let (r, t) = sled.remove (key_of "member:" id) db in
        (elim r [ ok _ ↦ ok tt | err _ ↦ err (invariant_violation sled_error) ], t)

    unfoldable pub sled_update_heartbeat : String → ℕ → DbOp sled (Unit {0})
    sled_update_heartbeat id bucket =
        update_entry sled codec (key_of "member:" id) (node_not_found id)
          λ n. ok (record n { last_heartbeat_bucket = bucket })
