-- ===== src/Ledger/Tests/Sled.antt =====
-- Runs of persistent.rs over a map from byte strings to byte strings.
use kerosene_node.Base.{
  List, Option, [], arith, if◌then◌else◌, nat_eq, none, refl, some, text_eq, true, ℕ, ◌∷◌, ◌≡◌, ◌≢◌,
  Bool-cases, false, inl, inr, sym,
}
use kerosene_node.Base.Results.{ok}
use kerosene_node.Base.Text.{as_bytes}
use kerosene_node.Ledger.Account.{AccountState, new_account, apply_credit}
use kerosene_node.Ledger.Certificates.{check_basic, check_signature, for_each, verify_basic}
use kerosene_node.Ledger.Chain.{outpoint_eq}
use kerosene_node.Ledger.Chart.{account_eq}
use kerosene_node.Ledger.Commands.{BalanceCommand, credit, apply_operation}
use kerosene_node.Ledger.Persistent.{Codec, Sled, deserialize, fetch, serialize}
use kerosene_node.Ledger.Persistent.AccountStore.{
  begin_command, finish_command, sled_get_account, on_copy,
}
use kerosene_node.Ledger.Persistent.Concurrency.{IsStore, ReadsBack, begin_command_race, NeverFails}
use kerosene_node.Ledger.Persistent.Latest.{
  HasBatches, sled_latest_snapshot, sled_latest_snapshot-save, sled_save_snapshot,
}
use kerosene_node.Ledger.Snapshots.{CertifiedSnapshot, verify_snapshot}
use kerosene_node.Ledger.States.{onchain_eq, reservation_state_eq, role_eq, withdrawal_status_eq}
use kerosene_node.Ledger.Tests.Replicas.{flat, read_ledger, snapshot_at}
use kerosene_node.Membership.Onion.{bytes_eq}

bytes_eq_refl : (bs : List ℕ) → bytes_eq bs bs ≡ true
bytes_eq_refl [] = refl
bytes_eq_refl (b ∷ bs) = ground (arith, bytes_eq_refl bs)

bytes_eq_sound : (xs ys : List ℕ) → bytes_eq xs ys ≡ true → xs ≡ ys
bytes_eq_sound [] [] h = refl
bytes_eq_sound (x ∷ xs) (y ∷ ys) h = ground (arith, h, bytes_eq_sound xs ys)
bytes_eq_sound [] (y ∷ ys) h = ground (arith, h)
bytes_eq_sound (x ∷ xs) [] h = ground (arith, h)

abbrev ByteMap : Type 0
ByteMap = List ℕ → Option (List ℕ)

abbrev write_to : List ℕ → List ℕ → ByteMap → ByteMap
write_to k v db = λ j. if bytes_eq k j then some v else db j

abbrev write_all : List (List ℕ × List ℕ) → ByteMap → ByteMap
write_all [] db = db
write_all ((k, v) ∷ rest) db = write_all rest (write_to k v db)

abbrev map_sled : Sled
map_sled = record {
  Db = ByteMap;
  get = λ k db. ok (db k);
  insert = λ k v db. (ok (db k), write_to k v db);
  remove = λ k db. (ok (db k), λ j. if bytes_eq k j then none else db j);
  apply_batch = λ writes db. (ok tt, write_all writes db);
  scan_prefix = λ prefix db. [];
}

map_sled-IsStore : IsStore map_sled
map_sled-IsStore = record {
  get-insert_self = λ k v db prev h. ground (arith, bytes_eq_refl k);
  get-insert_other = λ k v j db h. ground (arith, h);
}

bytes_eq-differ : (k j : List ℕ) → k ≢ j → bytes_eq j k ≡ false
bytes_eq-differ k j ne = elim (Bool-cases (bytes_eq j k)) [
  | inl same ↦ absurd (ne (sym (bytes_eq_sound j k same)))
  | inr other ↦ other
]

map_sled-HasBatches : HasBatches map_sled
map_sled-HasBatches = record {
  get-apply_batch = λ k v j w db ne h.
      (ground (arith, bytes_eq_refl k, bytes_eq-differ k j ne), ground (arith, bytes_eq_refl j));
}

abbrev account_codec : Codec AccountState
account_codec = record {
  to_json = λ s. some (s.version ∷ s.available_sats ∷ []);
  from_json = λ bytes. elim bytes [
    | version ∷ available ∷ [] ↦
        some (record (new_account "a") { version = version; available_sats = available })
    | _ ↦ none
  ];
}

abbrev account_of : ℕ → ℕ → AccountState
account_of version available = record (new_account "a") {
  version = version;
  available_sats = available;
}

abbrev credit_of : ℕ → BalanceCommand
credit_of amount = record {
  command_id = "c";
  account_id = "a";
  expected_version = 3;
  operation = credit;
  amount_sats = amount;
  epoch = 1;
  payload_hash = "h";
}

abbrev account_db : ByteMap
account_db = λ j. if bytes_eq (as_bytes "account:a") j then some (3 ∷ 100 ∷ []) else none

account_codec-ReadsBack : (v a : ℕ) → ReadsBack account_codec (account_of v a)
account_codec-ReadsBack v a = record { from_json-to_json = λ bytes h. ground (arith, h) }

abbrev after_first : ByteMap
after_first = (finish_command map_sled account_codec (credit_of 10) (account_of 4 110) account_db).1

first_begins :
    (begin_command map_sled account_codec (credit_of 10) account_db).0 ≡ ok (account_of 4 110)
unfolding begin_command fetch deserialize apply_operation apply_credit as_bytes
first_begins = refl

second_begins :
    (begin_command map_sled account_codec (credit_of 7) account_db).0 ≡ ok (account_of 4 107)
unfolding begin_command fetch deserialize apply_operation apply_credit as_bytes
second_begins = refl

map_sled-NeverFails : NeverFails map_sled
map_sled-NeverFails = record { inserted = λ k v db. (db k, refl) }

begin_command_race_example :
    let after =
      (finish_command map_sled account_codec (credit_of 7) (account_of 4 107) after_first).1 in
    (s : AccountState) × ((s.version ≡ 3)
      × (s.version ≡ 3)
      × (on_copy map_sled account_codec (apply_operation credit 10) s ≡ ok (account_of 4 110))
      × (on_copy map_sled account_codec (apply_operation credit 7) s ≡ ok (account_of 4 107))
      × ((finish_command map_sled account_codec (credit_of 10) (account_of 4 110) account_db).0
          ≡ ok (account_of 4 110))
      × ((finish_command map_sled account_codec (credit_of 7) (account_of 4 107) after_first).0
          ≡ ok (account_of 4 107))
      × ((sled_get_account map_sled account_codec "a" after).0 ≡ ok (some (account_of 4 107))))
begin_command_race_example =
    begin_command_race map_sled account_codec map_sled-IsStore (credit_of 10) (credit_of 7)
      (account_of 4 110) (account_of 4 107) account_db (4 ∷ 110 ∷ []) (4 ∷ 107 ∷ [])
      map_sled-NeverFails (account_codec-ReadsBack 4 107) refl refl refl first_begins second_begins

abbrev snapshot_codec : Codec CertifiedSnapshot
snapshot_codec = record {
  to_json = λ n. some (n.sequence ∷ []);
  from_json = λ bytes. elim bytes [ sequence ∷ [] ↦ some (snapshot_at sequence) | _ ↦ none ];
}

snapshot_codec-ReadsBack : (k : ℕ) → ReadsBack snapshot_codec (snapshot_at k)
snapshot_codec-ReadsBack k = record { from_json-to_json = λ bytes h. ground (arith, h) }

abbrev snapshot_db : ByteMap
snapshot_db =
    (sled_save_snapshot map_sled snapshot_codec flat read_ledger (snapshot_at 5) (λ j. none)).1

third_saved :
    (sled_save_snapshot map_sled snapshot_codec flat read_ledger (snapshot_at 3) snapshot_db).0
    ≡ ok tt
unfolding sled_save_snapshot serialize verify_snapshot verify_basic for_each check_basic
    check_signature
third_saved = refl

sled_latest_snapshot-save_example :
    sled_latest_snapshot map_sled snapshot_codec flat read_ledger
      (sled_save_snapshot map_sled snapshot_codec flat read_ledger (snapshot_at 3) snapshot_db).1
    ≡ ok (some (snapshot_at 3))
sled_latest_snapshot-save_example =
    sled_latest_snapshot-save map_sled snapshot_codec flat read_ledger map_sled-HasBatches
      (snapshot_at 3) snapshot_db (snapshot_codec-ReadsBack 3) (omega arith) third_saved
