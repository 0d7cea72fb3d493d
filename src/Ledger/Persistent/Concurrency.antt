-- ===== src/Ledger/Persistent/Concurrency.antt =====
-- Two calls of `apply_command` of `SledVersionedAccountStore` of
-- crates/kerosene-ledger/src/persistent.rs at once.
use kerosene_node.Base.{
  List, none, ap, ◌∙◌, Option, Option-cases, arith, false, inl, inr, nat_eq, some, text_eq, ℕ, ◌≡◌,
  String, subst, sym,
}
use kerosene_node.Base.Results.{Result-cases, ok}
use kerosene_node.Ledger.Account.{AccountState, new_account}
use kerosene_node.Ledger.Chain.{outpoint_eq}
use kerosene_node.Ledger.Chart.{account_eq}
use kerosene_node.Ledger.Commands.{BalanceCommand, apply_operation}
use kerosene_node.Ledger.Persistent.{Codec, Sled, deserialize, fetch, serialize, store}
use kerosene_node.Ledger.Persistent.AccountStore.{
  begin_command, finish_command, sled_get_account, account_key, on_copy,
}
use kerosene_node.Ledger.States.{onchain_eq, reservation_state_eq, role_eq, withdrawal_status_eq}
use kerosene_node.Membership.Onion.{bytes_eq}

-- What sled promises of one insertion: it is read back, and no other key changes.
pub record IsStore (sled : Sled) : Type 0 where
  pub get-insert_self :
      (k v : List ℕ) (db : sled.Db) (prev : Option (List ℕ))
      → (sled.insert k v db).0 ≡ ok prev
      → sled.get k (sled.insert k v db).1 ≡ ok (some v)
  pub get-insert_other :
      (k v j : List ℕ) (db : sled.Db)
      → bytes_eq k j ≡ false
      → sled.get j (sled.insert k v db).1 ≡ sled.get j db

-- A database that takes every write.
pub record NeverFails (sled : Sled) : Type 0 where
  pub inserted :
      (k v : List ℕ) (db : sled.Db) → (prev : Option (List ℕ)) × ((sled.insert k v db).0 ≡ ok prev)

-- What serde_json promises of a value: what is written of it reads back.
pub record ReadsBack {T : Type 0} (codec : Codec T) (t : T) : Type 0 where
  pub from_json-to_json :
      (bytes : List ℕ) → codec.to_json t ≡ some bytes → codec.from_json bytes ≡ some t

module _ {T : Type 0} (sled : Sled) (codec : Codec T) (lawful : IsStore sled) where
  -- An entry that was stored without an error is the one fetched.
  fetch-store :
      (key : List ℕ) (value : T) (db : sled.Db)
      → ReadsBack codec value
      → (store sled codec key value db).0 ≡ ok tt
      → (fetch sled codec key (store sled codec key value db).1).0 ≡ ok (some value)
  unfolding fetch store serialize deserialize
  fetch-store key value db faithful h = elim (Option-cases (codec.to_json value)) [
    | inl none_written ↦ absurd (ground (arith, h, none_written))
    | inr (bytes, written) ↦ elim (Result-cases (sled.insert key bytes db).0) [
      | inl (prev, p) ↦ ground (
        arith,
        written,
        p,
        lawful.get-insert_self key bytes db prev p,
        faithful.from_json-to_json bytes written,
      )
      | inr (e, p) ↦ absurd (ground (arith, h, written, p))
    ]
  ]

module _ (sled : Sled) (codec : Codec AccountState) (lawful : IsStore sled) where
  finish_command-store :
      (cmd : BalanceCommand) (s : AccountState) (db : sled.Db)
      → (finish_command sled codec cmd s db).0 ≡ ok s
      → let stored_db = store sled codec (account_key sled codec cmd.account_id) s db in
        (stored_db.0 ≡ ok tt) × ((finish_command sled codec cmd s db).1 ≡ stored_db.1)
  unfolding finish_command
  finish_command-store cmd s db h =
      elim (Result-cases (store sled codec (account_key sled codec cmd.account_id) s db).0) [
        | inl (_, p) ↦ (p, ground (arith, p))
        | inr (e, p) ↦ absurd (ground (arith, h, p))
      ]

  -- The account that a command works on: the one found, or a new one.
  abbrev pub opened : BalanceCommand → Option AccountState → AccountState
  opened cmd none = new_account cmd.account_id
  opened cmd (some s) = s

  -- What a command has read and checked when its first half succeeds.
  begin_command-ok :
      (cmd : BalanceCommand) (a : AccountState) (db : sled.Db)
      → (begin_command sled codec cmd db).0 ≡ ok a
      → (found : Option AccountState) × (((fetch sled codec
              (account_key sled codec cmd.account_id)
              db).0
            ≡ ok found)
          × (((opened cmd found).version ≡ cmd.expected_version)
              × (on_copy sled codec
                    (apply_operation cmd.operation cmd.amount_sats)
                    (opened cmd found)
                  ≡ ok a)))
  unfolding begin_command
  begin_command-ok cmd a db h =
      elim (Result-cases (fetch sled codec (account_key sled codec cmd.account_id) db).0) [
        | inl (none, p) ↦ (none, (p, (ground (arith, h, p), ground (arith, h, p))))
        | inl (some s, p) ↦ (some s, (p, (ground (arith, h, p), ground (arith, h, p))))
        | inr (e, p) ↦ absurd (ground (arith, h, p))
      ]

  finish_command-ok :
      (cmd : BalanceCommand) (s : AccountState) (db : sled.Db) (bytes : List ℕ)
      → NeverFails sled
      → codec.to_json s ≡ some bytes
      → (finish_command sled codec cmd s db).0 ≡ ok s
  unfolding finish_command store serialize
  finish_command-ok cmd s db bytes works written =
      let (_, p) = works.inserted (account_key sled codec cmd.account_id) bytes db in
      ground (arith, written, p)

  -- The two halves of `apply_command` are not one step. When two commands on one account both read it
  -- before either writes, and neither sled nor the encoding fails, then both expected the version of
  -- one account that both read, both succeed, and the account kept is the one that the later write
  -- computed from that account alone: the other command's change is lost.
  pub begin_command_race :
      (first second : BalanceCommand) (a b : AccountState) (db : sled.Db) (json_a json_b : List ℕ)
      → NeverFails sled
      → ReadsBack codec b
      → codec.to_json a ≡ some json_a
      → codec.to_json b ≡ some json_b
      → first.account_id ≡ second.account_id
      → (begin_command sled codec first db).0 ≡ ok a
      → (begin_command sled codec second db).0 ≡ ok b
      → let between = (finish_command sled codec first a db).1 in
        let after = (finish_command sled codec second b between).1 in
        (s : AccountState) × ((s.version ≡ first.expected_version)
          × (s.version ≡ second.expected_version)
          × (on_copy sled codec (apply_operation first.operation first.amount_sats) s ≡ ok a)
          × (on_copy sled codec (apply_operation second.operation second.amount_sats) s ≡ ok b)
          × ((finish_command sled codec first a db).0 ≡ ok a)
          × ((finish_command sled codec second b between).0 ≡ ok b)
          × ((sled_get_account sled codec first.account_id after).0 ≡ ok (some b)))
  unfolding sled_get_account
  begin_command_race first second a b db json_a json_b works faithful written_a written_b same
        reads_a reads_b =
      let (found_a, (fetched_a, (version_a, computed_a))) = begin_command-ok first a db reads_a in
      let (found_b, (fetched_b, (version_b, computed_b))) = begin_command-ok second b db reads_b in
      let one : found_a ≡ found_b = cc (fetched_a, fetched_b, same) in
      let account : opened first found_a ≡ opened second found_b =
        same_opened first second found_a found_b same one in
      let between = (finish_command sled codec first a db).1 in
      let writes_b = finish_command-ok second b between json_b works written_b in
      let (written, ends) = finish_command-store second b between writes_b in
      let found =
        fetch-store sled codec lawful (account_key sled codec second.account_id) b between faithful
          written in
      (
        opened first found_a,
        (
          version_a,
          ap (λ (x : AccountState). x.version) account ∙ version_b,
          computed_a,
          ap (on_copy sled codec (apply_operation second.operation second.amount_sats)) account
              ∙ computed_b,
          finish_command-ok first a db json_a works written_a,
          writes_b,
          rw ends (
              subst
                (λ (id : String).
                  (fetch sled codec (account_key sled codec id)
                    (store sled codec (account_key sled codec second.account_id) b between).1).0
                  ≡ ok (some b))
                (sym same) found),
        ),
      )
    where
      same_opened :
          (c d : BalanceCommand) (x y : Option AccountState)
          → c.account_id ≡ d.account_id
          → x ≡ y
          → opened c x ≡ opened d y
      same_opened c d none none p q = cc p
      same_opened c d none (some t) p q = absurd (ground (arith, q))
      same_opened c d (some s) none p q = absurd (ground (arith, q))
      same_opened c d (some s) (some t) p q = cc q
