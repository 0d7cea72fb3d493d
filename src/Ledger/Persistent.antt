-- ===== src/Ledger/Persistent.antt =====
-- The stores on sled of crates/kerosene-ledger/src/persistent.rs. The crate sled is the parameter
-- `Sled` and serde_json the record `Codec` of each type stored. Each call of sled is one step; the
-- stores hold no lock across their calls.
pub mod AccountStore
pub mod Entries
pub mod WithdrawalStore
pub mod Concurrency
pub mod Latest
use kerosene_node.Base.{
  Bool, List, Option, String, [], false, is_some, nat_eq, none, some, text_eq, ℕ, ◌++◌, ◌∷◌,
}
use kerosene_node.Base.Results.{
  bind as ◌>>=◌, then_do as ◌>>◌, Handler, Result, check, err, ok, ok_or, reject_if, return,
}
use kerosene_node.Base.Text.{as_bytes}
use kerosene_node.Ledger.Chain.{outpoint_eq}
use kerosene_node.Ledger.Chart.{account_eq}
use kerosene_node.Ledger.Errors.{
  LedgerError, authorization_invalid, deserialization_error, invariant_violation, nonce_consumed,
  serialization_error, sled_error,
}
use kerosene_node.Ledger.States.{onchain_eq, reservation_state_eq, role_eq, withdrawal_status_eq}

pub data SledError : Type 0 where
  sled_failed : SledError

pub record Sled : Type 1 where
  pub Db : Type 0
  pub get : List ℕ → Db → Result SledError (Option (List ℕ))
  pub insert : List ℕ → List ℕ → Handler Db SledError (Option (List ℕ))
  pub remove : List ℕ → Handler Db SledError (Option (List ℕ))
  pub apply_batch : List (List ℕ × List ℕ) → Handler Db SledError (Unit {0})
  -- The pairs that `scan_prefix` yields without an error
  pub scan_prefix : List ℕ → Db → List (List ℕ × List ℕ)

-- `serde_json::to_vec` and `serde_json::from_slice`
pub record Codec (T : Type 0) : Type 0 where
  pub to_json : T → Option (List ℕ)
  pub from_json : List ℕ → Option T

-- `[PREFIX, id.as_bytes()].concat()`
abbrev pub key_of : String → String → List ℕ
key_of prefix id = as_bytes prefix ++ as_bytes id

unfoldable pub serialize : {T : Type 0} → Codec T → T → Result LedgerError (List ℕ)
serialize codec value = ok_or (codec.to_json value) (invariant_violation serialization_error)

unfoldable pub deserialize : {T : Type 0} → Codec T → List ℕ → Result LedgerError T
deserialize codec bytes = ok_or (codec.from_json bytes) (invariant_violation deserialization_error)

-- `.map_err(|e| LedgerError::InvariantViolation(..))`
abbrev pub sled_checked : {A : Type 0} → Result SledError A → Result LedgerError A
sled_checked (ok a) = ok a
sled_checked (err _) = err (invariant_violation sled_error)

module _ (sled : Sled) where
  abbrev pub DbOp : Type 0 → Type 0
  DbOp A = Handler sled.Db LedgerError A

  -- `db.get(&key)..?`
  abbrev pub get_bytes : List ℕ → DbOp (Option (List ℕ))
  get_bytes key = check λ db. sled_checked (sled.get key db)

  -- `match db.get(&key)..? { Some(bytes) => Some(deserialize(&bytes)?), None => None }`
  unfoldable pub fetch : {T : Type 0} → Codec T → List ℕ → DbOp (Option T)
  fetch codec key db = (
    elim (sled_checked (sled.get key db)) [
      | err e ↦ err e
      | ok none ↦ ok none
      | ok (some bytes) ↦ elim (deserialize codec bytes) [
        | err e ↦ err e
        | ok value ↦ ok (some value)
      ]
    ],
    db,
  )

  -- `db.insert(&key, bytes)..?`
  abbrev pub put_bytes : List ℕ → List ℕ → DbOp (Option (List ℕ))
  put_bytes key bytes db = let (r, t) = sled.insert key bytes db in (sled_checked r, t)

  -- `db.insert(&key, serialize(&value)?)..?; Ok(())`
  unfoldable pub store : {T : Type 0} → Codec T → List ℕ → T → DbOp (Unit {0})
  store codec key value db = elim (serialize codec value) [
    | err e ↦ (err e, db)
    | ok bytes ↦ elim ((put_bytes key bytes db).0) [
      | err e ↦ (err e, (put_bytes key bytes db).1)
      | ok _ ↦ (ok tt, (put_bytes key bytes db).1)
    ]
  ]

  -- An entry that must be there, changed by `change`, and written back.
  unfoldable pub update_entry :
      {T : Type 0} → Codec T → List ℕ → LedgerError → (T → Result LedgerError T) → DbOp (Unit {0})
  update_entry codec key missing change = do
    found ← fetch codec key
    entry ← check λ _. ok_or found missing
    changed ← check λ _. change entry
    store codec key changed

  -- A new entry, unless the key is taken.
  unfoldable pub create_entry : {T : Type 0} → Codec T → List ℕ → LedgerError → T → DbOp (Unit {0})
  create_entry codec key taken entry = do
    existing ← get_bytes key
    check λ _. reject_if (is_some existing) taken
    store codec key entry

  -- The values under a prefix that read back
  pub readable : {T : Type 0} → Codec T → List (List ℕ × List ℕ) → List T
  readable codec [] = []
  readable codec ((_, bytes) ∷ rest) = elim (codec.from_json bytes) [
    | none ↦ readable codec rest
    | some value ↦ value ∷ readable codec rest
  ]

  -- `SledNonceChecker`
  unfoldable pub sled_is_consumed : String → DbOp Bool
  sled_is_consumed nonce = do held ← get_bytes (key_of "nonce:" nonce); return (is_some held)

  unfoldable pub sled_mark_consumed : String → DbOp (Unit {0})
  sled_mark_consumed nonce = do
    prev ← put_bytes (key_of "nonce:" nonce) []
    check λ _. reject_if (is_some prev) (authorization_invalid (nonce_consumed nonce))

  unfoldable pub sled_is_consumed_sync : String → sled.Db → Bool
  sled_is_consumed_sync nonce db = elim (sled.get (key_of "nonce:" nonce) db) [
    | err _ ↦ false
    | ok held ↦ is_some held
  ]

  unfoldable pub sled_mark_consumed_sync : String → sled.Db → sled.Db
  sled_mark_consumed_sync nonce db = (sled.insert (key_of "nonce:" nonce) [] db).1
