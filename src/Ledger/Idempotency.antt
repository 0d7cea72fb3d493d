-- ===== src/Ledger/Idempotency.antt =====
-- Idempotency records: crates/kerosene-ledger/src/idempotency.rs, and `InMemoryIdempotencyStore` of
-- crates/kerosene-ledger/src/in_memory.rs.
use kerosene_node.Base.{Option, String, arith, if◌then◌else◌, none, some, text_eq, ℕ, ◌==◌, ◌≡◌}
use kerosene_node.Base.Results.{Result, err, ok}
use kerosene_node.Base.Table.{Table, insert, lookup, lookup-insert}
use kerosene_node.Ledger.Errors.{LedgerError, idempotency_conflict}
use kerosene_node.Ledger.States.{}

pub record IdempotencyRecord : Type 0 where
  pub command_id : String
  pub command_hash : String
  pub result_hash : String
  pub committed_sequence : ℕ
  pub resulting_state_root : String

abbrev pub IdempotencyStore : Type 0
IdempotencyStore = Table String IdempotencyRecord

-- `IdempotencyStore::check`
unfoldable pub check_command :
    String → String → IdempotencyStore → Result LedgerError (Option IdempotencyRecord)
check_command id hash m = elim (lookup id m) [
  | some existing ↦
      if existing.command_hash == hash then ok (some existing) else err (idempotency_conflict id)
  | none ↦ ok none
]

-- `IdempotencyStore::record`
unfoldable pub record_command : IdempotencyRecord → IdempotencyStore → IdempotencyStore
record_command r m = insert r.command_id r m

-- After a command is recorded, a check of any command answers: with the record for its id and hash,
-- with a conflict for its id under another hash, and as before for any other id.
check_command-record_command :
    (r : IdempotencyRecord) (m : IdempotencyStore) (id hash : String)
    → check_command id hash (record_command r m) ≡ (
        if r.command_id == id
        then (if r.command_hash == hash then ok (some r) else err (idempotency_conflict id))
        else check_command id hash m)
unfolding check_command record_command
check_command-record_command r m id hash = ground (arith, lookup-insert r.command_id id r m)
