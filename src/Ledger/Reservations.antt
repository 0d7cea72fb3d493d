-- ===== src/Ledger/Reservations.antt =====
-- Reservations: crates/kerosene-ledger/src/reservation.rs, and `InMemoryReservationStore` of
-- crates/kerosene-ledger/src/in_memory.rs.
pub mod Expiry
use kerosene_node.Base.{
  Bool, List, String, [], false, if◌then◌else◌, leb, none, not, some, text_eq, true, ℕ, ◌&&◌, ◌+◌,
  ◌==◌, ◌∷◌,
}
use kerosene_node.Base.Results.{
  bind as ◌>>=◌, then_do as ◌>>◌, Handler, assign, check, ok_or, reject_if, require,
}
use kerosene_node.Base.Table.{Table, contains_key, insert, lookup}
use kerosene_node.Ledger.Errors.{
  LedgerError, invariant_violation, reservation_exists, reservation_not_found,
  reservation_state_mismatch,
}
use kerosene_node.Ledger.States.{
  ReservationState, committed, consumed, expired, prepared, released, reservation_state_eq,
}

pub record Reservation : Type 0 where
  pub reservation_id : String
  pub account_id : String
  pub amount_sats : ℕ
  pub state : ReservationState
  pub created_at_bucket : ℕ
  pub expires_at_bucket : ℕ
  pub committed_sequence : ℕ
  pub authorization_commitment : String

-- `Reservation::new`
pub new_reservation : String → String → ℕ → ℕ → ℕ → String → Reservation
new_reservation id account amount created expires commitment = record {
  reservation_id = id;
  account_id = account;
  amount_sats = amount;
  state = prepared;
  created_at_bucket = created;
  expires_at_bucket = expires;
  committed_sequence = 0;
  authorization_commitment = commitment;
}

abbrev pub is_terminal_state : ReservationState → Bool
is_terminal_state prepared = false
is_terminal_state committed = false
is_terminal_state consumed = true
is_terminal_state released = true
is_terminal_state ReservationState.expired = true

abbrev pub is_terminal : Reservation → Bool
is_terminal r = is_terminal_state r.state

unfoldable pub is_expired : Reservation → ℕ → Bool
is_expired r current_bucket = leb r.expires_at_bucket current_bucket && not (r.state == consumed)

abbrev pub Reservations : Type 0
Reservations = Table String Reservation

abbrev pub ReservationsOp : Type 0
ReservationsOp = Handler Reservations LedgerError (Unit {0})

unfoldable pub create_reservation : Reservation → ReservationsOp
create_reservation r = do
  check λ m.
      reject_if (contains_key r.reservation_id m)
        (invariant_violation (reservation_exists r.reservation_id))
  assign (insert r.reservation_id r)

unfoldable pub transition : String → ReservationState → ReservationState → ReservationsOp
transition id from to = do
  r ← check λ m. ok_or (lookup id m) (reservation_not_found id)
  check λ _.
      require (r.state == from) (invariant_violation (reservation_state_mismatch id from r.state))
  assign (insert id (record r { state = to }))

-- The test by which `expire_stale` picks its entries.
abbrev pub is_stale : ℕ → Reservation → Bool
is_stale current_bucket r = leb r.expires_at_bucket current_bucket && not (is_terminal r)

-- The first pass: the ids of the stale entries, in the map's order.
abbrev pub to_expire : ℕ → Reservations → List String
to_expire now [] = []
to_expire now ((id, r) ∷ m) = if is_stale now r then id ∷ to_expire now m else to_expire now m

-- The second pass, with its count.
abbrev pub expire_ids : List String → ℕ × Reservations → ℕ × Reservations
expire_ids [] (n, m) = (n, m)
expire_ids (id ∷ ids) (n, m) = expire_ids ids (elim (lookup id m) [
  | none ↦ (n, m)
  | some r ↦ (n + 1, insert id (record r { state = ReservationState.expired }) m)
])

unfoldable pub expire_stale : ℕ → Reservations → ℕ × Reservations
expire_stale now m = expire_ids (to_expire now m) (0, m)
