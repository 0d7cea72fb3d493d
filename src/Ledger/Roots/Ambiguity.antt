-- ===== src/Ledger/Roots/Ambiguity.antt =====
-- What the state root of state_root.rs does not tell apart.
use kerosene_node.Base.{List, String, ◌∷◌, ◌≡◌}
use kerosene_node.Base.Text.{as_bytes-append, ◌+++◌}
use kerosene_node.Ledger.Certificates.{Crypto}
use kerosene_node.Ledger.Reservations.{Reservation}
use kerosene_node.Ledger.Roots.{compute_state_root, hash_reservation, reservation_bytes}
use kerosene_node.Ledger.State.{LedgerState}
use mathlib.Core.List.{append_assoc}

-- The reservation with the ids written out.
abbrev pub with_ids : String → String → Reservation → Reservation
with_ids account id r = record r { account_id = account; reservation_id = id }

reservation_bytes-shift :
    (a b c : String) (r : Reservation)
    → reservation_bytes (with_ids (a +++ b) c r) ≡ reservation_bytes (with_ids a (b +++ c) r)
unfolding reservation_bytes
reservation_bytes-shift a b c r = simp (as_bytes-append, append_assoc)

-- A reservation enters the root with its account's id, its own id and its commitment run together:
-- moving the end of the account's id to the front of the reservation's id leaves the state root as
-- it was, so two ledgers that reserve funds of different accounts have one root.
compute_state_root_shift :
    (crypto : Crypto) (a b c : String) (r : Reservation) (rs : List Reservation) (s : LedgerState)
    → compute_state_root crypto (record s { reservations = with_ids (a +++ b) c r ∷ rs })
      ≡ compute_state_root crypto (record s { reservations = with_ids a (b +++ c) r ∷ rs })
unfolding compute_state_root hash_reservation
compute_state_root_shift crypto a b c r rs s = cc (reservation_bytes-shift a b c r)
