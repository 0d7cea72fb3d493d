-- ===== src/Ledger/Tests/Stores.antt =====
-- A run of the reservation store of in_memory.rs.
use mathlib.Core.Option
use kerosene_node.Base.{String, [], refl, text_eq, ◌∷◌, ◌≡◌, nat_eq}
use kerosene_node.Base.Table.{lookup}
use kerosene_node.Ledger.Chain.{outpoint_eq}
use kerosene_node.Ledger.Chart.{account_eq}
use kerosene_node.Ledger.Reservations.{Reservation, Reservations, expire_stale}
use kerosene_node.Ledger.Reservations.Expiry.{after_expiry, expire_stale_lem, stale_count}
use kerosene_node.Ledger.States.{
  consumed, prepared, onchain_eq, reservation_state_eq, role_eq, withdrawal_status_eq,
}

abbrev hold : Reservation
hold = record {
  reservation_id = "r1";
  account_id = "alice";
  amount_sats = 30;
  state = prepared;
  created_at_bucket = 1;
  expires_at_bucket = 10;
  committed_sequence = 0;
  authorization_commitment = "intent";
}

abbrev holds : Reservations
holds =
    ("r1", hold)
    ∷ ("r2", record hold { reservation_id = "r2"; state = consumed })
    ∷ ("r3", record hold { reservation_id = "r3"; expires_at_bucket = 20 })
    ∷ []

expire_stale_example :
    let (n, m) = expire_stale 10 holds in
    (n ≡ stale_count 10 holds)
    × ((id : String) → lookup id m ≡ Option.map (after_expiry 10) (lookup id holds))
expire_stale_example = expire_stale_lem 10 holds (refl, (refl, (refl, tt)))

expires_one : (expire_stale 10 holds).0 ≡ 1
unfolding expire_stale
expires_one = refl
