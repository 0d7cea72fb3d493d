-- ===== src/Ledger/Tests/Outputs.antt =====
-- Runs of the withdrawals of withdrawal.rs and of the UTXOs of chain.rs.
use kerosene_node.Base.{All, List, [], false, none, refl, some, text_eq, ◌∷◌, ◌≡◌, nat_eq}
use kerosene_node.Base.Table.{lookup}
use kerosene_node.Base.Text.{decimal}
use kerosene_node.Ledger.Chain.{
  UtxoEntry, apply_reorg, canonical_key, is_disconnected, to_canonical_string, outpoint_eq,
}
use kerosene_node.Ledger.Chain.Keys.{HasDistinctOutpoints}
use kerosene_node.Ledger.Chain.Reorganization.{apply_reorg-IsConnected}
use kerosene_node.Ledger.Chart.{account_eq}
use kerosene_node.Ledger.States.{
  authorized, confirmed, failed, reserved, signing, spendable, onchain_eq, reservation_state_eq,
  role_eq, withdrawal_status_eq,
}
use kerosene_node.Ledger.Utxos.{Utxos}
use kerosene_node.Ledger.Withdrawals.{
  WithdrawalCall, WithdrawalRecord, Withdrawals, attach_txid, run_withdrawals, update,
}
use kerosene_node.Ledger.Withdrawals.Changes.{Advances}
use kerosene_node.Ledger.Withdrawals.Lifecycle.{run_withdrawals-Advances}

abbrev request : WithdrawalRecord
request = record {
  withdrawal_id = "w1";
  intent_commitment = "intent";
  account_id = "alice";
  amount_sats = 50;
  destination_address = "bc1q";
  status = reserved;
  reservation_id = none;
  authorization = none;
  psbt_commitment = none;
  broadcast_txid = none;
  created_at_bucket = 1;
  updated_at_bucket = 1;
}

abbrev requests : Withdrawals
requests = ("w1", request) ∷ ("w2", record request { withdrawal_id = "w2"; status = failed }) ∷ []

abbrev calls : List WithdrawalCall
calls =
    update "w1" authorized 2
    ∷ attach_txid "w1" "t1"
    ∷ update "w1" confirmed 3
    ∷ update "w2" signing 3
    ∷ update "w1" failed 4
    ∷ []

run_withdrawals-Advances_example :
    (v : WithdrawalRecord) × (lookup "w1" (run_withdrawals calls requests) ≡ some v)
    × Advances request v
run_withdrawals-Advances_example = run_withdrawals-Advances calls requests "w1" request refl

abbrev coin : UtxoEntry
coin = record {
  outpoint = record { txid = "t1"; vout = 0 };
  value_sats = 1000;
  address = "bc1q";
  state = spendable;
  block_height = some 800;
  detected_at_bucket = 1;
  confirmed_at_bucket = some 2;
  reserved_by = none;
  reserved_at_bucket = none;
  spent_at_bucket = none;
  spent_by_txid = none;
}

abbrev other_coin : UtxoEntry
other_coin = record coin { outpoint = record { txid = "t2"; vout = 1 } }

abbrev coins : Utxos
coins = coin ∷ other_coin ∷ []

coins-HasDistinctOutpoints : HasDistinctOutpoints coins
unfolding canonical_key to_canonical_string decimal
coins-HasDistinctOutpoints = (refl, (refl, tt))

apply_reorg-IsConnected_example :
    All
      (λ u. is_disconnected ("t1" ∷ []) u ≡ false)
      (apply_reorg ("t1" ∷ []) (other_coin ∷ []) 5 coins).0
apply_reorg-IsConnected_example = apply_reorg-IsConnected ("t1" ∷ []) (other_coin ∷ []) 5 coins

abbrev held_coins : Utxos
held_coins = record coin { reserved_by = some "r1"; reserved_at_bucket = some 3 } ∷ other_coin ∷ []
