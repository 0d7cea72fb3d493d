-- ===== src/Ledger/Tests/Machine.antt =====
-- Runs of `apply` of state_machine.rs, under a toy hash and with no JSON payloads.
use kerosene_node.Base.{[], ap, length, none, refl, some, true, ◌+◌, ◌∷◌, ◌≡◌, nat_eq, text_eq}
use kerosene_node.Base.Results.{ok}
use kerosene_node.Base.Text.{parse_codes, split_once}
use kerosene_node.Ledger.Account.{AccountState, apply_credit, check_version, new_account}
use kerosene_node.Ledger.Certificates.{Crypto}
use kerosene_node.Ledger.Chain.{from_canonical_string, outpoint_eq}
use kerosene_node.Ledger.Chart.{account_eq}
use kerosene_node.Ledger.Errors.{utxo_not_found}
use kerosene_node.Ledger.Machine.Applying.{
  StateTransitionReceipt, apply_ledger, consume_intent_command, perform, perform_as,
}
use kerosene_node.Ledger.Machine.Failures.{apply_ledger-atomic}
use kerosene_node.Ledger.Machine.Intents.{AreDistinct, run_ledger, run_ledger-intents}
use kerosene_node.Ledger.Machine.Totals.{apply_ledger-total, total_held}
use kerosene_node.Ledger.Machine.Validation.{Payloads, validate, validate_credit, validate_utxo}
use kerosene_node.Ledger.Nonces.{contains_text}
use kerosene_node.Ledger.Roots.{compute_state_root}
use kerosene_node.Ledger.State.{
  ConsensusProfile, LedgerCommand, LedgerState, consume_intent, credit_internal_balance,
  mark_utxo_spent,
}
use kerosene_node.Ledger.States.{onchain_eq, reservation_state_eq, role_eq, withdrawal_status_eq}

abbrev toy : Crypto
toy = record {
  sha256 = λ bs. length bs ∷ [];
  hex_encode = λ bs. "ff";
  hex_decode = λ s. none;
  is_key = λ bs. true;
  verifies = λ key message signature. true;
}

abbrev unread : Payloads
unread = record { read_detect = λ s. none; read_reorg = λ s. none }

abbrev alice : AccountState
alice = record (new_account "a") { version = 3; available_sats = 100 }

abbrev full : AccountState
full = record (new_account "b") { available_sats = 18446744073709551615 }

abbrev ledger : LedgerState
ledger = record {
  version = 7;
  accounts = alice ∷ full ∷ [];
  journal = [];
  reservations = [];
  consumed_intents = "i1" ∷ [];
  membership = record {
    cluster_id = "c";
    nodes = "n" ∷ [];
    active_profile = ConsensusProfile.single;
  };
  utxos = [];
}

abbrev credit_50 : LedgerCommand
credit_50 = record {
  command_id = "c1";
  command_type = credit_internal_balance;
  partition_key = "a";
  expected_version = some 3;
  payload_hash = "h1";
  authorization_commitment = "50";
  epoch = 1;
  created_at_bucket = 2;
}

abbrev intent_2 : LedgerCommand
intent_2 = record credit_50 {
  command_type = consume_intent;
  partition_key = "i2";
  payload_hash = "h2";
}

abbrev spend : LedgerCommand
spend = record credit_50 { command_type = mark_utxo_spent; partition_key = "t:0" }

abbrev credited_ledger : LedgerState
credited_ledger = record ledger {
  version = 8;
  accounts = record alice { version = 4; available_sats = 150 } ∷ full ∷ [];
}

abbrev credit_receipt : StateTransitionReceipt
credit_receipt = record {
  sequence = 7;
  command_hash = "h1";
  previous_state_root = compute_state_root toy ledger;
  resulting_state_root = compute_state_root toy credited_ledger;
  affected_accounts = "a" ∷ [];
}

abbrev intent_receipt : StateTransitionReceipt
intent_receipt = record {
  sequence = 8;
  command_hash = "h2";
  previous_state_root = compute_state_root toy credited_ledger;
  resulting_state_root =
      compute_state_root toy
        (record credited_ledger { version = 9; consumed_intents = "i1" ∷ "i2" ∷ [] });
  affected_accounts = "i2" ∷ [];
}

credit_applied : (apply_ledger toy unread credit_50 ledger) ≡ (ok credit_receipt, credited_ledger)
unfolding apply_ledger perform perform_as validate validate_credit check_version apply_credit
    parse_codes
credit_applied = refl

intent_applied : (apply_ledger toy unread intent_2 credited_ledger).0 ≡ ok intent_receipt
unfolding apply_ledger perform perform_as validate consume_intent_command
intent_applied = refl

apply_ledger-total_example :
    total_held (apply_ledger toy unread credit_50 ledger).1.accounts + 0
    ≡ total_held ledger.accounts + 50
unfolding parse_codes
apply_ledger-total_example =
    apply_ledger-total toy unread credit_50 ledger credit_receipt (ap (λ q. q.0) credit_applied)

apply_ledger-atomic_example : (apply_ledger toy unread spend ledger).1 ≡ ledger
unfolding apply_ledger perform perform_as validate validate_utxo from_canonical_string parse_codes
    split_once
apply_ledger-atomic_example =
    apply_ledger-atomic toy unread spend ledger (utxo_not_found "t" 0) refl refl

run_ledger-intents_example :
    let t = run_ledger toy unread (intent_2 ∷ spend ∷ intent_2 ∷ []) ledger in
    AreDistinct t.consumed_intents × (contains_text "i1" t.consumed_intents ≡ true)
run_ledger-intents_example =
    run_ledger-intents toy unread (intent_2 ∷ spend ∷ intent_2 ∷ []) ledger "i1" (refl, tt) refl
