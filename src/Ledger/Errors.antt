-- ===== src/Ledger/Errors.antt =====
-- `LedgerError` of crates/kerosene-ledger/src/error.rs. Where a variant carries a text that the code
-- formats, the model carries a `Message`: one constructor for each format string, with its arguments.
use kerosene_node.Base.{List, Option, String, ℕ}
use kerosene_node.Base.Int.{ℤ}
use kerosene_node.Ledger.Chart.{StandardAccount}
use kerosene_node.Ledger.States.{NodeRole, OnchainState, ReservationState, WithdrawalStatus}

pub data Message : Type 0 where
  -- account_state.rs
  credit_overflow debit_underflow reserve_underflow reserve_overflow : String → Message
  release_underflow release_overflow consume_underflow : String → Message
  cannot_release cannot_consume : ℕ → ℕ → String → Message
  -- in_memory.rs
  source_not_found destination_not_found reservation_exists : String → Message
  reservation_state_mismatch : String → ReservationState → ReservationState → Message
  -- double_entry.rs
  computed_hash : String → Message
  previous_hash_mismatch : String → String → Message
  genesis_with_previous non_genesis_without_previous : Message
  -- withdrawal.rs
  withdrawal_transition : String → WithdrawalStatus → WithdrawalStatus → Message
  authorization_not_reserved : String → WithdrawalStatus → Message
  txid_already_set : String → Option String → Message
  -- nonce.rs
  nonce_consumed : String → Message
  -- wallet.rs through invariants.rs
  internal_at_max onchain_at_max zero_spendable_with_balances : Message
  -- chain.rs
  outpoint_without_colon invalid_vout : String → Message
  -- state_machine.rs
  transfer_key_malformed detect_payload_invalid detect_value_zero detect_address_empty : Message
  confirm_height_invalid reserve_utxo_without_owner reorg_payload_invalid : Message
  -- certificate.rs
  previous_root_empty resulting_root_empty certificate_command_empty : Message
  no_signatures bitmap_empty : Message
  public_key_empty signature_empty public_key_not_hex public_key_length : String → Message
  public_key_invalid signature_not_hex signature_length signature_wrong : String → Message
  unknown_signer : String → Message
  public_key_mismatch : String → String → String → Message
  snapshot_cluster_empty snapshot_root_empty snapshot_bytes_empty : Message
  membership_hash_mismatch : String → String → Message
  -- snapshot.rs
  snapshot_state_unreadable : Message
  -- membership.rs
  node_exists : String → Message
  -- persistent.rs
  sled_error serialization_error deserialization_error : Message
  latest_sequence_invalid : Message
  -- settlement.rs
  max_fee_zero min_confirmations_zero no_destination_types : Message
  max_outputs_zero max_drift_zero ttl_zero : Message
  intent_empty command_hash_empty psbt_commitment_empty policy_hash_empty nonce_empty : Message
  reservation_terminal : String → ReservationState → Message
  intent_mismatch : String → String → Message
  intent_consumed : String → Message
  certificate_epoch_mismatch : ℕ → ℕ → Message
  psbt_hash_empty : Message
  too_many_outputs epoch_drift : ℕ → ℕ → Message
  cluster_mismatch : String → String → Message

pub data LedgerError : Type 0 where
  unbalanced_entry : ℕ → ℕ → LedgerError
  empty_entry : LedgerError
  negative_balance : StandardAccount → ℤ → LedgerError
  duplicate_sequence : ℕ → LedgerError
  sequence_gap : ℕ → ℕ → LedgerError
  account_not_found : StandardAccount → LedgerError
  invalid_hash : Message → LedgerError
  invariant_violation : Message → LedgerError
  reserved_exceeds_available : ℕ → ℕ → LedgerError
  pending_outgoing_exceeds_available : ℕ → ℕ → LedgerError
  state_version_regression : ℕ → ℕ → LedgerError
  balance_overflow : StandardAccount → LedgerError
  duplicate_entry_id : String → LedgerError
  version_conflict : String → ℕ → ℕ → LedgerError
  insufficient_funds : String → ℕ → ℕ → LedgerError
  idempotency_conflict : String → LedgerError
  reservation_not_found : String → LedgerError
  reservation_already_consumed : String → LedgerError
  reservation_expired : String → LedgerError
  atomic_transfer_failed : Message → LedgerError
  unknown_command : String → LedgerError
  invalid_state_transition : Message → LedgerError
  snapshot_not_found : ℕ → LedgerError
  invalid_signature : Message → LedgerError
  state_root_mismatch : String → String → LedgerError
  sync_not_healthy : String → LedgerError
  not_a_voter : String → NodeRole → LedgerError
  cannot_vote : List String → LedgerError
  node_not_found : String → LedgerError
  invalid_role_transition : NodeRole → NodeRole → LedgerError
  utxo_not_found : String → ℕ → LedgerError
  invalid_utxo_transition : OnchainState → OnchainState → LedgerError
  utxo_already_reserved : String → LedgerError
  utxo_not_reserved : LedgerError
  invalid_utxo_data : Message → LedgerError
  authorization_expired : ℕ → ℕ → LedgerError
  authorization_invalid : Message → LedgerError
  psbt_mismatch : String → String → LedgerError
  policy_violation : Message → LedgerError
  withdrawal_not_found : String → LedgerError
  gate_blocked : String → LedgerError
