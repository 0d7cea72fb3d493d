-- ===== src/Ledger/Authorization.antt =====
-- Settlement authorizations and policies: the data and the checks of
-- crates/kerosene-ledger/src/settlement.rs that need no ledger state.
use kerosene_node.Base.{Bool, List, String, is_empty, leb, nat_eq, text_eq, ℕ, ◌==◌}
use kerosene_node.Base.Results.{Result, reject_if, require, ◌>>◌}
use kerosene_node.Base.Text.{is_empty_text}
use kerosene_node.Ledger.Certificates.{Crypto, QuorumCertificate, verify_basic}
use kerosene_node.Ledger.Errors.{
  LedgerError, authorization_invalid, command_hash_empty, intent_empty, intent_mismatch,
  max_drift_zero, max_fee_zero, max_outputs_zero, min_confirmations_zero, no_destination_types,
  nonce_empty, policy_hash_empty, policy_violation, psbt_commitment_empty, reservation_terminal,
  ttl_zero,
}
use kerosene_node.Ledger.Reservations.{Reservation, is_terminal}
use kerosene_node.Ledger.States.{}

pub record PsbtCommitment : Type 0 where
  pub psbt_hash : String
  pub input_count : ℕ
  pub output_count : ℕ
  pub total_output_sats : ℕ

pub record SettlementPolicy : Type 0 where
  pub max_fee_sats : ℕ
  pub min_confirmations : ℕ
  pub allowed_destination_types : List String
  pub max_outputs : ℕ
  pub rbf_allowed : Bool
  pub max_epoch_drift : ℕ
  pub authorization_ttl_buckets : ℕ

pub record SettlementAuthorization : Type 0 where
  pub intent_commitment : String
  pub command_hash : String
  pub psbt_commitment : String
  pub policy_hash : String
  pub epoch : ℕ
  pub expires_at_bucket : ℕ
  pub nonce : String
  pub quorum_certificate : QuorumCertificate

-- `SettlementPolicy::validate`
pub validate_policy : SettlementPolicy → Result LedgerError (Unit {0})
validate_policy p = do
  reject_if (p.max_fee_sats == 0) (policy_violation max_fee_zero)
  reject_if (p.min_confirmations == 0) (policy_violation min_confirmations_zero)
  reject_if (is_empty p.allowed_destination_types) (policy_violation no_destination_types)
  reject_if (p.max_outputs == 0) (policy_violation max_outputs_zero)
  reject_if (p.max_epoch_drift == 0) (policy_violation max_drift_zero)
  reject_if (p.authorization_ttl_buckets == 0) (policy_violation ttl_zero)

-- `PsbtCommitment::compute`
unfoldable pub compute_psbt_hash : Crypto → List ℕ → String
compute_psbt_hash crypto psbt = crypto.hex_encode (crypto.sha256 psbt)

-- `PsbtCommitment::new`
pub new_psbt_commitment : Crypto → List ℕ → ℕ → ℕ → ℕ → PsbtCommitment
new_psbt_commitment crypto psbt inputs outputs total = record {
  psbt_hash = compute_psbt_hash crypto psbt;
  input_count = inputs;
  output_count = outputs;
  total_output_sats = total;
}

-- `SettlementAuthorization::verify_basic`
unfoldable pub verify_authorization :
    Crypto → SettlementAuthorization → Result LedgerError (Unit {0})
verify_authorization crypto a = do
  reject_if (is_empty_text a.intent_commitment) (authorization_invalid intent_empty)
  reject_if (is_empty_text a.command_hash) (authorization_invalid command_hash_empty)
  reject_if (is_empty_text a.psbt_commitment) (authorization_invalid psbt_commitment_empty)
  reject_if (is_empty_text a.policy_hash) (authorization_invalid policy_hash_empty)
  reject_if (is_empty_text a.nonce) (authorization_invalid nonce_empty)
  verify_basic crypto a.quorum_certificate

pub verify_against_reservation :
    SettlementAuthorization → Reservation → Result LedgerError (Unit {0})
verify_against_reservation a r = do
  reject_if (is_terminal r) (authorization_invalid (reservation_terminal r.reservation_id r.state))
  require (a.intent_commitment == r.authorization_commitment)
      (authorization_invalid (intent_mismatch r.authorization_commitment a.intent_commitment))

-- `SettlementAuthorization::is_expired`
abbrev pub has_expired : SettlementAuthorization → ℕ → Bool
has_expired a current_bucket = leb a.expires_at_bucket current_bucket
