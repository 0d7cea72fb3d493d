-- ===== src/Ledger/Settlement.antt =====
-- The validators of crates/kerosene-ledger/src/settlement.rs: of the ledger, and of a vault.
pub mod Once
use kerosene_node.Base.{
  List, String, if◌then◌else◌, leb, ltb, nat_eq, not, text_eq, ℕ, ◌&&◌, ◌-◌, ◌==◌,
}
use kerosene_node.Base.Results.{◌>>=◌, ◌>>◌, Result, err, ok, reject_if, require}
use kerosene_node.Base.Text.{is_empty_text}
use kerosene_node.Ledger.Authorization.{
  PsbtCommitment, SettlementAuthorization, SettlementPolicy, compute_psbt_hash, has_expired,
  verify_authorization,
}
use kerosene_node.Ledger.Certificates.{Crypto, QuorumCertificate, verify_basic}
use kerosene_node.Ledger.Errors.{
  LedgerError, authorization_expired, authorization_invalid, certificate_epoch_mismatch,
  cluster_mismatch, epoch_drift, intent_consumed, invalid_state_transition, policy_violation,
  psbt_commitment_empty, psbt_hash_empty, too_many_outputs,
}
use kerosene_node.Ledger.Nonces.{NonceSet, contains_text}
use kerosene_node.Ledger.State.{LedgerState}
use kerosene_node.Ledger.States.{}

abbrev drift_of : ℕ → ℕ → ℕ
drift_of a b = if leb b a then a - b else b - a

-- `SettlementValidator::validate_epoch`
unfoldable pub validate_epoch : ℕ → ℕ → ℕ → Result LedgerError (Unit {0})
validate_epoch auth_epoch current_epoch max_drift =
    if ltb max_drift (drift_of auth_epoch current_epoch)
    then err (invalid_state_transition (epoch_drift (drift_of auth_epoch current_epoch) max_drift))
    else ok tt

-- `SettlementValidator::validate_psbt_against_policy`
unfoldable pub validate_psbt_against_policy :
    PsbtCommitment → SettlementPolicy → Result LedgerError (Unit {0})
validate_psbt_against_policy p policy = do
  reject_if (is_empty_text p.psbt_hash) (authorization_invalid psbt_hash_empty)
  reject_if (ltb policy.max_outputs p.output_count)
      (policy_violation (too_many_outputs p.output_count policy.max_outputs))

pub data VaultMessage : Type 0 where
  structural : LedgerError → VaultMessage
  too_many_psbt_outputs : ℕ → ℕ → VaultMessage
  no_psbt_input no_psbt_output no_total_output no_cluster : VaultMessage

pub data VaultVerificationError : Type 0 where
  invalid_certificate : VaultMessage → VaultVerificationError
  intent_already_consumed : String → VaultVerificationError
  epoch_expired : ℕ → ℕ → VaultVerificationError
  vault_psbt_mismatch : String → String → VaultVerificationError
  fee_exceeds_policy : ℕ → ℕ → VaultVerificationError
  vault_authorization_expired : ℕ → ℕ → VaultVerificationError
  nonce_reused : String → VaultVerificationError
  destination_not_allowed : String → VaultVerificationError

abbrev structurally : Result LedgerError (Unit {0}) → Result VaultVerificationError (Unit {0})
structurally (ok _) = ok tt
structurally (err e) = err (invalid_certificate (structural e))

-- What the vault knows of the PSBT that it is asked to sign.
pub record PsbtFacts : Type 0 where
  pub psbt_bytes : List ℕ
  pub psbt_input_count : ℕ
  pub psbt_output_count : ℕ
  pub total_output_sats : ℕ

module _ (crypto : Crypto) where
  -- `SettlementValidator::validate_quorum_certificate`
  unfoldable pub validate_quorum_certificate :
      QuorumCertificate → String → Result LedgerError (Unit {0})
  validate_quorum_certificate c cluster = do
    require (c.cluster_id == cluster)
        (authorization_invalid (cluster_mismatch c.cluster_id cluster))
    verify_basic crypto c

  -- `SettlementValidator::validate_settlement`. The ledger's version stands for the epoch.
  unfoldable pub validate_settlement :
      SettlementAuthorization → LedgerState → SettlementPolicy → ℕ → Result LedgerError (Unit {0})
  unfolding validate_quorum_certificate validate_epoch
  validate_settlement a s policy now = do
    verify_authorization crypto a
    reject_if (contains_text a.intent_commitment s.consumed_intents)
        (authorization_invalid (intent_consumed a.intent_commitment))
    validate_epoch a.epoch s.version policy.max_epoch_drift
    reject_if (has_expired a now) (authorization_expired a.expires_at_bucket now)
    validate_quorum_certificate a.quorum_certificate s.membership.cluster_id
    reject_if (is_empty_text a.psbt_commitment) (authorization_invalid psbt_commitment_empty)
    require (a.quorum_certificate.epoch == a.epoch)
        (authorization_invalid (certificate_epoch_mismatch a.quorum_certificate.epoch a.epoch))

  -- `VaultAuthorizationVerifier::verify`, with an in-memory nonce checker. The last check of the
  -- source, of the cluster, can never fail: its outer test asks for a cluster that is not empty.
  unfoldable pub verify_vault :
      SettlementAuthorization
      → PsbtFacts
      → SettlementPolicy
      → NonceSet
      → ℕ
      → Result VaultVerificationError (Unit {0})
  verify_vault a psbt policy nonces now = do
    structurally (verify_authorization crypto a)
    reject_if (contains_text a.nonce nonces) (nonce_reused a.nonce)
    reject_if (has_expired a now) (vault_authorization_expired a.expires_at_bucket now)
    require (compute_psbt_hash crypto psbt.psbt_bytes == a.psbt_commitment)
        (vault_psbt_mismatch a.psbt_commitment (compute_psbt_hash crypto psbt.psbt_bytes))
    reject_if (ltb policy.max_epoch_drift (drift_of a.quorum_certificate.epoch a.epoch))
        (epoch_expired a.epoch policy.max_epoch_drift)
    reject_if (ltb policy.max_outputs psbt.psbt_output_count)
        (invalid_certificate (too_many_psbt_outputs psbt.psbt_output_count policy.max_outputs))
    reject_if (psbt.psbt_input_count == 0) (invalid_certificate no_psbt_input)
    reject_if (psbt.psbt_output_count == 0) (invalid_certificate no_psbt_output)
    reject_if (psbt.total_output_sats == 0) (invalid_certificate no_total_output)
    reject_if
        (not (a.quorum_certificate.cluster_id == a.intent_commitment)
          && not (is_empty_text a.quorum_certificate.cluster_id)
          && is_empty_text a.quorum_certificate.cluster_id)
        (invalid_certificate no_cluster)
