-- ===== src/Ledger/Tests/Signing.antt =====
-- Runs of certificate.rs, state_root.rs and settlement.rs, under a toy hash and a toy signature
-- scheme: the hash of bytes is their count, hex is one character for a byte, and every signature
-- verifies.
use mathlib.Core.List.Perm
use kerosene_node.Base.{
  All, List, String, [], false, if◌then◌else◌, is_empty, length, refl, some, suc, text_eq, true,
  zero, ℕ, ◌==◌, ◌∷◌, ◌≡◌, none, nat_eq,
}
use kerosene_node.Base.Results.{ok, is_ok}
use kerosene_node.Base.Table.{Table}
use kerosene_node.Ledger.Authorization.{
  SettlementAuthorization, SettlementPolicy, compute_psbt_hash, verify_authorization,
}
use kerosene_node.Ledger.Certificates.{
  Crypto, NodeSignature, QuorumCertificate, check_basic, check_registered, check_signature,
  for_each, signing_message, verify_basic, verify_crypto,
}
use kerosene_node.Ledger.Certificates.Signers.{IsSignedBy, verify_crypto-IsSignedBy}
use kerosene_node.Ledger.Chain.{outpoint_eq}
use kerosene_node.Ledger.Chart.{account_eq}
use kerosene_node.Ledger.Machine.Intents.{run_ledger}
use kerosene_node.Ledger.Machine.Validation.{Payloads}
use kerosene_node.Ledger.Nonces.{mark_consumed_sync}
use kerosene_node.Ledger.Reservations.{Reservation}
use kerosene_node.Ledger.Roots.{compute_state_root}
use kerosene_node.Ledger.Roots.Order.{compute_state_root-SameItems}
use kerosene_node.Ledger.Settlement.{
  PsbtFacts, validate_epoch, validate_quorum_certificate, validate_settlement, verify_vault,
}
use kerosene_node.Ledger.Settlement.Once.{IsBound, validate_settlement_once, verify_vault-IsBound}
use kerosene_node.Ledger.State.{
  ConsensusProfile, LedgerState, MembershipView, LedgerCommand, expire_intent,
}
use kerosene_node.Ledger.States.{
  prepared, onchain_eq, reservation_state_eq, role_eq, withdrawal_status_eq,
}

abbrev zeros : ℕ → List ℕ
zeros zero = []
zeros (suc n) = 0 ∷ zeros n

abbrev toy : Crypto
toy = record {
  sha256 = λ bs. length bs ∷ [];
  hex_encode = λ bs. "ff";
  hex_decode = λ s. some (if s == "key" then zeros 32 else zeros 64);
  is_key = λ bs. true;
  verifies = λ key message signature. true;
}

abbrev signature : NodeSignature
signature = record { node_id = "n1"; signature_hex = "sig"; public_key_hex = "key" }

abbrev certificate : QuorumCertificate
certificate = record {
  cluster_id = "c";
  epoch = 1;
  view = 0;
  sequence = 4;
  command_hash = "cmd";
  previous_state_root = "r0";
  resulting_state_root = "r1";
  signer_bitmap = 1 ∷ [];
  signatures = signature ∷ [];
}

abbrev registry : Table String String
registry = ("n1", "key") ∷ []

accepted : verify_crypto toy certificate registry ≡ ok tt
unfolding verify_crypto verify_basic for_each check_basic check_registered check_signature
accepted = refl

verify_crypto-IsSignedBy_example :
    All (IsSignedBy toy (signing_message toy certificate) registry) certificate.signatures
    × (is_empty certificate.signatures ≡ false)
verify_crypto-IsSignedBy_example = verify_crypto-IsSignedBy toy certificate registry accepted

abbrev membership : MembershipView
membership = record {
  cluster_id = "c";
  nodes = "n1" ∷ [];
  active_profile = ConsensusProfile.single;
}

abbrev hold : Reservation
hold = record {
  reservation_id = "1";
  account_id = "alice";
  amount_sats = 30;
  state = prepared;
  created_at_bucket = 1;
  expires_at_bucket = 10;
  committed_sequence = 0;
  authorization_commitment = "intent";
}

abbrev ledger : LedgerState
ledger = record {
  version = 2;
  accounts = [];
  journal = [];
  reservations = hold ∷ [];
  consumed_intents = "i1" ∷ "i2" ∷ [];
  membership = membership;
  utxos = [];
}

compute_state_root-SameItems_example :
    compute_state_root toy (record ledger { consumed_intents = "i2" ∷ "i1" ∷ [] })
    ≡ compute_state_root toy ledger
compute_state_root-SameItems_example =
    compute_state_root-SameItems toy ledger (record ledger { consumed_intents = "i2" ∷ "i1" ∷ [] })
      (record {
        version = refl;
        accounts = Perm.refl [];
        journal = Perm.refl [];
        reservations = Perm.refl (hold ∷ []);
        consumed_intents = Perm.swap "i1" "i2" [];
        membership = refl;
        utxos = Perm.refl [];
      })

abbrev authorization : SettlementAuthorization
authorization = record {
  intent_commitment = "i2";
  command_hash = "cmd";
  psbt_commitment = "ff";
  policy_hash = "p";
  epoch = 1;
  expires_at_bucket = 10;
  nonce = "n";
  quorum_certificate = certificate;
}

abbrev policy : SettlementPolicy
policy = record {
  max_fee_sats = 10;
  min_confirmations = 1;
  allowed_destination_types = "p2wpkh" ∷ [];
  max_outputs = 2;
  rbf_allowed = false;
  max_epoch_drift = 1;
  authorization_ttl_buckets = 5;
}

abbrev psbt : PsbtFacts
psbt = record {
  psbt_bytes = 1 ∷ [];
  psbt_input_count = 1;
  psbt_output_count = 2;
  total_output_sats = 9;
}

abbrev unread : Payloads
unread = record { read_detect = λ s. none; read_reorg = λ s. none }

-- Before its intent is consumed, the authorization is valid.
settles :
    is_ok (validate_settlement toy authorization (record ledger { consumed_intents = [] }) policy 9)
    ≡ true
unfolding validate_settlement validate_quorum_certificate validate_epoch verify_authorization
    verify_basic for_each check_basic check_signature
settles = refl

abbrev expiry : LedgerCommand
expiry = record {
  command_id = "c9";
  command_type = expire_intent;
  partition_key = "i3";
  expected_version = none;
  payload_hash = "";
  authorization_commitment = "";
  epoch = 1;
  created_at_bucket = 2;
}

validate_settlement_once_example :
    is_ok
      (validate_settlement toy authorization (run_ledger toy unread (expiry ∷ []) ledger) policy 9)
    ≡ false
validate_settlement_once_example =
    validate_settlement_once toy unread (expiry ∷ []) authorization ledger policy 9
      (refl, (refl, tt)) refl

-- Another intent under the same nonce.
abbrev other_authorization : SettlementAuthorization
other_authorization = record authorization { intent_commitment = "other" }

vault_accepts : verify_vault toy authorization psbt policy [] 9 ≡ ok tt
unfolding verify_vault compute_psbt_hash verify_authorization verify_basic for_each check_basic
    check_signature
vault_accepts = refl

verify_vault-IsBound_example :
    IsBound toy authorization psbt policy [] 9
    × (is_ok (verify_vault toy other_authorization psbt policy (mark_consumed_sync "n" []) 9)
        ≡ false)
verify_vault-IsBound_example =
    verify_vault-IsBound toy authorization other_authorization psbt psbt policy policy [] 9 9
      vault_accepts refl
