-- ===== src/Ledger/Certificates.antt =====
-- Quorum certificates: crates/kerosene-ledger/src/certificate.rs. The crates sha2, hex and
-- ed25519-dalek are the parameter `Crypto`.
pub mod Signers
use kerosene_node.Base.{
  Bool, List, Option, String, [], is_empty, length, nat_eq, text_eq, ℕ, ◌++◌, ◌==◌, ◌∷◌,
}
use kerosene_node.Base.Results.{Result, ok, ok_or, reject_if, require, ◌>>=◌, ◌>>◌}
use kerosene_node.Base.Table.{Table, lookup}
use kerosene_node.Base.Text.{as_bytes, is_empty_text, to_le_bytes}
use kerosene_node.Ledger.Errors.{
  LedgerError, Message, bitmap_empty, certificate_command_empty, invalid_signature, no_signatures,
  previous_root_empty, public_key_empty, public_key_invalid, public_key_length, public_key_mismatch,
  public_key_not_hex, resulting_root_empty, signature_empty, signature_length, signature_not_hex,
  signature_wrong, unknown_signer,
}
use kerosene_node.Ledger.States.{}

pub record Crypto : Type 0 where
  -- `Sha256::digest`, `hex::encode` and `hex::decode`
  pub sha256 : List ℕ → List ℕ
  pub hex_encode : List ℕ → String
  pub hex_decode : String → Option (List ℕ)
  -- `VerifyingKey::from_bytes` on 32 bytes succeeds
  pub is_key : List ℕ → Bool
  -- `Verifier::verify` of the key, the message and the signature succeeds
  pub verifies : List ℕ → List ℕ → List ℕ → Bool

pub record NodeSignature : Type 0 where
  pub node_id : String
  pub signature_hex : String
  pub public_key_hex : String

pub record QuorumCertificate : Type 0 where
  pub cluster_id : String
  pub epoch : ℕ
  pub view : ℕ
  pub sequence : ℕ
  pub command_hash : String
  pub previous_state_root : String
  pub resulting_state_root : String
  pub signer_bitmap : List ℕ
  pub signatures : List NodeSignature

-- `QuorumCertificate::single_node`
pub single_node :
    String → ℕ → ℕ → ℕ → String → String → String → String → String → String → QuorumCertificate
single_node cluster epoch view sequence command previous resulting node signature key = record {
  cluster_id = cluster;
  epoch = epoch;
  view = view;
  sequence = sequence;
  command_hash = command;
  previous_state_root = previous;
  resulting_state_root = resulting;
  signer_bitmap = 1 ∷ [];
  signatures = record { node_id = node; signature_hex = signature; public_key_hex = key } ∷ [];
}

unfoldable pub signer_count : QuorumCertificate → ℕ
signer_count c = length c.signatures

abbrev invalid : Message → LedgerError
invalid = invalid_signature

module _ (crypto : Crypto) where
  open crypto use {sha256, hex_decode, is_key, verifies}

  unfoldable pub signing_message : QuorumCertificate → List ℕ
  signing_message c = sha256 (
      as_bytes "KEROSENE_QC_v1"
      ++ (as_bytes ":"
          ++ (as_bytes c.cluster_id
              ++ (as_bytes ":"
                  ++ (to_le_bytes 8 c.epoch
                      ++ (to_le_bytes 8 c.view
                          ++ (to_le_bytes 8 c.sequence
                              ++ (as_bytes c.command_hash
                                  ++ (as_bytes c.previous_state_root
                                      ++ as_bytes c.resulting_state_root)))))))))

  -- The cryptographic half of the loops of `verify_basic` and `verify_crypto`, for the key `key_hex`.
  unfoldable pub check_signature : List ℕ → String → NodeSignature → Result LedgerError (Unit {0})
  check_signature message key_hex s = do
    key ← ok_or (hex_decode key_hex) (invalid (public_key_not_hex s.node_id))
    require (length key == 32) (invalid (public_key_length s.node_id))
    require (is_key key) (invalid (public_key_invalid s.node_id))
    signature ← ok_or (hex_decode s.signature_hex) (invalid (signature_not_hex s.node_id))
    require (length signature == 64) (invalid (signature_length s.node_id))
    require (verifies key message signature) (invalid (signature_wrong s.node_id))

  -- One round of the loop of `verify_basic`.
  unfoldable pub check_basic : List ℕ → NodeSignature → Result LedgerError (Unit {0})
  check_basic message s = do
    reject_if (is_empty_text s.public_key_hex) (invalid (public_key_empty s.node_id))
    reject_if (is_empty_text s.signature_hex) (invalid (signature_empty s.node_id))
    check_signature message s.public_key_hex s

  -- One round of the loop of `verify_crypto`.
  unfoldable pub check_registered :
      List ℕ → Table String String → NodeSignature → Result LedgerError (Unit {0})
  check_registered message public_keys s = do
    key_hex ← ok_or (lookup s.node_id public_keys) (invalid (unknown_signer s.node_id))
    require (key_hex == s.public_key_hex)
        (invalid (public_key_mismatch s.node_id key_hex s.public_key_hex))
    check_signature message key_hex s

  -- `for sig in &self.signatures { .. }`
  unfoldable pub for_each :
      (NodeSignature → Result LedgerError (Unit {0}))
      → List NodeSignature
      → Result LedgerError (Unit {0})
  for_each f [] = ok tt
  for_each f (s ∷ ss) = f s >> for_each f ss

  unfoldable pub verify_basic : QuorumCertificate → Result LedgerError (Unit {0})
  verify_basic c = do
    reject_if (is_empty_text c.previous_state_root) (invalid previous_root_empty)
    reject_if (is_empty_text c.resulting_state_root) (invalid resulting_root_empty)
    reject_if (is_empty_text c.command_hash) (invalid certificate_command_empty)
    reject_if (is_empty c.signatures) (invalid no_signatures)
    reject_if (is_empty c.signer_bitmap) (invalid bitmap_empty)
    for_each (check_basic (signing_message c)) c.signatures

  unfoldable pub verify_crypto :
      QuorumCertificate → Table String String → Result LedgerError (Unit {0})
  verify_crypto c public_keys = do
    verify_basic c
    for_each (check_registered (signing_message c) public_keys) c.signatures
