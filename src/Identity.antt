-- ===== src/Identity.antt =====
-- The crate kerosene-identity-core: crates/kerosene-identity-core/src/lib.rs. ed25519-dalek's signing
-- side and the bytes that a hello signs are the parameter `Keys`.
pub mod Signing
pub mod Tests
use kerosene_node.Base.{
  List, Option, String, if◌then◌else◌, length, nat_eq, none, some, text_eq, ℕ, ◌==◌,
}
use kerosene_node.Base.Results.{Result, ok_or, require, ◌>>=◌, ◌>>◌}
use kerosene_node.Ledger.Certificates.{Crypto}
use kerosene_node.Ledger.Chain.{outpoint_eq}
use kerosene_node.Ledger.Chart.{account_eq}
use kerosene_node.Ledger.States.{onchain_eq, reservation_state_eq, role_eq, withdrawal_status_eq}
use kerosene_node.Membership.Contracts.{Contracts, DiscoveryPlane}

-- `PeerHelloV1`, with the fields that `sign_hello` fills
pub record PeerHello : Type 0 where
  pub contract_version : String
  pub network_id : String
  pub plane : DiscoveryPlane
  pub member_id : String
  pub root_public_key : String
  pub challenge : String
  pub issued_at_epoch_ms : ℕ
  pub endpoint : String
  pub signature : String

pub data IdentityError : Type 0 where
  identity_io_failed invalid_secret invalid_public_key bad_signature : IdentityError
  identity_mismatch : IdentityError

pub record Keys : Type 0 where
  -- `signing_key.verifying_key().as_bytes()` and `signing_key.sign(..).to_bytes()`
  pub public_key : List ℕ → List ℕ
  pub sign : List ℕ → List ℕ → List ℕ
  -- `hello.signing_bytes()`
  pub hello_bytes : PeerHello → List ℕ

pub record NodeIdentity : Type 0 where
  pub network_id : String
  pub plane : DiscoveryPlane
  pub signing_key : List ℕ
  pub member_id : String

module _ (crypto : Crypto) (contracts : Contracts) (keys : Keys) where
  open crypto use {hex_encode, hex_decode, is_key, verifies}
  open contracts use {member_id_for, discovery_contract_version}
  open keys use {public_key, sign, hello_bytes}

  unfoldable pub from_signing_key : String → DiscoveryPlane → List ℕ → NodeIdentity
  from_signing_key network plane key = record {
    network_id = network;
    plane = plane;
    signing_key = key;
    member_id = member_id_for network (public_key key);
  }

  unfoldable pub root_public_key_hex : NodeIdentity → String
  root_public_key_hex i = hex_encode (public_key i.signing_key)

  -- The hello of `sign_hello` before its signature is filled in.
  abbrev pub unsigned_hello : NodeIdentity → String → String → ℕ → PeerHello
  unsigned_hello i challenge endpoint now = record {
    contract_version = discovery_contract_version;
    network_id = i.network_id;
    plane = i.plane;
    member_id = i.member_id;
    root_public_key = root_public_key_hex i;
    challenge = challenge;
    issued_at_epoch_ms = now;
    endpoint = endpoint;
    signature = "";
  }

  unfoldable pub sign_hello : NodeIdentity → String → String → ℕ → PeerHello
  unfolding root_public_key_hex
  sign_hello i challenge endpoint now =
      let hello = unsigned_hello i challenge endpoint now in
      record hello { signature = hex_encode (sign i.signing_key (hello_bytes hello)) }

  -- `decode_array::<N>` of the crate
  abbrev pub decode_bytes : ℕ → String → Option (List ℕ)
  decode_bytes n text = elim (hex_decode text) [
    | none ↦ none
    | some bytes ↦ if length bytes == n then some bytes else none
  ]

  unfoldable pub verify_hello_signature : PeerHello → Result IdentityError (Unit {0})
  verify_hello_signature h = do
    key ← ok_or (decode_bytes 32 h.root_public_key) invalid_public_key
    require (is_key key) invalid_public_key
    require (member_id_for h.network_id key == h.member_id) identity_mismatch
    signature ← ok_or (decode_bytes 64 h.signature) bad_signature
    require (verifies key (hello_bytes h) signature) bad_signature
