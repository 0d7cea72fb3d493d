-- ===== src/Identity/Tests.antt =====
-- A run of crates/kerosene-identity-core/src/lib.rs with a toy signature scheme: every key is 32 zeros,
-- and every signature 64.
use kerosene_node.Base.{[], nat_eq, refl, text_eq, ◌++◌, ◌∷◌, ◌≡◌}
use kerosene_node.Base.Results.{ok}
use kerosene_node.Base.Text.{as_bytes}
use kerosene_node.Identity.{
  Keys, NodeIdentity, from_signing_key, sign_hello, verify_hello_signature,
}
use kerosene_node.Identity.Signing.{IsSound, verify_hello_signature-sign_hello}
use kerosene_node.Ledger.Chain.{outpoint_eq}
use kerosene_node.Ledger.Chart.{account_eq}
use kerosene_node.Ledger.States.{onchain_eq, reservation_state_eq, role_eq, withdrawal_status_eq}
use kerosene_node.Membership.Contracts.{bank}
use kerosene_node.Membership.Tests.{bytes_32, toy_contracts, toy_hex}

abbrev pub toy_keys : Keys
toy_keys = record {
  public_key = λ k. bytes_32;
  sign = λ k m. bytes_32 ++ bytes_32;
  hello_bytes = λ h. as_bytes h.challenge;
}

toy-IsSound : IsSound toy_hex toy_keys
toy-IsSound = record {
  hex-public_key = λ k. refl;
  hex-sign = λ k m. refl;
  length-public_key = λ k. refl;
  length-sign = λ k m. refl;
  public_key-is_key = λ k. refl;
  verifies-sign = λ k m. refl;
  hello_bytes-signature = λ h s. refl;
}

abbrev pub toy_identity : NodeIdentity
toy_identity = record { network_id = "net"; plane = bank; signing_key = 7 ∷ []; member_id = "n1" }

verify_hello_signature-sign_hello_example :
    verify_hello_signature toy_hex toy_contracts toy_keys (
      sign_hello toy_hex toy_contracts toy_keys
        (from_signing_key toy_hex toy_contracts toy_keys "net" bank (7 ∷ []))
        "c"
        "e"
        42)
    ≡ ok tt
verify_hello_signature-sign_hello_example =
    verify_hello_signature-sign_hello toy_hex toy_contracts toy_keys toy-IsSound "net" bank (7 ∷ [])
      "c" "e" 42
