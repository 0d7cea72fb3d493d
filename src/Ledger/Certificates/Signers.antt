-- ===== src/Ledger/Certificates/Signers.antt =====
-- What a certificate that `verify_crypto` of certificate.rs accepts proves about its signers.
use kerosene_node.Base.{
  List, Option-cases, String, inl, inr, some, text_eq, true, ℕ, ◌≡◌, All, [], ap, arith, false,
  is_empty, length, refl, suc, text_iff, zero, ◌∙◌, ◌∷◌,
}
use kerosene_node.Base.Results.{ok, Result}
use kerosene_node.Base.Table.{Table, lookup}
use kerosene_node.Ledger.Certificates.{
  Crypto, NodeSignature, check_registered, check_signature, QuorumCertificate, for_each,
  signer_count, signing_message, verify_basic, verify_crypto, check_basic,
}
use kerosene_node.Ledger.Errors.{LedgerError}
use kerosene_node.Ledger.States.{}

-- `n` copies of one signature.
abbrev pub repeat : NodeSignature → ℕ → List NodeSignature
repeat s zero = []
repeat s (suc n) = s ∷ repeat s n

length-repeat : (s : NodeSignature) (n : ℕ) → length (repeat s n) ≡ n
length-repeat s zero = refl
length-repeat s (suc n) = ap suc (length-repeat s n)

module _ (crypto : Crypto) where
  open crypto use {hex_decode, is_key, verifies}

  -- The text decodes to a valid key, under which the signature verifies over the message.
  pub record IsSigned (message : List ℕ) (key_hex : String) (s : NodeSignature) : Type 0 where
    pub key : List ℕ
    pub signature : List ℕ
    pub key_decoded : hex_decode key_hex ≡ some key
    pub signature_decoded : hex_decode s.signature_hex ≡ some signature
    pub key_valid : is_key key ≡ true
    pub verified : verifies key message signature ≡ true

  check_signature-ok :
      (message : List ℕ) (key_hex : String) (s : NodeSignature)
      → check_signature crypto message key_hex s ≡ ok tt
      → IsSigned message key_hex s
  unfolding check_signature
  check_signature-ok message key_hex s h = elim (Option-cases (hex_decode key_hex)) [
    | inl bad ↦ ground arith
    | inr (k, dk) ↦ elim (Option-cases (hex_decode s.signature_hex)) [
      | inl bad ↦ ground arith
      | inr (g, dg) ↦ record {
        key = k;
        signature = g;
        key_decoded = dk;
        signature_decoded = dg;
        key_valid = ground arith;
        verified = ground arith;
      }
    ]
  ]

  -- The registry has for the node the key that the certificate embeds, and it signed the message.
  abbrev pub IsSignedBy : List ℕ → Table String String → NodeSignature → Type 0
  IsSignedBy message keys s =
      (lookup s.node_id keys ≡ some s.public_key_hex) × IsSigned message s.public_key_hex s

  check_registered-ok :
      (message : List ℕ) (keys : Table String String) (s : NodeSignature)
      → check_registered crypto message keys s ≡ ok tt
      → IsSignedBy message keys s
  unfolding check_registered
  check_registered-ok message keys s h = elim (Option-cases (lookup s.node_id keys)) [
    | inl unknown ↦ ground arith
    | inr (k, e) ↦
        let same : k ≡ s.public_key_hex = ground (arith, text_iff k s.public_key_hex) in
        (
          e ∙ ap some same,
          check_signature-ok message s.public_key_hex s
              (ground (arith, text_iff k s.public_key_hex)),
        )
  ]

  for_each-ok :
      (message : List ℕ) (keys : Table String String) (ss : List NodeSignature)
      → for_each crypto (check_registered crypto message keys) ss ≡ ok tt
      → All (IsSignedBy message keys) ss
  unfolding for_each
  for_each-ok message keys [] h = tt
  for_each-ok message keys (s ∷ ss) h = (
    check_registered-ok message keys s (ground arith),
    for_each-ok message keys ss (ground arith),
  )

  -- A certificate that `verify_crypto` accepts has at least one signature, and every one of them is
  -- its node's: the registry has the embedded key for that node, and under that key the signature
  -- verifies over the certificate's message.
  pub verify_crypto-IsSignedBy :
      (c : QuorumCertificate) (keys : Table String String)
      → verify_crypto crypto c keys ≡ ok tt
      → All (IsSignedBy (signing_message crypto c) keys) c.signatures
        × (is_empty c.signatures ≡ false)
  unfolding verify_crypto verify_basic
  verify_crypto-IsSignedBy c keys h =
      (for_each-ok (signing_message crypto c) keys c.signatures (ground arith), ground arith)

  for_each-repeat :
      (f : NodeSignature → Result LedgerError (Unit {0})) (s : NodeSignature) (n : ℕ)
      → f s ≡ ok tt
      → for_each crypto f (repeat s n) ≡ ok tt
  unfolding for_each
  for_each-repeat f s zero h = refl
  for_each-repeat f s (suc n) h = ground (arith, for_each-repeat f s n h)

  -- A certificate with one accepted signature is accepted with that signature repeated, and
  -- `signer_count` then counts each copy: it is not the number of distinct signers.
  verify_crypto_repeats :
      (c : QuorumCertificate) (keys : Table String String) (s : NodeSignature) (n : ℕ)
      → c.signatures ≡ s ∷ []
      → verify_crypto crypto c keys ≡ ok tt
      → let c' = record c { signatures = repeat s (suc n) } in
        (verify_crypto crypto c' keys ≡ ok tt) × (signer_count c' ≡ suc n)
  unfolding verify_crypto verify_basic signing_message signer_count for_each
  verify_crypto_repeats c keys s n one h = (
    ground (
      arith,
      for_each-repeat (check_basic crypto (signing_message crypto c)) s n,
      for_each-repeat (check_registered crypto (signing_message crypto c) keys) s n,
    ),
    omega (arith, length-repeat s n),
  )
