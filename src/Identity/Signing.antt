-- ===== src/Identity/Signing.antt =====
-- `sign_hello` and `verify_hello_signature` of crates/kerosene-identity-core/src/lib.rs.
use kerosene_node.Base.{List, String, arith, length, nat_eq, some, text_eq, text_refl, true, ℕ, ◌≡◌}
use kerosene_node.Base.Results.{ok}
use kerosene_node.Identity.{
  Keys, PeerHello, from_signing_key, root_public_key_hex, sign_hello, unsigned_hello,
  verify_hello_signature,
}
use kerosene_node.Ledger.Certificates.{Crypto}
use kerosene_node.Ledger.Chain.{outpoint_eq}
use kerosene_node.Ledger.Chart.{account_eq}
use kerosene_node.Ledger.States.{onchain_eq, reservation_state_eq, role_eq, withdrawal_status_eq}
use kerosene_node.Membership.Contracts.{Contracts, DiscoveryPlane}

-- What hex, ed25519-dalek and `CanonicalSignable` promise: keys and signatures read back from hex, a
-- key pair verifies what it signs, keys and signatures have their lengths, and a hello's bytes leave
-- its signature out.
pub record IsSound (crypto : Crypto) (keys : Keys) : Type 0 where
  pub hex-public_key :
      (k : List ℕ)
      → crypto.hex_decode (crypto.hex_encode (keys.public_key k)) ≡ some (keys.public_key k)
  pub hex-sign :
      (k m : List ℕ) → crypto.hex_decode (crypto.hex_encode (keys.sign k m)) ≡ some (keys.sign k m)
  pub length-public_key : (k : List ℕ) → length (keys.public_key k) ≡ 32
  pub length-sign : (k m : List ℕ) → length (keys.sign k m) ≡ 64
  pub public_key-is_key : (k : List ℕ) → crypto.is_key (keys.public_key k) ≡ true
  pub verifies-sign : (k m : List ℕ) → crypto.verifies (keys.public_key k) m (keys.sign k m) ≡ true
  pub hello_bytes-signature :
      (h : PeerHello) (s : String)
      → keys.hello_bytes (record h { signature = s }) ≡ keys.hello_bytes h

module _ (crypto : Crypto) (contracts : Contracts) (keys : Keys) where
  -- A hello that an identity signs passes the check of its signature, whatever its challenge,
  -- endpoint and time.
  pub verify_hello_signature-sign_hello :
      IsSound crypto keys
      → (network : String) (plane : DiscoveryPlane) (key : List ℕ) (challenge endpoint : String)
        (now : ℕ)
      → let i = from_signing_key crypto contracts keys network plane key in
        verify_hello_signature crypto contracts keys
          (sign_hello crypto contracts keys i challenge endpoint now)
        ≡ ok tt
  unfolding verify_hello_signature sign_hello from_signing_key root_public_key_hex
  verify_hello_signature-sign_hello sound network plane key challenge endpoint now =
      let hello =
        unsigned_hello crypto contracts keys
          (from_signing_key crypto contracts keys network plane key) challenge endpoint now in
      let made = keys.sign key (keys.hello_bytes hello) in
      ground (
        arith,
        sound.hex-public_key key,
        sound.hex-sign key (keys.hello_bytes hello),
        sound.length-public_key key,
        sound.length-sign key (keys.hello_bytes hello),
        sound.public_key-is_key key,
        sound.verifies-sign key (keys.hello_bytes hello),
        sound.hello_bytes-signature hello (crypto.hex_encode made),
        text_refl (contracts.member_id_for network (keys.public_key key)),
      )
