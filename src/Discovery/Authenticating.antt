-- ===== src/Discovery/Authenticating.antt =====
-- What `authenticate` of crates/kerosene-discovery/src/lib.rs accepts, and when it uses up a challenge.
use kerosene_node.Base.{
  Option, String, arith, false, inl, inr, nat_eq, text_eq, true, ℕ, ◌≡◌, ◌≤◌, text_iff,
}
use kerosene_node.Base.Results.{Result-cases, err, is_ok, ok}
use kerosene_node.Discovery.{
  AuthenticatedPeer, ChallengeStore, PeerAuthenticator, abs_diff, authenticate, consume_challenge,
  peer_endpoint_invalid,
}
use kerosene_node.Identity.{IdentityError, Keys, PeerHello, verify_hello_signature}
use kerosene_node.Ledger.Certificates.{Crypto}
use kerosene_node.Ledger.Chain.{outpoint_eq}
use kerosene_node.Ledger.Chart.{account_eq}
use kerosene_node.Ledger.States.{onchain_eq, reservation_state_eq, role_eq, withdrawal_status_eq}
use kerosene_node.Membership.Contracts.{Contracts}
use kerosene_node.Membership.Onion.{Url, validate_onion_endpoint}
use kerosene_node.Membership.Verifier.{MembershipVerifier, is_member}

module _ (crypto : Crypto) (contracts : Contracts) (keys : Keys) (parse_url : String → Option Url)
    (a : PeerAuthenticator) (membership : MembershipVerifier crypto contracts parse_url)
    (hello : PeerHello) (now : ℕ) where
  pub record IsAdmitted (s : ChallengeStore) (peer : AuthenticatedPeer) : Type 0 where
    pub of_contract : hello.contract_version ≡ contracts.discovery_contract_version
    pub of_network : hello.network_id ≡ a.network_id
    pub in_time : abs_diff hello.issued_at_epoch_ms now ≤ a.max_clock_skew_ms
    pub reachable : validate_onion_endpoint parse_url peer_endpoint_invalid hello.endpoint ≡ ok tt
    pub signed : verify_hello_signature crypto contracts keys hello ≡ ok tt
    pub answered : (consume_challenge hello.challenge now s).0 ≡ ok tt
    pub listed :
        is_member crypto contracts parse_url membership hello.member_id hello.root_public_key ≡ true
    pub identified : peer.member_id ≡ hello.member_id
    pub keyed : peer.root_public_key ≡ hello.root_public_key
    pub located : peer.endpoint ≡ hello.endpoint

  -- A peer is authenticated only for a hello of the contract and the network expected, within the
  -- clock skew, from a valid onion endpoint, signed by its key, that answers a pending challenge and
  -- names a member; the peer returned has the hello's member id, key and endpoint.
  pub authenticate-IsAdmitted :
      (s : ChallengeStore) (peer : AuthenticatedPeer)
      → (authenticate crypto contracts keys parse_url a membership hello now s).0 ≡ ok peer
      → IsAdmitted s peer
  unfolding authenticate
  authenticate-IsAdmitted s peer h =
      elim (Result-cases (validate_onion_endpoint parse_url peer_endpoint_invalid hello.endpoint)) [
        | inl (_, url) ↦ elim (Result-cases (verify_hello_signature crypto contracts keys hello)) [
          | inl (_, sig) ↦ elim (Result-cases (consume_challenge hello.challenge now s).0) [
            | inl (_, used) ↦ record {
              of_contract =
                  (text_iff hello.contract_version contracts.discovery_contract_version).0
                    (ground (arith, h, url, sig, used));
              of_network =
                  (text_iff hello.network_id a.network_id).0 (ground (arith, h, url, sig, used));
              in_time = ground (arith, h, url, sig, used);
              reachable = url;
              signed = sig;
              answered = used;
              listed = ground (arith, h, url, sig, used);
              identified = ground (arith, h, url, sig, used);
              keyed = ground (arith, h, url, sig, used);
              located = ground (arith, h, url, sig, used);
            }
            | inr (e, used) ↦ absurd (ground (arith, h, url, sig, used))
          ]
          | inr (e, sig) ↦ absurd (ground (arith, h, url, sig))
        ]
        | inr (e, url) ↦ absurd (ground (arith, h, url))
      ]

  -- A hello whose signature does not verify uses up no challenge: every pending one stays pending.
  authenticate_unsigned :
      (s : ChallengeStore) (e : IdentityError)
      → verify_hello_signature crypto contracts keys hello ≡ err e
      → (is_ok (authenticate crypto contracts keys parse_url a membership hello now s).0 ≡ false)
        × ((authenticate crypto contracts keys parse_url a membership hello now s).1 ≡ s)
  unfolding authenticate
  authenticate_unsigned s e bad =
      elim (Result-cases (validate_onion_endpoint parse_url peer_endpoint_invalid hello.endpoint)) [
        | inl (_, url) ↦ ground (arith, bad, url)
        | inr (x, url) ↦ ground (arith, bad, url)
      ]
