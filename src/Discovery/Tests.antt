-- ===== src/Discovery/Tests.antt =====
-- Runs of crates/kerosene-discovery/src/lib.rs with the toy hashes and signatures of the membership's
-- tests.
use kerosene_node.Base.{
  All, List, String, [], arith, nat_eq, refl, some, text_eq, ◌↔◌, ◌∷◌, ◌≡◌, text_iff,
}
use kerosene_node.Base.Results.{err, ok}
use kerosene_node.Base.Text.{as_bytes}
use kerosene_node.Discovery.{
  AuthenticatedPeer, ChallengeStore, PeerAuthenticator, authenticate, challenge_rejected,
  consume_challenge, issue_challenge,
}
use kerosene_node.Discovery.Authenticating.{IsAdmitted, authenticate-IsAdmitted}
use kerosene_node.Discovery.Candidates.{
  IsReachable, deduplicate_valid_lem, endpoints_of, first_seen,
}
use kerosene_node.Discovery.Challenges.{
  consume_challenge-issue_challenge, consume_challenge_once, consuming, issuing, run_challenges,
}
use kerosene_node.Discovery.Peers.{
  DiscoverySource, EndpointRecord, current_manifest, deduplicate_valid, mirror,
}
use kerosene_node.Identity.{PeerHello, verify_hello_signature}
use kerosene_node.Identity.Tests.{toy_keys}
use kerosene_node.Ledger.Chain.{outpoint_eq}
use kerosene_node.Ledger.Chart.{account_eq}
use kerosene_node.Ledger.Machine.Intents.{AreDistinct}
use kerosene_node.Ledger.States.{onchain_eq, reservation_state_eq, role_eq, withdrawal_status_eq}
use kerosene_node.Membership.Contracts.{bank}
use kerosene_node.Membership.Onion.{validate_onion_endpoint}
use kerosene_node.Membership.Tests.{at_manifest, founding, toy_contracts, toy_hex, toy_url}
use kerosene_node.Membership.Verifier.{authorized_keys, is_member}

abbrev challenges : ChallengeStore
challenges = record { ttl_ms = 10; pending = ("c1", 50) ∷ ("c2", 20) ∷ [] }

consume_challenge_once_example :
    (consume_challenge "c1" 31 (
      run_challenges
        (issuing "c3" 5 ∷ consuming "c2" 30 ∷ [])
        (consume_challenge "c1" 30 challenges).1)).0
    ≡ err challenge_rejected
consume_challenge_once_example =
    consume_challenge_once "c1" 30 31 (issuing "c3" 5 ∷ consuming "c2" 30 ∷ []) challenges
      (refl, (refl, tt)) (λ e. ground (arith, (text_iff "c3" "c1").1 e), (tt, tt))

consume_challenge-issue_challenge_example :
    (consume_challenge "c3" 14
      (run_challenges (consuming "c1" 12 ∷ []) (issue_challenge "c3" 5 challenges))).0
    ≡ ok tt
consume_challenge-issue_challenge_example =
    consume_challenge-issue_challenge "c3" 5 14 (consuming "c1" 12 ∷ []) challenges
      (refl, (refl, tt)) ((λ e. ground (arith, (text_iff "c1" "c3").1 e), omega arith), tt)
      (omega arith)

abbrev pub toy_authenticator : PeerAuthenticator
toy_authenticator = record { network_id = "net"; plane = bank; max_clock_skew_ms = 5 }

abbrev pub hello_1 : PeerHello
hello_1 = record {
  contract_version = "v1";
  network_id = "net";
  plane = bank;
  member_id = "n1";
  root_public_key = "key";
  challenge = "c1";
  issued_at_epoch_ms = 28;
  endpoint = "e";
  signature = "sig";
}

abbrev peer_1 : AuthenticatedPeer
peer_1 = record {
  member_id = "n1";
  plane = bank;
  root_public_key = "key";
  endpoint = "e";
  authenticated_at_epoch_ms = 30;
}

admitted_1 :
    (authenticate toy_hex toy_contracts toy_keys toy_url toy_authenticator
      (at_manifest (some founding))
      hello_1
      30
      challenges).0
    ≡ ok peer_1
unfolding authenticate validate_onion_endpoint verify_hello_signature consume_challenge is_member
    authorized_keys as_bytes
admitted_1 = refl

authenticate-IsAdmitted_example :
    IsAdmitted toy_hex toy_contracts toy_keys toy_url toy_authenticator
      (at_manifest (some founding))
      hello_1
      30
      challenges
      peer_1
authenticate-IsAdmitted_example =
    authenticate-IsAdmitted toy_hex toy_contracts toy_keys toy_url toy_authenticator
      (at_manifest (some founding)) hello_1 30 challenges peer_1 admitted_1

abbrev candidate : String → DiscoverySource → EndpointRecord
candidate endpoint source = record {
  member_id = "n1";
  endpoint = endpoint;
  source = source;
  observed_at_epoch_ms = 0;
}

abbrev candidates_3 : List EndpointRecord
candidates_3 = candidate "e" current_manifest ∷ candidate "e" mirror ∷ candidate "f" mirror ∷ []

deduplicate_valid_lem_example :
    ((deduplicate_valid toy_url candidates_3
        ≡ ok (candidate "e" current_manifest ∷ candidate "f" mirror ∷ []))
      ↔ (All (IsReachable toy_url) candidates_3
          × ((candidate "e" current_manifest ∷ candidate "f" mirror ∷ [])
              ≡ first_seen toy_url [] candidates_3)))
    × AreDistinct (endpoints_of (first_seen toy_url [] candidates_3))
deduplicate_valid_lem_example =
    deduplicate_valid_lem toy_url candidates_3
      (candidate "e" current_manifest ∷ candidate "f" mirror ∷ [])
