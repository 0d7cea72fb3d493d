-- ===== src/Discovery.antt =====
-- The crate kerosene-discovery: crates/kerosene-discovery/src/lib.rs. The random bytes of a challenge
-- are an argument, and the files of the peer store are the parameter `PeerFiles`.
pub mod Challenges
pub mod Authenticating
pub mod Peers
pub mod Candidates
pub mod Tests
use kerosene_node.Base.{
  Option, String, [], if◌then◌else◌, leb, ltb, nat_eq, none, some, text_eq, ℕ, ◌&&◌, ◌-◌, ◌==◌,
}
use kerosene_node.Base.Results.{
  bind as ◌>>=◌, then_do as ◌>>◌, Handler, Result, check, err, ok, reject_if, require, return,
}
use kerosene_node.Base.Table.{Table, insert, lookup, remove_key, retain}
use kerosene_node.Base.Words.{saturating_add}
use kerosene_node.Identity.{IdentityError, Keys, PeerHello, verify_hello_signature}
use kerosene_node.Ledger.Certificates.{Crypto}
use kerosene_node.Ledger.Chain.{outpoint_eq}
use kerosene_node.Ledger.Chart.{account_eq}
use kerosene_node.Ledger.States.{onchain_eq, reservation_state_eq, role_eq, withdrawal_status_eq}
use kerosene_node.Membership.Contracts.{Contracts, DiscoveryPlane, plane_eq}
use kerosene_node.Membership.Onion.{Url, validate_onion_endpoint}
use kerosene_node.Membership.Verifier.{MembershipVerifier, is_member}

pub data DiscoveryError : Type 0 where
  peer_endpoint_invalid peer_scope_mismatch clock_skew challenge_rejected : DiscoveryError
  not_member self_connection : DiscoveryError
  identity_failed : IdentityError → DiscoveryError
  peer_io_failed peer_data_invalid : DiscoveryError
  transport_failed : String → DiscoveryError

pub record AuthenticatedPeer : Type 0 where
  pub member_id : String
  pub plane : DiscoveryPlane
  pub root_public_key : String
  pub endpoint : String
  pub authenticated_at_epoch_ms : ℕ

pub record ChallengeStore : Type 0 where
  pub ttl_ms : ℕ
  pub pending : Table String ℕ

-- `ChallengeStore::new`
unfoldable pub new_challenges : ℕ → ChallengeStore
new_challenges ttl_ms = record { ttl_ms = if ltb ttl_ms 1 then 1 else ttl_ms; pending = [] }

-- `ChallengeStore::issue`, for the challenge that the random bytes give
unfoldable pub issue_challenge : String → ℕ → ChallengeStore → ChallengeStore
issue_challenge challenge now s = record s {
  pending = insert challenge (saturating_add now s.ttl_ms) s.pending;
}

-- `ChallengeStore::consume`
unfoldable pub consume_challenge : String → ℕ → Handler ChallengeStore DiscoveryError (Unit {0})
consume_challenge challenge now s =
    let live = retain (λ expires_at. leb now expires_at) s.pending in
    let left = record s { pending = remove_key challenge live } in
    elim (lookup challenge live) [
      | none ↦ (err challenge_rejected, left)
      | some expires_at ↦
          if leb now expires_at then (ok tt, left) else (err challenge_rejected, left)
    ]

-- `u64::abs_diff`
abbrev pub abs_diff : ℕ → ℕ → ℕ
abs_diff a b = if leb b a then a - b else b - a

abbrev pub identity_checked : Result IdentityError (Unit {0}) → Result DiscoveryError (Unit {0})
identity_checked (ok _) = ok tt
identity_checked (err e) = err (identity_failed e)

pub record PeerAuthenticator : Type 0 where
  pub network_id : String
  pub plane : DiscoveryPlane
  pub max_clock_skew_ms : ℕ

module _ (crypto : Crypto) (contracts : Contracts) (keys : Keys)
    (parse_url : String → Option Url) where
  -- `PeerAuthenticator::authenticate`, on the challenges and with the membership that it shares
  unfoldable pub authenticate :
      PeerAuthenticator
      → MembershipVerifier crypto contracts parse_url
      → PeerHello
      → ℕ
      → Handler ChallengeStore DiscoveryError AuthenticatedPeer
  authenticate a membership hello now = do
    check λ s.
        require
          ((hello.contract_version == contracts.discovery_contract_version)
            && ((hello.network_id == a.network_id) && plane_eq hello.plane a.plane))
          peer_scope_mismatch
    check
        λ s. reject_if (ltb a.max_clock_skew_ms (abs_diff hello.issued_at_epoch_ms now)) clock_skew
    check λ s. validate_onion_endpoint parse_url peer_endpoint_invalid hello.endpoint
    check λ s. identity_checked (verify_hello_signature crypto contracts keys hello)
    consume_challenge hello.challenge now
    check λ s.
        require
          (is_member crypto contracts parse_url membership hello.member_id hello.root_public_key)
          not_member
    return (record {
      member_id = hello.member_id;
      plane = hello.plane;
      root_public_key = hello.root_public_key;
      endpoint = hello.endpoint;
      authenticated_at_epoch_ms = now;
    })
