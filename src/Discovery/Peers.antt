-- ===== src/Discovery/Peers.antt =====
-- `PersistentPeerStore` of crates/kerosene-discovery/src/lib.rs. Its JSON files are the parameter
-- `PeerFiles`: reading and writing a whole list, each of which may fail.
use kerosene_node.Base.{
  keep, Bool, List, Option, String, [], false, if◌then◌else◌, leb, map, nat_eq, none, not, some,
  text_eq, true, ℕ, ◌&&◌, ◌++◌, ◌==◌, ◌||◌, ◌∷◌,
}
use kerosene_node.Base.Results.{bind as ◌>>=◌, then_do as ◌>>◌, Handler, Result, check, err, ok}
use kerosene_node.Discovery.{AuthenticatedPeer, DiscoveryError, peer_endpoint_invalid}
use kerosene_node.Ledger.Chain.{outpoint_eq}
use kerosene_node.Ledger.Chart.{account_eq}
use kerosene_node.Ledger.Nonces.{contains_text}
use kerosene_node.Ledger.States.{onchain_eq, reservation_state_eq, role_eq, withdrawal_status_eq}
use kerosene_node.Membership.Contracts.{Contracts, DiscoveryPlane, ManifestMember, plane_eq}
use kerosene_node.Membership.Onion.{Url, validate_onion_endpoint}
use kerosene_node.Membership.Verifier.{count_if}

pub data DiscoverySource : Type 0 where
  previous_connection current_manifest genesis_source mirror authenticated_source : DiscoverySource

abbrev pub is_authenticated_source : DiscoverySource → Bool
is_authenticated_source authenticated_source = true
is_authenticated_source _ = false

pub record StoredPeer : Type 0 where
  pub member_id : String
  pub plane : DiscoveryPlane
  pub root_public_key : String
  pub endpoint : String
  pub authenticated_at_epoch_ms : ℕ
  pub last_success_epoch_ms : Option ℕ

pub record EndpointRecord : Type 0 where
  pub member_id : String
  pub endpoint : String
  pub source : DiscoverySource
  pub observed_at_epoch_ms : ℕ

pub record SuccessfulConnection : Type 0 where
  pub member_id : String
  pub endpoint : String
  pub connected_at_epoch_ms : ℕ

-- One file: `read::<T>(NAME)` and `write::<T>(NAME, values)`
pub record ListFile (Files T : Type 0) : Type 0 where
  pub read : Files → Result DiscoveryError (List T)
  pub write : List T → Handler Files DiscoveryError (Unit {0})

pub record PeerFiles (Manifest : Type 0) : Type 1 where
  pub Files : Type 0
  pub peers_db : ListFile Files StoredPeer
  pub endpoints_db : ListFile Files EndpointRecord
  pub successes_db : ListFile Files SuccessfulConnection
  pub manifests_db : ListFile Files Manifest

abbrev pub stored : AuthenticatedPeer → StoredPeer
stored p = record {
  member_id = p.member_id;
  plane = p.plane;
  root_public_key = p.root_public_key;
  endpoint = p.endpoint;
  authenticated_at_epoch_ms = p.authenticated_at_epoch_ms;
  last_success_epoch_ms = none;
}

abbrev pub seen_endpoint : AuthenticatedPeer → EndpointRecord
seen_endpoint p = record {
  member_id = p.member_id;
  endpoint = p.endpoint;
  source = authenticated_source;
  observed_at_epoch_ms = p.authenticated_at_epoch_ms;
}

-- The lists that `upsert_authenticated` writes
unfoldable pub upsert_peer : AuthenticatedPeer → List StoredPeer → List StoredPeer
upsert_peer p peers =
    keep (λ (q : StoredPeer). not (q.member_id == p.member_id)) peers ++ stored p ∷ []

unfoldable pub upsert_endpoint : AuthenticatedPeer → List EndpointRecord → List EndpointRecord
upsert_endpoint p endpoints =
    keep
      (λ (q : EndpointRecord).
        not (q.member_id == p.member_id) || not (is_authenticated_source q.source))
      endpoints
    ++ seen_endpoint p ∷ []

-- The lists that `record_success` writes
unfoldable pub upsert_success :
    String → String → ℕ → List SuccessfulConnection → List SuccessfulConnection
upsert_success member endpoint now successes =
    keep (λ (q : SuccessfulConnection). not (q.member_id == member) || not (q.endpoint == endpoint))
      successes
    ++ record { member_id = member; endpoint = endpoint; connected_at_epoch_ms = now } ∷ []

abbrev pub mark_success : String → String → ℕ → StoredPeer → StoredPeer
mark_success member endpoint now p =
    if (p.member_id == member) && (p.endpoint == endpoint)
    then record p { last_success_epoch_ms = some now }
    else p

-- `sort_by_key` on the reversed time, which is stable
abbrev pub insert_latest :
    SuccessfulConnection → List SuccessfulConnection → List SuccessfulConnection
insert_latest s [] = s ∷ []
insert_latest s (t ∷ ts) =
    if leb t.connected_at_epoch_ms s.connected_at_epoch_ms
    then s ∷ t ∷ ts
    else t ∷ insert_latest s ts

pub sort_latest : List SuccessfulConnection → List SuccessfulConnection
sort_latest [] = []
sort_latest (s ∷ ss) = insert_latest s (sort_latest ss)

-- `peers.iter().find(..)`: the peer found has the success's member id
abbrev pub is_known : DiscoveryPlane → String → List StoredPeer → Bool
is_known plane member [] = false
is_known plane member (p ∷ ps) =
    if (p.member_id == member) && plane_eq p.plane plane then true else is_known plane member ps

-- The loop over the sorted successes in `ordered_candidates`
pub previous_candidates :
    DiscoveryPlane → List StoredPeer → List SuccessfulConnection → List EndpointRecord
previous_candidates plane peers [] = []
previous_candidates plane peers (s ∷ ss) =
    let rest = previous_candidates plane peers ss in
    if is_known plane s.member_id peers
    then record {
      member_id = s.member_id;
      endpoint = s.endpoint;
      source = previous_connection;
      observed_at_epoch_ms = s.connected_at_epoch_ms;
    }
      ∷ rest
    else rest

abbrev pub member_endpoint : ℕ → ManifestMember → EndpointRecord
member_endpoint observed m = record {
  member_id = m.member_id;
  endpoint = m.endpoint;
  source = current_manifest;
  observed_at_epoch_ms = observed;
}

module _ (parse_url : String → Option Url) where
  -- The loop of `deduplicate_valid`
  unfoldable pub deduplicate :
      List String → List EndpointRecord → Result DiscoveryError (List EndpointRecord)
  deduplicate taken [] = ok []
  deduplicate taken (c ∷ cs) =
      elim (validate_onion_endpoint parse_url peer_endpoint_invalid c.endpoint) [
        | err e ↦ err e
        | ok _ ↦
            if contains_text c.endpoint taken
            then deduplicate taken cs
            else elim (deduplicate (c.endpoint ∷ taken) cs) [ err e ↦ err e | ok ds ↦ ok (c ∷ ds) ]
      ]

  unfoldable pub deduplicate_valid :
      List EndpointRecord → Result DiscoveryError (List EndpointRecord)
  unfolding deduplicate
  deduplicate_valid cs = deduplicate [] cs

module _ (contracts : Contracts) (parse_url : String → Option Url)
    (files : PeerFiles contracts.Manifest) where
  open contracts use {Manifest, members_of, epoch_of}
  open files use {Files, peers_db, endpoints_db, successes_db, manifests_db}

  unfoldable pub upsert_authenticated : AuthenticatedPeer → Handler Files DiscoveryError (Unit {0})
  upsert_authenticated p = do
    peers ← check λ f. peers_db.read f
    peers_db.write (upsert_peer p peers)
    endpoints ← check λ f. endpoints_db.read f
    endpoints_db.write (upsert_endpoint p endpoints)

  unfoldable pub record_success : String → String → ℕ → Handler Files DiscoveryError (Unit {0})
  record_success member endpoint now = do
    check λ f. validate_onion_endpoint parse_url peer_endpoint_invalid endpoint
    successes ← check λ f. successes_db.read f
    successes_db.write (upsert_success member endpoint now successes)
    peers ← check λ f. peers_db.read f
    peers_db.write (map (mark_success member endpoint now) peers)

  unfoldable pub append_manifest : Manifest → Handler Files DiscoveryError (Unit {0})
  append_manifest m = do
    manifests ← check λ f. manifests_db.read f
    manifests_db.write (manifests ++ m ∷ [])

  unfoldable pub authenticated_count : DiscoveryPlane → Files → Result DiscoveryError ℕ
  authenticated_count plane f = elim (peers_db.read f) [
    | err e ↦ err e
    | ok peers ↦ ok (count_if (λ (p : StoredPeer). plane_eq p.plane plane) peers)
  ]

  abbrev pub peer_endpoint : StoredPeer → EndpointRecord
  peer_endpoint p = record {
    member_id = p.member_id;
    endpoint = p.endpoint;
    source = authenticated_source;
    observed_at_epoch_ms = p.authenticated_at_epoch_ms;
  }

  unfoldable pub authenticated_endpoints :
      DiscoveryPlane → Files → Result DiscoveryError (List EndpointRecord)
  authenticated_endpoints plane f = elim (peers_db.read f) [
    | err e ↦ err e
    | ok peers ↦ ok (map peer_endpoint (keep (λ (p : StoredPeer). plane_eq p.plane plane) peers))
  ]

  pub manifest_candidates : Option Manifest → List EndpointRecord
  manifest_candidates none = []
  manifest_candidates (some m) = map (member_endpoint (epoch_of m)) (members_of m)

  pub manifest_endpoint_records : Manifest → List EndpointRecord
  manifest_endpoint_records m = map (member_endpoint 0) (members_of m)

  unfoldable pub ordered_candidates :
      DiscoveryPlane
      → Option Manifest
      → List EndpointRecord
      → List EndpointRecord
      → List EndpointRecord
      → Files
      → Result DiscoveryError (List EndpointRecord)
  ordered_candidates plane current genesis mirrors suggestions f = elim (successes_db.read f) [
    | err e ↦ err e
    | ok successes ↦ elim (peers_db.read f) [
      | err e ↦ err e
      | ok peers ↦ deduplicate_valid parse_url (
          previous_candidates plane peers (sort_latest successes)
          ++ (manifest_candidates current ++ (genesis ++ (mirrors ++ suggestions))))
    ]
  ]
