-- ===== src/Service/Tests.antt =====
-- Runs of crates/kerosene-node/src/lib.rs over files that forget what is written, with the toy hashes
-- and signatures of the membership's tests.
use kerosene_node.Base.{[], nat_eq, refl, some, text_eq, true, ◌∷◌, ◌≡◌, ◌≤◌}
use kerosene_node.Base.Results.{ok}
use kerosene_node.Discovery.Peers.{EndpointRecord, ListFile, StoredPeer, SuccessfulConnection}
use kerosene_node.Discovery.Tests.{hello_1, toy_authenticator}
use kerosene_node.Identity.{root_public_key_hex}
use kerosene_node.Identity.Tests.{toy_identity, toy_keys}
use kerosene_node.Ledger.Chain.{outpoint_eq}
use kerosene_node.Ledger.Chart.{account_eq}
use kerosene_node.Ledger.States.{onchain_eq, reservation_state_eq, role_eq, withdrawal_status_eq}
use kerosene_node.Membership.Contracts.{bank}
use kerosene_node.Membership.Tests.{Toy, at_manifest, founding, toy_contracts, toy_hex, toy_url}
use kerosene_node.Membership.Verifier.{authorized_keys, is_member, threshold_now}
use kerosene_node.Service.{
  Externals, ServiceConfig, expire_peers, has_quorum, is_local_member, live_members_of, readiness,
  readiness_of,
}
use kerosene_node.Service.Bootstrap.{
  bootstrap_local_lifecycle, bootstrap_local_lifecycle-finished, finished,
}
use kerosene_node.Service.Operations.{Service, verify_state_snapshot}
use kerosene_node.Service.Operations.Live.{verify_state_snapshot-active}
use kerosene_node.Service.Operations.Progress.{
  observing, reading, run_services, run_services-Forward, verifying,
}
use kerosene_node.Service.Operations.Quorum.{HasPeers, IsQuorate, readiness-IsQuorate}
use kerosene_node.Sync.{
  StateSnapshot, active, created, discovering, identity_ready, stage, syncing, verify_state,
}

abbrev file_of : (T : Type 0) → ListFile (Unit {0}) T
file_of T = record { read = λ f. ok []; write = λ ts f. (ok tt, tt) }

abbrev externals : Externals
externals = record {
  crypto = toy_hex;
  contracts = toy_contracts;
  keys = toy_keys;
  parse_url = toy_url;
  files = record {
    Files = Unit {0};
    peers_db = file_of StoredPeer;
    endpoints_db = file_of EndpointRecord;
    successes_db = file_of SuccessfulConnection;
    manifests_db = file_of Toy;
  };
  lifecycle_file = record { File = Unit {0}; load = λ f. ok created; save = λ l f. (ok tt, tt) };
}

abbrev config : ServiceConfig
config = record {
  identity = toy_identity;
  endpoint = "e";
  plane = bank;
  authenticator = toy_authenticator;
  peer_live_window_ms = 100;
}

abbrev node_state : Service externals config
node_state = record {
  challenges = record { ttl_ms = 10; pending = [] };
  membership = at_manifest (some founding);
  peer_files = tt;
  lifecycle = syncing;
  saved = tt;
  active_peers = ("p", 25) ∷ [];
}

bootstrap_local_lifecycle-finished_example :
    bootstrap_local_lifecycle 5 identity_ready ≡ finished (ok tt) discovering
bootstrap_local_lifecycle-finished_example = bootstrap_local_lifecycle-finished identity_ready 1

abbrev snapshot_1 : StateSnapshot
snapshot_1 = record { epoch = 1; bytes = []; state_root = "sig" }

run_services-Forward_example :
    6
    ≤ stage
        (run_services externals config
          (reading 30 ∷ verifying snapshot_1 30 ∷ observing hello_1 31 ∷ [])
          node_state).lifecycle
run_services-Forward_example =
    run_services-Forward externals config
      (reading 30 ∷ verifying snapshot_1 30 ∷ observing hello_1 31 ∷ []) node_state

node_state-HasPeers : HasPeers externals config node_state
node_state-HasPeers = record { distinct = (refl, tt); not_self = refl }

quorum_at_30 : (readiness externals config 30 node_state).0.quorum_ready ≡ true
unfolding readiness readiness_of has_quorum is_local_member live_members_of expire_peers is_member
    authorized_keys threshold_now root_public_key_hex
quorum_at_30 = refl

readiness-IsQuorate_example : IsQuorate externals config 30 node_state
readiness-IsQuorate_example =
    readiness-IsQuorate externals config 30 node_state node_state-HasPeers quorum_at_30

snapshot_sound : verify_state toy_hex snapshot_1 ≡ ok tt
unfolding verify_state
snapshot_sound = refl

quorum_expired : has_quorum externals config (expire_peers externals config 30 node_state) ≡ true
unfolding has_quorum is_local_member live_members_of expire_peers is_member authorized_keys
    threshold_now root_public_key_hex
quorum_expired = refl

verify_state_snapshot-active_example :
    ((verify_state_snapshot externals config snapshot_1 30 node_state).0 ≡ ok tt)
    × ((verify_state_snapshot externals config snapshot_1 30 node_state).1.lifecycle ≡ active)
verify_state_snapshot-active_example =
    verify_state_snapshot-active externals config snapshot_1 30 node_state snapshot_sound refl refl
      quorum_expired
