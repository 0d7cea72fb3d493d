-- ===== src/Service/Operations.antt =====
-- The operations of `NodeService` of crates/kerosene-node/src/lib.rs that other nodes and the
-- synchronizer call.
pub mod Admission
pub mod Outcomes
pub mod Progress
pub mod Quorum
pub mod Live
use kerosene_node.Base.{Bool, String, false, if◌then◌else◌, nat_eq, none, some, text_eq, ℕ, ◌==◌}
use kerosene_node.Base.Results.{
  bind as ◌>>=◌, then_do as ◌>>◌, Handler, assign, check, err, ok, reject_if, require, return,
}
use kerosene_node.Base.Table.{insert}
use kerosene_node.Discovery.{ChallengeStore, DiscoveryError, authenticate, self_connection}
use kerosene_node.Discovery.Peers.{append_manifest, upsert_authenticated, record_success}
use kerosene_node.Identity.{PeerHello, sign_hello}
use kerosene_node.Ledger.Chain.{outpoint_eq}
use kerosene_node.Ledger.Chart.{account_eq}
use kerosene_node.Ledger.States.{onchain_eq, reservation_state_eq, role_eq, withdrawal_status_eq}
use kerosene_node.Membership.Structure.{MembershipError, hash_chain}
use kerosene_node.Membership.Verifier.{accept_manifest, current_hash}
use kerosene_node.Service.{
  Externals, ServiceConfig, ServiceState, activate_if_quorum, advance_after_authentication,
}
use kerosene_node.Sync.{
  LifecycleState, StateSnapshot, SyncError, advance, eligible, invalid_transition, lifecycle_eq,
  state_verified, syncing, verify_state,
}

module _ (x : Externals) (me : ServiceConfig) where
  open x use {crypto, contracts, keys, parse_url, files, lifecycle_file}

  abbrev pub Service : Type 0
  Service = ServiceState x

  abbrev pub on_challenges :
      {A : Type 0} → Handler ChallengeStore DiscoveryError A → Handler Service DiscoveryError A
  on_challenges f s = let (r, c) = f s.challenges in (r, record s { challenges = c })

  abbrev pub on_files :
      {A : Type 0} → Handler files.Files DiscoveryError A → Handler Service DiscoveryError A
  on_files f s = let (r, g) = f s.peer_files in (r, record s { peer_files = g })

  -- The steps that `observe_peer` and `exchange_hello` share.
  unfoldable pub admit_peer : PeerHello → ℕ → Handler Service DiscoveryError (Unit {0})
  admit_peer hello now = do
    check λ s. reject_if (hello.member_id == me.identity.member_id) self_connection
    membership ← check λ s. ok s.membership
    peer ←
        on_challenges
          (authenticate crypto contracts keys parse_url me.authenticator membership hello now)
    on_files (upsert_authenticated contracts parse_url files peer)
    on_files (record_success contracts parse_url files peer.member_id peer.endpoint now)
    assign λ s. record s { active_peers = insert peer.member_id now s.active_peers }
    assign λ s. advance_after_authentication x me s
    assign λ s. activate_if_quorum x me now s

  unfoldable pub observe_peer : PeerHello → ℕ → Handler Service DiscoveryError (Unit {0})
  unfolding admit_peer
  observe_peer hello now = admit_peer hello now

  unfoldable pub exchange_hello : PeerHello → String → ℕ → Handler Service DiscoveryError PeerHello
  unfolding admit_peer
  exchange_hello hello response_challenge now = do
    admit_peer hello now
    return (sign_hello crypto contracts keys me.identity response_challenge me.endpoint now)

  -- `append_manifest(..).map_err(|_| MembershipError::HashChain)`
  abbrev pub append_checked : contracts.Manifest → Handler Service MembershipError (Unit {0})
  append_checked m s =
      let (r, g) = append_manifest contracts parse_url files m s.peer_files in
      (elim r [ ok _ ↦ ok tt | err _ ↦ err hash_chain ], record s { peer_files = g })

  abbrev pub is_current_hash : Service → String → Bool
  is_current_hash s hash = elim (current_hash crypto contracts parse_url s.membership) [
    | none ↦ false
    | some h ↦ h == hash
  ]

  unfoldable pub accept_membership :
      contracts.Manifest → ℕ → Handler Service MembershipError (Unit {0})
  accept_membership m now s =
      if is_current_hash s (contracts.canonical_hash m)
      then (ok tt, s)
      else (do
        candidate ← check λ t. accept_manifest crypto contracts parse_url t.membership m
        append_checked m
        assign λ t. record t { membership = candidate }
        assign λ t. activate_if_quorum x me now t)
          s

  abbrev pub on_lifecycle :
      Handler LifecycleState SyncError (Unit {0}) → Handler Service SyncError (Unit {0})
  on_lifecycle f s = let (r, l) = f s.lifecycle in (r, record s { lifecycle = l })

  abbrev pub save_lifecycle : Handler Service SyncError (Unit {0})
  save_lifecycle s =
      let (r, g) = lifecycle_file.save s.lifecycle s.saved in (r, record s { saved = g })

  unfoldable pub verify_state_snapshot : StateSnapshot → ℕ → Handler Service SyncError (Unit {0})
  verify_state_snapshot snapshot now = do
    check λ s. verify_state crypto snapshot
    check λ s.
        require (lifecycle_eq s.lifecycle syncing) (invalid_transition s.lifecycle state_verified)
    on_lifecycle (advance state_verified)
    on_lifecycle (advance eligible)
    save_lifecycle
    assign λ s. activate_if_quorum x me now s
