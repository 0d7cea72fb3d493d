-- ===== src/Service.antt =====
-- `NodeService` of crates/kerosene-node/src/lib.rs: the state behind its locks, and its operations as
-- handlers on it. An operation takes several locks one after another; the model runs one operation
-- at a time, and says nothing of two that interleave. What the service uses of other crates is the
-- record `Externals`; the clock is the argument `now`.
pub mod Bootstrap
pub mod Operations
pub mod Tests
use kerosene_node.Base.{
  Bool, Option, String, false, if◌then◌else◌, leb, nat_eq, not, text_eq, true, ℕ, ◌&&◌, ◌+◌,
}
use kerosene_node.Base.Table.{Table, contains_key, retain}
use kerosene_node.Base.Words.{saturating_sub}
use kerosene_node.Discovery.{ChallengeStore, PeerAuthenticator}
use kerosene_node.Discovery.Peers.{PeerFiles}
use kerosene_node.Identity.{Keys, NodeIdentity, root_public_key_hex}
use kerosene_node.Ledger.Certificates.{Crypto}
use kerosene_node.Ledger.Chain.{outpoint_eq}
use kerosene_node.Ledger.Chart.{account_eq}
use kerosene_node.Ledger.States.{onchain_eq, reservation_state_eq, role_eq, withdrawal_status_eq}
use kerosene_node.Membership.Contracts.{Contracts, DiscoveryPlane}
use kerosene_node.Membership.Onion.{Url}
use kerosene_node.Membership.Verifier.{
  MembershipVerifier, authorized_keys, count_if, current_hash, is_member, member_count,
  threshold_now,
}
use kerosene_node.Sync.{
  LifecycleFile, LifecycleState, active, advance, authenticated, created, discovering, eligible,
  lifecycle_eq, member_verified, state_verified, syncing,
}

pub record Externals : Type 1 where
  pub crypto : Crypto
  pub contracts : Contracts
  pub keys : Keys
  pub parse_url : String → Option Url
  pub files : PeerFiles contracts.Manifest
  pub lifecycle_file : LifecycleFile

-- The fields of `NodeServiceInner` that never change.
pub record ServiceConfig : Type 0 where
  pub identity : NodeIdentity
  pub endpoint : String
  pub plane : DiscoveryPlane
  pub authenticator : PeerAuthenticator
  pub peer_live_window_ms : ℕ

pub record Readiness : Type 0 where
  pub live : Bool
  pub local_ready : Bool
  pub member_ready : Bool
  pub quorum_ready : Bool
  pub financial_ready : Bool
  pub plane : DiscoveryPlane
  pub lifecycle : LifecycleState
  pub operational_state : String
  pub verified_members : ℕ
  pub live_members : ℕ
  pub required_threshold : ℕ
  pub manifest_hash : Option String

module _ (x : Externals) where
  open x use {crypto, contracts, keys, parse_url, files, lifecycle_file}

  -- The fields of `NodeServiceInner` that change.
  pub record ServiceState : Type 0 where
    pub challenges : ChallengeStore
    pub membership : MembershipVerifier crypto contracts parse_url
    pub peer_files : files.Files
    pub lifecycle : LifecycleState
    pub saved : lifecycle_file.File
    pub active_peers : Table String ℕ

  module _ (me : ServiceConfig) where
    unfoldable pub is_local_member : ServiceState → Bool
    is_local_member s =
        is_member crypto contracts parse_url s.membership me.identity.member_id
          (root_public_key_hex crypto contracts keys me.identity)

    unfoldable pub expire_peers : ℕ → ServiceState → ServiceState
    expire_peers now s = record s {
      active_peers =
          retain (λ last_seen. leb (saturating_sub now last_seen) me.peer_live_window_ms)
            s.active_peers;
    }

    abbrev pub is_authorized_id : ServiceState → String × ℕ → Bool
    is_authorized_id s (id, _) =
        contains_key id (authorized_keys crypto contracts parse_url s.membership)

    abbrev pub as_count : Bool → ℕ
    as_count true = 1
    as_count false = 0

    unfoldable pub live_members_of : ServiceState → ℕ
    unfolding is_local_member
    live_members_of s = count_if (is_authorized_id s) s.active_peers + as_count (is_local_member s)

    unfoldable pub has_quorum : ServiceState → Bool
    unfolding is_local_member live_members_of
    has_quorum s =
        is_local_member s
        && leb (threshold_now crypto contracts parse_url s.membership) (live_members_of s)

    abbrev pub is_state_verified : LifecycleState → Bool
    is_state_verified state_verified = true
    is_state_verified eligible = true
    is_state_verified active = true
    is_state_verified _ = false

    -- What `readiness` returns once the peers are expired
    unfoldable pub readiness_of : ServiceState → Readiness
    unfolding has_quorum is_local_member live_members_of
    readiness_of s = record {
      live = true;
      local_ready = not (lifecycle_eq s.lifecycle created);
      member_ready = is_local_member s;
      quorum_ready = has_quorum s;
      financial_ready = has_quorum s && lifecycle_eq s.lifecycle active;
      plane = me.plane;
      lifecycle = s.lifecycle;
      operational_state =
          if lifecycle_eq s.lifecycle active && has_quorum s
          then "ACTIVE"
          else if is_state_verified s.lifecycle
          then "ELIGIBLE_WAITING_FOR_QUORUM"
          else "ACTIVE_LOCAL_WAITING_FOR_PEERS";
      verified_members = member_count crypto contracts parse_url s.membership;
      live_members = live_members_of s;
      required_threshold = threshold_now crypto contracts parse_url s.membership;
      manifest_hash = current_hash crypto contracts parse_url s.membership;
    }

    -- `NodeService::readiness`
    unfoldable pub readiness : ℕ → ServiceState → Readiness × ServiceState
    unfolding readiness_of expire_peers
    readiness now s = let t = expire_peers now s in (readiness_of t, t)

    -- `let _ = lifecycle.advance(target);`
    abbrev pub try_advance : LifecycleState → LifecycleState → LifecycleState
    try_advance target s = (advance target s).1

    -- `let _ = self.inner.lifecycle_store.save(&lifecycle);`
    abbrev pub try_save : ServiceState → ServiceState
    try_save s = record s { saved = (lifecycle_file.save s.lifecycle s.saved).1 }

    unfoldable pub advance_after_authentication : ServiceState → ServiceState
    unfolding is_local_member
    advance_after_authentication s =
        let met =
          if lifecycle_eq s.lifecycle discovering
          then try_advance authenticated s.lifecycle
          else s.lifecycle in
        let verified =
          if is_local_member s && lifecycle_eq met authenticated
          then try_advance syncing (try_advance member_verified met)
          else met in
        try_save (record s { lifecycle = verified })

    unfoldable pub activate_if_quorum : ℕ → ServiceState → ServiceState
    unfolding readiness readiness_of has_quorum is_local_member live_members_of expire_peers
    activate_if_quorum now s =
        let (ready, t) = readiness now s in
        if ready.quorum_ready && lifecycle_eq t.lifecycle eligible
        then try_save (record t { lifecycle = try_advance active t.lifecycle })
        else t
