-- ===== src/Service/Operations/Admission.antt =====
-- The two outcomes of the steps that `observe_peer` and `exchange_hello` of
-- crates/kerosene-node/src/lib.rs share.
use kerosene_node.Base.{
  Bool-cases, arith, inl, inr, nat_eq, text_eq, ℕ, ◌==◌, ◌≡◌, ◌≢◌, ◌⊎◌, ap, refl, text_iff,
}
use kerosene_node.Base.Results.{err, ok, Result, Result-cases}
use kerosene_node.Base.Table.{insert}
use kerosene_node.Discovery.{
  AuthenticatedPeer, DiscoveryError, authenticate, self_connection, ChallengeStore,
}
use kerosene_node.Discovery.Peers.{record_success, upsert_authenticated}
use kerosene_node.Identity.{PeerHello}
use kerosene_node.Ledger.Chain.{outpoint_eq}
use kerosene_node.Ledger.Chart.{account_eq}
use kerosene_node.Ledger.States.{onchain_eq, reservation_state_eq, role_eq, withdrawal_status_eq}
use kerosene_node.Service.{
  Externals, ServiceConfig, activate_if_quorum, advance_after_authentication,
}
use kerosene_node.Service.Operations.{Service, admit_peer}

module _ (x : Externals) (me : ServiceConfig) (hello : PeerHello) (now : ℕ) (s : Service x me) where
  open x use {crypto, contracts, keys, parse_url, files}

  -- A refused hello may change the challenges and the files, and nothing else.
  pub record IsRefused (t : Service x me) : Type 0 where
    pub same_lifecycle : t.lifecycle ≡ s.lifecycle
    pub same_peers : t.active_peers ≡ s.active_peers
    pub same_membership : t.membership ≡ s.membership

  -- An admitted peer is another node, authenticated, and counts as live from now on.
  pub record IsWelcomed (t : Service x me) : Type 0 where
    pub peer : AuthenticatedPeer
    pub met : Service x me
    pub another : hello.member_id ≢ me.identity.member_id
    pub admitted :
        (authenticate crypto contracts keys parse_url me.authenticator s.membership hello now
          s.challenges).0
        ≡ ok peer
    pub met_lifecycle : met.lifecycle ≡ s.lifecycle
    pub met_membership : met.membership ≡ s.membership
    pub met_peers : met.active_peers ≡ insert peer.member_id now s.active_peers
    pub ends : t ≡ activate_if_quorum x me now (advance_after_authentication x me met)

  IsRefused-as :
      (e : DiscoveryError) (c : ChallengeStore) (f : files.Files)
      → admit_peer x me hello now s ≡ (err e, record s { challenges = c; peer_files = f })
      → (e : DiscoveryError) × (((admit_peer x me hello now s).0 ≡ err e)
          × IsRefused (admit_peer x me hello now s).1)
  IsRefused-as e c f q = (
    e,
    (
      ap (λ (r : Result DiscoveryError (Unit {0}) × Service x me). r.0) q,
      record {
        same_lifecycle =
            ap (λ (r : Result DiscoveryError (Unit {0}) × Service x me). r.1.lifecycle) q;
        same_peers =
            ap (λ (r : Result DiscoveryError (Unit {0}) × Service x me). r.1.active_peers) q;
        same_membership =
            ap (λ (r : Result DiscoveryError (Unit {0}) × Service x me). r.1.membership) q;
      },
    ),
  )

  pub admit_peer-cases :
      ((e : DiscoveryError) × (((admit_peer x me hello now s).0 ≡ err e)
          × IsRefused (admit_peer x me hello now s).1))
      ⊎ (((admit_peer x me hello now s).0 ≡ ok tt) × IsWelcomed (admit_peer x me hello now s).1)
  unfolding admit_peer
  admit_peer-cases = elim (Bool-cases (hello.member_id == me.identity.member_id)) [
    | inl self ↦ inl (IsRefused-as self_connection s.challenges s.peer_files (ground (arith, self)))
    | inr other ↦
        (let answer =
            authenticate crypto contracts keys parse_url me.authenticator s.membership hello now
              s.challenges in
          elim (Result-cases answer.0) [
            | inl (peer, a) ↦
                (let stored_peer =
                    upsert_authenticated contracts parse_url files peer s.peer_files in
                  elim (Result-cases stored_peer.0) [
                    | inl (_, u) ↦
                        (let recorded =
                            record_success contracts parse_url files peer.member_id peer.endpoint
                              now stored_peer.1 in
                          elim (Result-cases recorded.0) [
                            | inl (_, r) ↦ inr (
                              ground (arith, other, a, u, r),
                              record {
                                peer = peer;
                                met = record s {
                                  challenges = answer.1;
                                  peer_files = recorded.1;
                                  active_peers = insert peer.member_id now s.active_peers;
                                };
                                another =
                                    ground (
                                      arith,
                                      other,
                                      text_iff hello.member_id me.identity.member_id,
                                    );
                                admitted = a;
                                met_lifecycle = refl;
                                met_membership = refl;
                                met_peers = refl;
                                ends = ground (arith, other, a, u, r);
                              },
                            )
                            | inr (e, r) ↦ inl (
                                IsRefused-as e answer.1 recorded.1 (ground (arith, other, a, u, r)))
                          ])
                    | inr (e, u) ↦
                        inl (IsRefused-as e answer.1 stored_peer.1 (ground (arith, other, a, u)))
                  ])
            | inr (e, a) ↦ inl (IsRefused-as e answer.1 s.peer_files (ground (arith, other, a)))
          ])
  ]
