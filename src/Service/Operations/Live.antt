-- ===== src/Service/Operations/Live.antt =====
-- The peers that `NodeService` of crates/kerosene-node/src/lib.rs holds live, and how it gets active.
use kerosene_node.Base.{
  arith, inl, inr, leb, nat_eq, refl, text_eq, ℕ, ◌≡◌, List, [], true, ◌∷◌, ap, ◌∙◌,
}
use kerosene_node.Base.Results.{ok, Result}
use kerosene_node.Base.Table.{
  insert-HasDistinctKeys, lookup-insert_ne, lookup-retain, retain-HasDistinctKeys,
}
use kerosene_node.Base.Words.{saturating_sub}
use kerosene_node.Discovery.Authenticating.{authenticate-IsAdmitted}
use kerosene_node.Identity.{PeerHello}
use kerosene_node.Ledger.Chain.{outpoint_eq}
use kerosene_node.Ledger.Chart.{account_eq}
use kerosene_node.Ledger.States.{onchain_eq, reservation_state_eq, role_eq, withdrawal_status_eq}
use kerosene_node.Service.{
  Externals, ServiceConfig, activate_if_quorum, advance_after_authentication, expire_peers,
  readiness, has_quorum, is_local_member, live_members_of, readiness_of,
}
use kerosene_node.Service.Operations.{
  Service, accept_membership, admit_peer, verify_state_snapshot, observe_peer,
}
use kerosene_node.Service.Operations.Admission.{IsWelcomed, admit_peer-cases}
use kerosene_node.Service.Operations.Outcomes.{
  accept_membership-outcome, exchange_hello-state, verify_state_snapshot-outcome,
  verify_state_snapshot-syncing,
}
use kerosene_node.Service.Operations.Progress.{
  ServiceOp, accepting, challenging, exchanging, observing, reading, run_service, run_services,
  verifying,
}
use kerosene_node.Service.Operations.Quorum.{HasPeers}
use kerosene_node.Sync.{StateSnapshot, active, advance, eligible, syncing, verify_state, SyncError}

module _ (x : Externals) (me : ServiceConfig) where
  open x use {crypto, contracts, keys, parse_url, files, lifecycle_file}

  same_peers-HasPeers :
      (s t : Service x me) → t.active_peers ≡ s.active_peers → HasPeers x me s → HasPeers x me t
  same_peers-HasPeers s t same has = record {
    distinct = rw same has.distinct;
    not_self = ground (arith, same, has.not_self);
  }

  expire_peers-HasPeers :
      (now : ℕ) (s : Service x me) → HasPeers x me s → HasPeers x me (expire_peers x me now s)
  unfolding expire_peers
  expire_peers-HasPeers now s has =
      let p = λ (seen : ℕ). leb (saturating_sub now seen) me.peer_live_window_ms in
      record {
        distinct = retain-HasDistinctKeys p s.active_peers has.distinct;
        not_self = ground (
          arith,
          has.not_self,
          lookup-retain p me.identity.member_id s.active_peers has.distinct,
        );
      }

  activate-peers :
      (now : ℕ) (s : Service x me)
      → (activate_if_quorum x me now s).active_peers ≡ (expire_peers x me now s).active_peers
  unfolding activate_if_quorum readiness
  activate-peers now s = ground arith

  activate-HasPeers :
      (now : ℕ) (s : Service x me) → HasPeers x me s → HasPeers x me (activate_if_quorum x me now s)
  activate-HasPeers now s has =
      same_peers-HasPeers (expire_peers x me now s) (activate_if_quorum x me now s)
        (activate-peers now s) (expire_peers-HasPeers now s has)

  after_authentication-peers :
      (s : Service x me) → (advance_after_authentication x me s).active_peers ≡ s.active_peers
  unfolding advance_after_authentication
  after_authentication-peers s = refl

  welcome-HasPeers :
      (hello : PeerHello) (now : ℕ) (s t : Service x me)
      → IsWelcomed x me hello now s t
      → HasPeers x me s
      → HasPeers x me t
  welcome-HasPeers hello now s t w has =
      let identified =
        (authenticate-IsAdmitted crypto contracts keys parse_url me.authenticator s.membership hello
          now s.challenges w.peer w.admitted).identified in
      rw w.ends (
        activate-HasPeers now (advance_after_authentication x me w.met) (
          same_peers-HasPeers w.met (advance_after_authentication x me w.met)
            (after_authentication-peers w.met)
            (record {
              distinct =
                  rw w.met_peers
                    (insert-HasDistinctKeys w.peer.member_id now s.active_peers has.distinct);
              not_self = ground (
                arith,
                has.not_self,
                w.met_peers,
                identified,
                w.another,
                lookup-insert_ne w.peer.member_id me.identity.member_id now s.active_peers,
              );
            })))

  admit_peer-HasPeers :
      (hello : PeerHello) (now : ℕ) (s : Service x me)
      → HasPeers x me s
      → HasPeers x me (admit_peer x me hello now s).1
  admit_peer-HasPeers hello now s has = elim (admit_peer-cases x me hello now s) [
    | inl (_, (_, refused)) ↦
        same_peers-HasPeers s (admit_peer x me hello now s).1 refused.same_peers has
    | inr (_, w) ↦ welcome-HasPeers hello now s (admit_peer x me hello now s).1 w has
  ]

  accept_membership-HasPeers :
      (m : contracts.Manifest) (now : ℕ) (s : Service x me)
      → HasPeers x me s
      → HasPeers x me (accept_membership x me m now s).1
  accept_membership-HasPeers m now s has = elim (accept_membership-outcome x me m now s) [
    | inl (f, q) ↦ rw q (same_peers-HasPeers s (record s { peer_files = f }) refl has)
    | inr (f, (w, (_, q))) ↦
        (let t = record s { peer_files = f; membership = w } in
          rw q (activate-HasPeers now t (same_peers-HasPeers s t refl has)))
  ]

  verify_state_snapshot-HasPeers :
      (snapshot : StateSnapshot) (now : ℕ) (s : Service x me)
      → HasPeers x me s
      → HasPeers x me (verify_state_snapshot x me snapshot now s).1
  verify_state_snapshot-HasPeers snapshot now s has =
      let t = record s { lifecycle = eligible; saved = (lifecycle_file.save eligible s.saved).1 } in
      elim (verify_state_snapshot-outcome x me snapshot now s) [
        | inl q ↦ rw q has
        | inr (_, inl q) ↦ rw q (same_peers-HasPeers s t refl has)
        | inr (_, inr q) ↦ rw q (activate-HasPeers now t (same_peers-HasPeers s t refl has))
      ]

  run_service-HasPeers :
      (op : ServiceOp x me) (s : Service x me)
      → HasPeers x me s
      → HasPeers x me (run_service x me op s)
  unfolding observe_peer readiness
  run_service-HasPeers (observing hello now) s has = admit_peer-HasPeers hello now s has
  run_service-HasPeers (exchanging hello challenge now) s has =
      rw (exchange_hello-state x me hello challenge now s) (admit_peer-HasPeers hello now s has)
  run_service-HasPeers (accepting m now) s has = accept_membership-HasPeers m now s has
  run_service-HasPeers (verifying snapshot now) s has =
      verify_state_snapshot-HasPeers snapshot now s has
  run_service-HasPeers (reading now) s has = expire_peers-HasPeers now s has
  run_service-HasPeers (challenging challenge now) s has = same_peers-HasPeers s _ refl has

  -- Whatever other nodes send and whatever is read, each live peer is listed once, and the node
  -- itself never among them.
  run_services-HasPeers :
      (ops : List (ServiceOp x me)) (s : Service x me)
      → HasPeers x me s
      → HasPeers x me (run_services x me ops s)
  run_services-HasPeers [] s has = has
  run_services-HasPeers (op ∷ ops) s has =
      run_services-HasPeers ops (run_service x me op s) (run_service-HasPeers op s has)

  activate-active :
      (now : ℕ) (s : Service x me)
      → s.lifecycle ≡ eligible
      → has_quorum x me (expire_peers x me now s) ≡ true
      → (activate_if_quorum x me now s).lifecycle ≡ active
  unfolding activate_if_quorum readiness readiness_of advance expire_peers
  activate-active now s here quorum = ground (arith, here, quorum)

  -- A node that synchronizes gets active at once when it verifies a snapshot, its lifecycle can be
  -- saved and there is a quorum.
  pub verify_state_snapshot-active :
      (snapshot : StateSnapshot) (now : ℕ) (s : Service x me)
      → verify_state crypto snapshot ≡ ok tt
      → s.lifecycle ≡ syncing
      → (lifecycle_file.save eligible s.saved).0 ≡ ok tt
      → has_quorum x me (expire_peers x me now s) ≡ true
      → ((verify_state_snapshot x me snapshot now s).0 ≡ ok tt)
        × ((verify_state_snapshot x me snapshot now s).1.lifecycle ≡ active)
  unfolding has_quorum is_local_member live_members_of expire_peers
  verify_state_snapshot-active snapshot now s sound here saved quorum =
      elim (verify_state_snapshot-syncing x me snapshot now s sound here) [
        | inl (_, q) ↦
            (let t = record s {
              lifecycle = eligible;
              saved = (lifecycle_file.save eligible s.saved).1;
            } in
              (
                ap (λ (r : Result SyncError (Unit {0}) × Service x me). r.0) q,
                ap (λ (r : Result SyncError (Unit {0}) × Service x me). r.1.lifecycle) q
                    ∙ activate-active now t refl quorum,
              ))
        | inr (e, (k, q)) ↦ absurd (ground (arith, saved, k))
      ]
