-- ===== src/Service/Operations/Outcomes.antt =====
-- The outcomes of the operations of `NodeService` of crates/kerosene-node/src/lib.rs, branch by branch.
use kerosene_node.Base.{
  String, arith, nat_eq, text_eq, ℕ, ap, inl, inr, ◌≡◌, Bool-cases, ◌⊎◌, false, refl, true,
}
use kerosene_node.Base.Results.{Result-cases, err, ok, is_ok, Result}
use kerosene_node.Discovery.Peers.{append_manifest}
use kerosene_node.Identity.{PeerHello}
use kerosene_node.Ledger.Chain.{outpoint_eq}
use kerosene_node.Ledger.Chart.{account_eq}
use kerosene_node.Ledger.States.{onchain_eq, reservation_state_eq, role_eq, withdrawal_status_eq}
use kerosene_node.Membership.Verifier.{accept_manifest, MembershipVerifier}
use kerosene_node.Service.{Externals, ServiceConfig, activate_if_quorum}
use kerosene_node.Service.Operations.{
  Service, accept_membership, exchange_hello, verify_state_snapshot, admit_peer, is_current_hash,
}
use kerosene_node.Sync.{
  LifecycleState, StateSnapshot, advance, syncing, SyncError, eligible, verify_state, lifecycle_eq,
}

lifecycle_eq-syncing : (l : LifecycleState) → lifecycle_eq l syncing ≡ true → l ≡ syncing
lifecycle_eq-syncing syncing h = refl
lifecycle_eq-syncing _ h = ground (arith, h)

module _ (x : Externals) (me : ServiceConfig) where
  open x use {crypto, contracts, keys, parse_url, files, lifecycle_file}

  pub exchange_hello-state :
      (hello : PeerHello) (challenge : String) (now : ℕ) (s : Service x me)
      → (exchange_hello x me hello challenge now s).1 ≡ (admit_peer x me hello now s).1
  unfolding exchange_hello
  exchange_hello-state hello challenge now s = elim (Result-cases (admit_peer x me hello now s).0) [
    | inl (_, p) ↦ ground (arith, p)
    | inr (_, p) ↦ ground (arith, p)
  ]

  -- Without an error the manifest is the service's own or was accepted, and an error leaves the
  -- membership as it was.
  pub accept_membership-outcome :
      (m : contracts.Manifest) (now : ℕ) (s : Service x me)
      → ((f : files.Files) × ((accept_membership x me m now s).1 ≡ record s { peer_files = f }))
        ⊎ ((f : files.Files) × ((w : MembershipVerifier crypto contracts parse_url)
              × ((accept_manifest crypto contracts parse_url s.membership m ≡ ok w)
                  × ((accept_membership x me m now s).1
                      ≡ activate_if_quorum x me now
                          (record s { peer_files = f; membership = w })))))
  unfolding accept_membership
  accept_membership-outcome m now s =
      elim (Bool-cases (is_current_hash x me s (contracts.canonical_hash m))) [
        | inl known ↦ inl (s.peer_files, ground (arith, known))
        | inr new ↦
            elim (Result-cases (accept_manifest crypto contracts parse_url s.membership m)) [
              | inl (w, a) ↦
                  (let appended = append_manifest contracts parse_url files m s.peer_files in
                    elim (Result-cases appended.0) [
                      | inl (_, p) ↦ inr (appended.1, (w, (a, ground (arith, new, a, p))))
                      | inr (e, p) ↦ inl (appended.1, ground (arith, new, a, p))
                    ])
              | inr (e, a) ↦ inl (s.peer_files, ground (arith, new, a))
            ]
      ]

  pub verify_state_snapshot-syncing :
      (snapshot : StateSnapshot) (now : ℕ) (s : Service x me)
      → verify_state crypto snapshot ≡ ok tt
      → s.lifecycle ≡ syncing
      → let kept = lifecycle_file.save eligible s.saved in
        let t = record s { lifecycle = eligible; saved = kept.1 } in
        ((kept.0 ≡ ok tt)
          × (verify_state_snapshot x me snapshot now s ≡ (ok tt, activate_if_quorum x me now t)))
        ⊎ ((e : SyncError) × ((kept.0 ≡ err e)
              × (verify_state_snapshot x me snapshot now s ≡ (err e, t))))
  unfolding verify_state_snapshot advance
  verify_state_snapshot-syncing snapshot now s sound here =
      elim (Result-cases (lifecycle_file.save eligible s.saved).0) [
        | inl (_, k) ↦ inl (k, ground (arith, sound, here, k))
        | inr (e, k) ↦ inr (e, (k, ground (arith, sound, here, k)))
      ]

  verify_state_snapshot-refused :
      (snapshot : StateSnapshot) (now : ℕ) (s : Service x me)
      → (is_ok (verify_state crypto snapshot) ≡ false) ⊎ (lifecycle_eq s.lifecycle syncing ≡ false)
      → (verify_state_snapshot x me snapshot now s).1 ≡ s
  unfolding verify_state_snapshot
  verify_state_snapshot-refused snapshot now s bad =
      elim (Result-cases (verify_state crypto snapshot)) [
        | inl (_, v) ↦ ground (arith, v, bad)
        | inr (e, v) ↦ ground (arith, v)
      ]

  pub verify_state_snapshot-outcome :
      (snapshot : StateSnapshot) (now : ℕ) (s : Service x me)
      → let t = record s {
        lifecycle = eligible;
        saved = (lifecycle_file.save eligible s.saved).1;
      } in
        let after = (verify_state_snapshot x me snapshot now s).1 in
        (after ≡ s)
        ⊎ ((s.lifecycle ≡ syncing) × ((after ≡ t) ⊎ (after ≡ activate_if_quorum x me now t)))
  verify_state_snapshot-outcome snapshot now s =
      elim (Result-cases (verify_state crypto snapshot)) [
        | inl (_, v) ↦ elim (Bool-cases (lifecycle_eq s.lifecycle syncing)) [
          | inl here ↦
              (let there = lifecycle_eq-syncing s.lifecycle here in
                elim (verify_state_snapshot-syncing snapshot now s v there) [
                  | inl (_, q) ↦
                      inr (
                        there,
                        inr (ap (λ (r : Result SyncError (Unit {0}) × Service x me). r.1) q),
                      )
                  | inr (_, (_, q)) ↦
                      inr (
                        there,
                        inl (ap (λ (r : Result SyncError (Unit {0}) × Service x me). r.1) q),
                      )
                ])
          | inr elsewhere ↦ inl (verify_state_snapshot-refused snapshot now s (inr elsewhere))
        ]
        | inr (e, v) ↦ inl (verify_state_snapshot-refused snapshot now s (inl (ground (arith, v))))
      ]
