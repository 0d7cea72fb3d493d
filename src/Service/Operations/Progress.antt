-- ===== src/Service/Operations/Progress.antt =====
-- The lifecycle under the operations of `NodeService` of crates/kerosene-node/src/lib.rs.
use kerosene_node.Base.{List, String, [], arith, nat_eq, text_eq, ℕ, ◌∷◌, ◌≤◌, ap, inl, inr}
use kerosene_node.Discovery.{issue_challenge}
use kerosene_node.Identity.{PeerHello}
use kerosene_node.Ledger.Chain.{outpoint_eq}
use kerosene_node.Ledger.Chart.{account_eq}
use kerosene_node.Ledger.States.{onchain_eq, reservation_state_eq, role_eq, withdrawal_status_eq}
use kerosene_node.Service.{
  Externals, ServiceConfig, activate_if_quorum, advance_after_authentication, expire_peers,
  readiness,
}
use kerosene_node.Service.Operations.{
  Service, accept_membership, exchange_hello, observe_peer, verify_state_snapshot, admit_peer,
}
use kerosene_node.Service.Operations.Admission.{admit_peer-cases}
use kerosene_node.Service.Operations.Outcomes.{
  accept_membership-outcome, exchange_hello-state, verify_state_snapshot-outcome,
}
use kerosene_node.Sync.{
  LifecycleState, StateSnapshot, active, advance, authenticated, member_verified, stage, syncing,
  eligible,
}
use kerosene_node.Sync.Order.{advance_lem}

advance-stage : (s t : LifecycleState) → stage s ≤ stage (advance t s).1
advance-stage s t = ground (arith, advance_lem s t)

module _ (x : Externals) (me : ServiceConfig) where
  open x use {crypto, contracts, keys, parse_url, files, lifecycle_file}

  pub data ServiceOp : Type 0 where
    observing : PeerHello → ℕ → ServiceOp
    exchanging : PeerHello → String → ℕ → ServiceOp
    accepting : contracts.Manifest → ℕ → ServiceOp
    verifying : StateSnapshot → ℕ → ServiceOp
    reading : ℕ → ServiceOp
    challenging : String → ℕ → ServiceOp

  abbrev pub run_service : ServiceOp → Service x me → Service x me
  run_service (observing hello now) s = (observe_peer x me hello now s).1
  run_service (exchanging hello challenge now) s = (exchange_hello x me hello challenge now s).1
  run_service (accepting m now) s = (accept_membership x me m now s).1
  run_service (verifying snapshot now) s = (verify_state_snapshot x me snapshot now s).1
  run_service (reading now) s = (readiness x me now s).1
  run_service (challenging challenge now) s = record s {
    challenges = issue_challenge challenge now s.challenges;
  }

  abbrev pub run_services : List (ServiceOp) → Service x me → Service x me
  run_services [] s = s
  run_services (op ∷ ops) s = run_services ops (run_service op s)

  abbrev Forward : Service x me → Service x me → Type 0
  Forward s t = stage s.lifecycle ≤ stage t.lifecycle

  Forward-join : (s t u : Service x me) → Forward s t → Forward t u → Forward s u
  Forward-join s t u p q = omega (arith, p, q)

  after_authentication-Forward :
      (s : Service x me) → Forward s (advance_after_authentication x me s)
  unfolding advance_after_authentication
  after_authentication-Forward s = ground (
    arith,
    advance-stage s.lifecycle authenticated,
    advance-stage s.lifecycle member_verified,
    advance-stage (advance member_verified s.lifecycle).1 syncing,
    advance-stage (advance authenticated s.lifecycle).1 member_verified,
    advance-stage (advance member_verified (advance authenticated s.lifecycle).1).1 syncing,
  )

  activate-Forward : (now : ℕ) (s : Service x me) → Forward s (activate_if_quorum x me now s)
  unfolding activate_if_quorum readiness expire_peers
  activate-Forward now s = ground (arith, advance-stage s.lifecycle active)

  admit_peer-Forward :
      (hello : PeerHello) (now : ℕ) (s : Service x me) → Forward s (admit_peer x me hello now s).1
  admit_peer-Forward hello now s = elim (admit_peer-cases x me hello now s) [
    | inl (_, (_, refused)) ↦ ground (arith, refused.same_lifecycle)
    | inr (_, welcome) ↦ rw welcome.ends (
        omega (
          arith,
          ap stage welcome.met_lifecycle,
          after_authentication-Forward welcome.met,
          activate-Forward now (advance_after_authentication x me welcome.met),
        ))
  ]

  accept_membership-Forward :
      (m : contracts.Manifest) (now : ℕ) (s : Service x me)
      → Forward s (accept_membership x me m now s).1
  accept_membership-Forward m now s = elim (accept_membership-outcome x me m now s) [
    | inl (f, q) ↦ rw q (omega arith)
    | inr (f, (w, (_, q))) ↦
        rw q (omega (arith, activate-Forward now (record s { peer_files = f; membership = w })))
  ]

  verify_state_snapshot-Forward :
      (snapshot : StateSnapshot) (now : ℕ) (s : Service x me)
      → Forward s (verify_state_snapshot x me snapshot now s).1
  verify_state_snapshot-Forward snapshot now s =
      let t = record s { lifecycle = eligible; saved = (lifecycle_file.save eligible s.saved).1 } in
      elim (verify_state_snapshot-outcome x me snapshot now s) [
        | inl q ↦ rw q (omega arith)
        | inr (here, inl q) ↦ rw q (omega (arith, ap stage here))
        | inr (here, inr q) ↦ rw q (omega (arith, ap stage here, activate-Forward now t))
      ]

  run_service-Forward : (op : ServiceOp) (s : Service x me) → Forward s (run_service op s)
  unfolding observe_peer readiness expire_peers
  run_service-Forward (observing hello now) s = admit_peer-Forward hello now s
  run_service-Forward (exchanging hello challenge now) s =
      rw (exchange_hello-state x me hello challenge now s) (admit_peer-Forward hello now s)
  run_service-Forward (accepting m now) s = accept_membership-Forward m now s
  run_service-Forward (verifying snapshot now) s = verify_state_snapshot-Forward snapshot now s
  run_service-Forward (reading now) s = omega arith
  run_service-Forward (challenging challenge now) s = omega arith

  -- Whatever other nodes send and whatever is read, the lifecycle of the node never goes back.
  pub run_services-Forward :
      (ops : List ServiceOp) (s : Service x me)
      → stage s.lifecycle ≤ stage (run_services ops s).lifecycle
  run_services-Forward [] s = omega arith
  run_services-Forward (op ∷ ops) s =
      omega (arith, run_service-Forward op s, run_services-Forward ops (run_service op s))
