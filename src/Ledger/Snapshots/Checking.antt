-- ===== src/Ledger/Snapshots/Checking.antt =====
-- What the checks of `Checkpoint::verify` of certificate.rs and of `install_snapshot` of snapshot.rs
-- accept.
use kerosene_node.Base.{
  List, Option, Option-cases, arith, inl, inr, nat_eq, some, text_eq, text_iff, ℕ, ◌↔◌, ◌≡◌,
}
use kerosene_node.Base.Results.{Result-cases, ok}
use kerosene_node.Ledger.Certificates.{Crypto, QuorumCertificate}
use kerosene_node.Ledger.Chain.{outpoint_eq}
use kerosene_node.Ledger.Chart.{account_eq}
use kerosene_node.Ledger.Roots.{compute_membership_hash, compute_state_root}
use kerosene_node.Ledger.Snapshots.{
  CertifiedSnapshot, from_state, install_certified, verify_checkpoint, verify_snapshot,
}
use kerosene_node.Ledger.State.{LedgerState}
use kerosene_node.Ledger.States.{onchain_eq, reservation_state_eq, role_eq, withdrawal_status_eq}

module _ (crypto : Crypto) (read_state : List ℕ → Option LedgerState) where
  -- A checkpoint of one state passes the check against another state exactly when both have one
  -- state root and their memberships one hash; in particular a state passes its own checkpoint.
  verify_checkpoint-from_state :
      (s t : LedgerState) (bucket : ℕ) (certificate : Option QuorumCertificate)
      → let c = from_state crypto read_state s bucket certificate in
        (verify_checkpoint crypto read_state c t ≡ ok tt) ↔ (
          (compute_state_root crypto s ≡ compute_state_root crypto t)
          × (compute_membership_hash crypto s.membership
              ≡ compute_membership_hash crypto t.membership))
  unfolding verify_checkpoint from_state
  verify_checkpoint-from_state s t bucket certificate = ground (
    arith,
    text_iff (compute_state_root crypto s) (compute_state_root crypto t),
    text_iff (compute_membership_hash crypto s.membership)
        (compute_membership_hash crypto t.membership),
  )

  -- An installed snapshot passed the basic checks, its bytes read back as the state returned, and
  -- the root it carries is that state's; and such a snapshot is installed.
  install_certified_lem :
      (n : CertifiedSnapshot) (s : LedgerState)
      → (install_certified crypto read_state n ≡ ok s) ↔ (
          (verify_snapshot crypto read_state n ≡ ok tt)
          × ((read_state n.state_bytes ≡ some s) × (compute_state_root crypto s ≡ n.state_root)))
  unfolding install_certified
  install_certified_lem n s = elim (Result-cases (verify_snapshot crypto read_state n)) [
    | inl (u, v) ↦ elim (Option-cases (read_state n.state_bytes)) [
      | inl r ↦ ground (arith, v, r)
      | inr (t, r) ↦ ground (arith, v, r, text_iff (compute_state_root crypto t) n.state_root)
    ]
    | inr (e, v) ↦ ground (arith, v)
  ]
