-- ===== src/Membership/Roster.antt =====
-- Which manifests `accept` of crates/kerosene-membership/src/lib.rs lets follow one another.
use kerosene_node.Base.{
  Option, String, arith, false, nat_beq_iff, nat_eq, none, some, text_eq, text_iff, true, ℕ, ◌<◌,
  ◌==◌, ◌≡◌, Bool-cases, Option-cases, [], inl, inr,
}
use kerosene_node.Base.Results.{ok, require, require-ok, then-ok}
use kerosene_node.Base.Words.{saturating_add}
use kerosene_node.Ledger.Certificates.{Crypto}
use kerosene_node.Ledger.Chain.{outpoint_eq}
use kerosene_node.Ledger.Chart.{account_eq}
use kerosene_node.Ledger.States.{onchain_eq, reservation_state_eq, role_eq, withdrawal_status_eq}
use kerosene_node.Membership.Contracts.{Contracts, IsLawful, TrustPlane}
use kerosene_node.Membership.Onion.{Url}
use kerosene_node.Membership.Quorum.{HasQuorum, require_signatures-HasQuorum}
use kerosene_node.Membership.Structure.{epoch_transition, hash_chain, has_duplicate, signers}
use kerosene_node.Membership.Verifier.{
  manifest_keys, require_chain, same_roster, trust_keys, MembershipVerifier, require_signatures,
  roster_step, verify_after_joint, verify_after_stable, verify_initial, zero_hash,
}

module _ (crypto : Crypto) (contracts : Contracts) (parse_url : String → Option Url) where
  open contracts use {
    Manifest, epoch_of, next_epoch_of, is_stable, previous_hash_of, members_of, threshold_of,
    canonical_hash,
  }

  -- `next` names the hash of `current`, and has the epoch expected.
  pub record IsChained (current next : Manifest) (expected_epoch : ℕ) : Type 0 where
    pub linked : previous_hash_of next ≡ canonical_hash current
    pub numbered : epoch_of next ≡ expected_epoch

  pub record HasRoster (current next : Manifest) : Type 0 where
    pub same_threshold : threshold_of current ≡ threshold_of next
    pub same_list : members_of current ≡ members_of next

  -- Signed by the threshold of the members that a manifest names.
  abbrev pub IsSignedByRoster : Manifest → Manifest → Type 0
  IsSignedByRoster m roster =
      HasQuorum crypto contracts parse_url m (manifest_keys (members_of roster))
        (threshold_of roster)

  pub data Follows (genesis : TrustPlane) (m : Manifest) : Option Manifest → Type 0 where
    initial :
        is_stable m ≡ true
        → 0 < epoch_of m
        → previous_hash_of m ≡ zero_hash
        → HasQuorum crypto contracts parse_url m (trust_keys genesis.members) genesis.threshold
        → Follows genesis m none
    kept :
        (c : Manifest)
        → (is_stable c ≡ true) × (is_stable m ≡ true)
        → IsChained c m (saturating_add (epoch_of c) 1)
        → HasRoster c m
        → IsSignedByRoster m c
        → Follows genesis m (some c)
    joined :
        (c : Manifest)
        → (is_stable c ≡ true) × (is_stable m ≡ false)
        → IsChained c m (saturating_add (epoch_of c) 1)
        → IsSignedByRoster m c
        → IsSignedByRoster m m
        → Follows genesis m (some c)
    settled :
        (c : Manifest) (expected_epoch : ℕ)
        → (is_stable c ≡ false) × (is_stable m ≡ true)
        → next_epoch_of c ≡ some expected_epoch
        → IsChained c m expected_epoch
        → HasRoster c m
        → IsSignedByRoster m c
        → Follows genesis m (some c)

  require_chain-IsChained :
      (c m : Manifest) (expected_epoch : ℕ)
      → require_chain crypto contracts parse_url c m expected_epoch ≡ ok tt
      → IsChained c m expected_epoch
  unfolding require_chain
  require_chain-IsChained c m expected_epoch h =
      let (link, number) =
        then-ok (require (previous_hash_of m == canonical_hash c) hash_chain)
          (require (epoch_of m == expected_epoch) epoch_transition) tt h in
      record {
        linked =
            (text_iff (previous_hash_of m) (canonical_hash c)).0 (require-ok _ hash_chain link);
        numbered =
            (nat_beq_iff (epoch_of m) expected_epoch).0 (require-ok _ epoch_transition number);
      }

  same_roster-HasRoster :
      IsLawful contracts
      → (c m : Manifest) → same_roster crypto contracts parse_url c m ≡ true
      → HasRoster c m
  same_roster-HasRoster lawful c m h = record {
    same_threshold = ground (arith, h);
    same_list = (lawful.same_members_iff c m).0 (ground (arith, h));
  }

  -- The verifier's checks, for a manifest whose signers are distinct.
  module _ (lawful : IsLawful contracts) (m : Manifest) where
    abbrev pub HasDistinctSigners : Type 0
    HasDistinctSigners = has_duplicate [] (signers crypto contracts parse_url m) ≡ false

    pub verify_initial-Follows :
        (v : MembershipVerifier crypto contracts parse_url)
        → HasDistinctSigners
        → verify_initial crypto contracts parse_url v m ≡ ok tt
        → Follows v.genesis m none
    unfolding verify_initial
    verify_initial-Follows v u h =
        let signed : require_signatures crypto contracts parse_url m (trust_keys v.genesis.members)
              v.genesis.threshold
            ≡ ok tt =
          ground (arith, h) in
        initial (ground (arith, h)) (ground (arith, h))
          (ground (arith, h, text_iff (previous_hash_of m) zero_hash))
          (require_signatures-HasQuorum crypto contracts parse_url m (trust_keys v.genesis.members)
            v.genesis.threshold u signed)

    pub verify_after_stable-Follows :
        (genesis : TrustPlane) (c : Manifest)
        → HasDistinctSigners
        → is_stable c ≡ true
        → verify_after_stable crypto contracts parse_url c m ≡ ok tt
        → Follows genesis m (some c)
    unfolding verify_after_stable
    verify_after_stable-Follows genesis c u stable h =
        let chain : require_chain crypto contracts parse_url c m (saturating_add (epoch_of c) 1)
            ≡ ok tt =
          ground (arith, h) in
        let signed : require_signatures crypto contracts parse_url m (manifest_keys (members_of c))
              (threshold_of c)
            ≡ ok tt =
          ground (arith, h) in
        let step : roster_step crypto contracts parse_url c m ≡ ok tt = ground (arith, h) in
        let linked = require_chain-IsChained c m (saturating_add (epoch_of c) 1) chain in
        let old =
          require_signatures-HasQuorum crypto contracts parse_url m (manifest_keys (members_of c))
            (threshold_of c) u signed in
        elim (Bool-cases (is_stable m)) [
          | inl s ↦
              kept c (stable, s) linked (same_roster-HasRoster lawful c m (ground (arith, step, s)))
                old
          | inr s ↦
              joined c (stable, s) linked old
                (require_signatures-HasQuorum crypto contracts parse_url m
                  (manifest_keys (members_of m)) (threshold_of m) u (ground (arith, step, s)))
        ]

    pub verify_after_joint-Follows :
        (genesis : TrustPlane) (c : Manifest)
        → HasDistinctSigners
        → is_stable c ≡ false
        → verify_after_joint crypto contracts parse_url c m ≡ ok tt
        → Follows genesis m (some c)
    unfolding verify_after_joint
    verify_after_joint-Follows genesis c u joint h = elim (Option-cases (next_epoch_of c)) [
      | inl missing ↦ absurd (ground (arith, h, missing))
      | inr (e, found) ↦
          (let chain : require_chain crypto contracts parse_url c m e ≡ ok tt =
              ground (arith, h, found) in
            let signed : require_signatures crypto contracts parse_url m
                  (manifest_keys (members_of c)) (threshold_of c)
                ≡ ok tt =
              ground (arith, h, found) in
            settled c e (joint, ground (arith, h, found)) found
              (require_chain-IsChained c m e chain)
              (same_roster-HasRoster lawful c m (ground (arith, h, found)))
              (require_signatures-HasQuorum crypto contracts parse_url m
                (manifest_keys (members_of c)) (threshold_of c) u signed))
    ]
