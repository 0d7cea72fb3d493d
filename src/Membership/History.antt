-- ===== src/Membership/History.antt =====
-- The histories of manifests that `MembershipVerifier` of crates/kerosene-membership/src/lib.rs
-- accepts.
use kerosene_node.Base.{
  Bool-cases, List, Option, Option-cases, String, [], ap, arith, false, inl, inr, nat_eq, refl,
  some, text_eq, ◌∷◌, ◌≡◌, subst,
}
use kerosene_node.Base.Results.{bind_result-ok, ok, ok_inj}
use kerosene_node.Ledger.Certificates.{Crypto}
use kerosene_node.Ledger.Chain.{outpoint_eq}
use kerosene_node.Ledger.Chart.{account_eq}
use kerosene_node.Ledger.States.{onchain_eq, reservation_state_eq, role_eq, withdrawal_status_eq}
use kerosene_node.Membership.Contracts.{Contracts, IsLawful, TrustPlane}
use kerosene_node.Membership.Onion.{Url}
use kerosene_node.Membership.Roster.{
  Follows, verify_after_joint-Follows, verify_after_stable-Follows, verify_initial-Follows,
}
use kerosene_node.Membership.Structure.{has_duplicate, signers, validate_phase}
use kerosene_node.Membership.Verifier.{
  MembershipVerifier, accept_all, accept_manifest, validate_structure, verify_next,
}

module _ (crypto : Crypto) (contracts : Contracts) (parse_url : String → Option Url) where
  open contracts use {Manifest, epoch_of, next_epoch_of, is_stable, members_of, threshold_of}

  structure-distinct :
      (v : MembershipVerifier crypto contracts parse_url) (m : Manifest)
      → validate_structure crypto contracts parse_url v m ≡ ok tt
      → has_duplicate [] (signers crypto contracts parse_url m) ≡ false
  unfolding validate_structure
  structure-distinct v m h = ground (arith, h)

  structure-phase :
      (v : MembershipVerifier crypto contracts parse_url) (m : Manifest)
      → validate_structure crypto contracts parse_url v m ≡ ok tt
      → validate_phase crypto contracts parse_url m ≡ ok tt
  unfolding validate_structure
  structure-phase v m h = ground (arith, h)

  verify_next-Follows :
      IsLawful contracts
      → (v : MembershipVerifier crypto contracts parse_url) (m : Manifest)
      → has_duplicate [] (signers crypto contracts parse_url m) ≡ false
      → verify_next crypto contracts parse_url v m ≡ ok tt
      → Follows crypto contracts parse_url v.genesis m v.current
  unfolding verify_next
  verify_next-Follows lawful v m u h = elim (Option-cases v.current) [
    | inl start ↦
        rw start (
          verify_initial-Follows crypto contracts parse_url lawful m v u (ground (arith, h, start)))
    | inr (c, now) ↦ rw now (elim (Bool-cases (is_stable c)) [
      | inl s ↦
          verify_after_stable-Follows crypto contracts parse_url lawful m v.genesis c u s
            (ground (arith, h, now, s))
      | inr s ↦
          verify_after_joint-Follows crypto contracts parse_url lawful m v.genesis c u s
            (ground (arith, h, now, s))
    ])
  ]

  -- An accepted manifest becomes the current one and nothing else changes, and it passed the checks
  -- of its structure. With no manifest before it, it is stable, of a positive epoch, names the zero
  -- hash and is signed by the threshold of the genesis members; its own roster is not compared with
  -- theirs. After another manifest, it names that one's hash, has the epoch expected, and is signed
  -- by the threshold of that one's members; it has their roster, unless it is a joint manifest after
  -- a stable one, which is signed by the threshold of its own roster as well.
  pub accept_manifest-Follows :
      IsLawful contracts
      → (v w : MembershipVerifier crypto contracts parse_url) (m : Manifest)
      → accept_manifest crypto contracts parse_url v m ≡ ok w
      → (w ≡ record v { current = some m })
        × ((validate_structure crypto contracts parse_url v m ≡ ok tt)
            × Follows crypto contracts parse_url v.genesis m v.current)
  unfolding accept_manifest
  accept_manifest-Follows lawful v w m h =
      let structure : validate_structure crypto contracts parse_url v m ≡ ok tt =
        ground (arith, h) in
      let next : verify_next crypto contracts parse_url v m ≡ ok tt = ground (arith, h) in
      let moved : w ≡ record v { current = some m } = ground (arith, h, structure, next) in
      (moved, (structure, verify_next-Follows lawful v m (structure-distinct v m structure) next))

  -- From one current manifest to another, by the manifests accepted in between.
  pub data Reaches (genesis : TrustPlane)
      : Option Manifest → List Manifest → Option Manifest → Type 0 where
    done : (c : Option Manifest) → Reaches genesis c [] c
    step :
        (c d : Option Manifest) (m : Manifest) (ms : List Manifest)
        → validate_phase crypto contracts parse_url m ≡ ok tt
        → Follows crypto contracts parse_url genesis m c
        → Reaches genesis (some m) ms d
        → Reaches genesis c (m ∷ ms) d

  pub accept_all-Reaches :
      IsLawful contracts
      → (v w : MembershipVerifier crypto contracts parse_url) (ms : List Manifest)
      → accept_all crypto contracts parse_url v ms ≡ ok w
      → Reaches v.genesis v.current ms w.current
  unfolding accept_all
  accept_all-Reaches lawful v w [] h =
      rw
        (ap (λ (x : MembershipVerifier crypto contracts parse_url). x.current)
          (ok_inj (ok v) refl h))
        (done w.current)
  accept_all-Reaches lawful v w (m ∷ ms) h =
      let (u, (first, rest)) =
        bind_result-ok (accept_manifest crypto contracts parse_url v m)
          (λ x. accept_all crypto contracts parse_url x ms) w h in
      let (moved, (structure, follows)) = accept_manifest-Follows lawful v u m first in
      step v.current w.current m ms (structure-phase v m structure) follows (
        subst
          (λ (x : MembershipVerifier crypto contracts parse_url).
            Reaches x.genesis x.current ms w.current)
          moved (accept_all-Reaches lawful u w ms rest))
