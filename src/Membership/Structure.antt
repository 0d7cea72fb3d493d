-- ===== src/Membership/Structure.antt =====
-- The checks of crates/kerosene-membership/src/lib.rs on one trust plane or one manifest by itself.
use kerosene_node.Base.{
  Bool, List, Option, String, [], false, if◌then◌else◌, is_some, leb, length, ltb, map, nat_eq,
  none, some, text_eq, true, ℕ, ◌==◌, ◌||◌, ◌∷◌,
}
use kerosene_node.Base.Results.{Result, err, ok, ok_or, reject_if, require, ◌>>=◌, ◌>>◌}
use kerosene_node.Ledger.Certificates.{Crypto}
use kerosene_node.Ledger.Chain.{outpoint_eq}
use kerosene_node.Ledger.Chart.{account_eq}
use kerosene_node.Ledger.Nonces.{contains_text}
use kerosene_node.Ledger.States.{onchain_eq, reservation_state_eq, role_eq, withdrawal_status_eq}
use kerosene_node.Membership.Contracts.{
  Contracts, ManifestMember, ManifestSignature, TrustMember, TrustPlane,
}
use kerosene_node.Membership.Onion.{Url, validate_onion_endpoint}

pub data MembershipError : Type 0 where
  contract_version_error scope_mismatch invalid_threshold member_id_mismatch : MembershipError
  invalid_endpoint duplicate_identity hash_chain epoch_transition : MembershipError
  joint_consensus_required joint_roster_mismatch insufficient_signatures : MembershipError

-- `iter().any(|s| !signers.insert(&s.signer_id))`
abbrev pub has_duplicate : List String → List String → Bool
has_duplicate taken [] = false
has_duplicate taken (x ∷ xs) = if contains_text x taken then true else has_duplicate (x ∷ taken) xs

module _ (crypto : Crypto) (contracts : Contracts) (parse_url : String → Option Url) where
  open crypto use {hex_decode, is_key, verifies}
  open contracts use {
    Manifest, version_of, network_of, plane_of, epoch_of, next_epoch_of, is_stable, is_joint,
    previous_hash_of, members_of, threshold_of, signatures_of, same_members, canonical_hash,
    signing_bytes, member_id_for, discovery_contract_version,
  }

  -- `decode_array::<N>`
  abbrev pub decode_array : ℕ → String → Option (List ℕ)
  decode_array n text = elim (hex_decode text) [
    | none ↦ none
    | some bytes ↦ if length bytes == n then some bytes else none
  ]

  unfoldable pub validate_member : String → String → String → Result MembershipError (Unit {0})
  validate_member network id key = do
    bytes ← ok_or (decode_array 32 key) member_id_mismatch
    require (member_id_for network bytes == id) member_id_mismatch

  -- The loop of `validate_trust_plane`
  unfoldable pub validate_trust_members :
      String → List String → List TrustMember → Result MembershipError (Unit {0})
  validate_trust_members network taken [] = ok tt
  validate_trust_members network taken (m ∷ ms) = do
    validate_member network m.member_id m.root_public_key
    reject_if (contains_text m.member_id taken) duplicate_identity
    validate_trust_members network (m.member_id ∷ taken) ms

  unfoldable pub validate_trust_plane : String → TrustPlane → Result MembershipError (Unit {0})
  validate_trust_plane network p = do
    reject_if ((p.threshold == 0) || ltb (length p.members) p.threshold) invalid_threshold
    validate_trust_members network [] p.members

  -- The loop of `validate_manifest_members`
  unfoldable pub validate_each_member :
      String → List String → List ManifestMember → Result MembershipError (Unit {0})
  validate_each_member network taken [] = ok tt
  validate_each_member network taken (m ∷ ms) = do
    validate_member network m.member_id m.root_public_key
    validate_onion_endpoint parse_url invalid_endpoint m.endpoint
    reject_if (contains_text m.member_id taken) duplicate_identity
    validate_each_member network (m.member_id ∷ taken) ms

  unfoldable pub validate_manifest_members :
      String → List ManifestMember → ℕ → Result MembershipError (Unit {0})
  validate_manifest_members network ms threshold = do
    reject_if ((threshold == 0) || ltb (length ms) threshold) invalid_threshold
    validate_each_member network [] ms

  -- The match on the phase at the end of `validate_structure`
  abbrev pub validate_phase : Manifest → Result MembershipError (Unit {0})
  validate_phase m =
      if is_stable m
      then reject_if (is_some (next_epoch_of m)) epoch_transition
      else if is_joint m
      then elim (next_epoch_of m) [
        | none ↦ err epoch_transition
        | some next ↦ reject_if (leb next (epoch_of m)) epoch_transition
      ]
      else ok tt

  abbrev pub signers : Manifest → List String
  signers m = map (λ (s : ManifestSignature). s.signer_id) (signatures_of m)
