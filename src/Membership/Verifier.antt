-- ===== src/Membership/Verifier.antt =====
-- `MembershipVerifier` of crates/kerosene-membership/src/lib.rs: its state, and `accept` with all its
-- checks.
use mathlib.Core.Option
use kerosene_node.Base.{
  Bool, List, Option, String, [], false, if◌then◌else◌, length, ltb, map, nat_eq, none, not, some,
  suc, text_eq, ℕ, ◌&&◌, ◌==◌, ◌∷◌,
}
use kerosene_node.Base.Results.{Result, ok, ok_or, reject_if, require, ◌>>=◌, ◌>>◌}
use kerosene_node.Base.Table.{Table, insert, lookup}
use kerosene_node.Base.Words.{saturating_add}
use kerosene_node.Ledger.Certificates.{Crypto}
use kerosene_node.Ledger.Chain.{outpoint_eq}
use kerosene_node.Ledger.Chart.{account_eq}
use kerosene_node.Ledger.States.{onchain_eq, reservation_state_eq, role_eq, withdrawal_status_eq}
use kerosene_node.Membership.Contracts.{
  Contracts, DiscoveryPlane, GenesisTrustBundle, ManifestMember, ManifestSignature, TrustMember,
  TrustPlane, bank, plane_eq, vault,
}
use kerosene_node.Membership.Onion.{Url}
use kerosene_node.Membership.Structure.{
  MembershipError, contract_version_error, decode_array, duplicate_identity, epoch_transition,
  has_duplicate, hash_chain, insufficient_signatures, joint_consensus_required,
  joint_roster_mismatch, scope_mismatch, signers, validate_manifest_members, validate_phase,
  validate_trust_plane,
}

-- Sixty-four zeros, `"0".repeat(64)`
abbrev pub zero_hash : String
zero_hash = "0000000000000000000000000000000000000000000000000000000000000000"

-- `iter().map(|m| (m.member_id, m.root_public_key)).collect()` into a `HashMap`
abbrev pub collect_keys : List (String × String) → Table String String → Table String String
collect_keys [] t = t
collect_keys ((id, key) ∷ ms) t = collect_keys ms (insert id key t)

abbrev pub trust_keys : List TrustMember → Table String String
trust_keys ms = collect_keys (map (λ (m : TrustMember). (m.member_id, m.root_public_key)) ms) []

abbrev pub manifest_keys : List ManifestMember → Table String String
manifest_keys ms =
    collect_keys (map (λ (m : ManifestMember). (m.member_id, m.root_public_key)) ms) []

abbrev pub count_if : {A : Type 0} → (A → Bool) → List A → ℕ
count_if p [] = 0
count_if p (x ∷ xs) = if p x then suc (count_if p xs) else count_if p xs

module _ (crypto : Crypto) (contracts : Contracts) (parse_url : String → Option Url) where
  open crypto use {hex_decode, is_key, verifies}
  open contracts use {
    Manifest, version_of, network_of, plane_of, epoch_of, next_epoch_of, is_stable, is_joint,
    previous_hash_of, members_of, threshold_of, signatures_of, same_members, canonical_hash,
    signing_bytes, member_id_for, discovery_contract_version,
  }

  pub record MembershipVerifier : Type 0 where
    pub network_id : String
    pub plane : DiscoveryPlane
    pub genesis : TrustPlane
    pub current : Option Manifest

  unfoldable pub verify_signature : String → String → Manifest → Bool
  verify_signature public_key signature m =
      elim (decode_array crypto contracts parse_url 32 public_key) [
        | none ↦ false
        | some key ↦ elim (decode_array crypto contracts parse_url 64 signature) [
          | none ↦ false
          | some bytes ↦ is_key key && verifies key (signing_bytes m) bytes
        ]
      ]

  -- The closure of `require_signatures`
  abbrev pub is_authorized : Manifest → Table String String → ManifestSignature → Bool
  is_authorized m allowed s = elim (lookup s.signer_id allowed) [
    | none ↦ false
    | some key ↦ verify_signature key s.signature m
  ]

  unfoldable pub require_signatures :
      Manifest → Table String String → ℕ → Result MembershipError (Unit {0})
  unfolding verify_signature
  require_signatures m allowed threshold =
      reject_if (ltb (count_if (is_authorized m allowed) (signatures_of m)) threshold)
        insufficient_signatures

  unfoldable pub validate_structure :
      MembershipVerifier → Manifest → Result MembershipError (Unit {0})
  validate_structure v m = do
    require (version_of m == discovery_contract_version) contract_version_error
    require ((network_of m == v.network_id) && plane_eq (plane_of m) v.plane) scope_mismatch
    validate_manifest_members crypto contracts parse_url v.network_id (members_of m)
        (threshold_of m)
    reject_if (has_duplicate [] (signers crypto contracts parse_url m)) duplicate_identity
    validate_phase crypto contracts parse_url m

  abbrev pub same_roster : Manifest → Manifest → Bool
  same_roster a b = (threshold_of a == threshold_of b) && same_members a b

  unfoldable pub require_chain : Manifest → Manifest → ℕ → Result MembershipError (Unit {0})
  require_chain current next expected_epoch = do
    require (previous_hash_of next == canonical_hash current) hash_chain
    require (epoch_of next == expected_epoch) epoch_transition

  unfoldable pub verify_initial : MembershipVerifier → Manifest → Result MembershipError (Unit {0})
  verify_initial v m = do
    require (is_stable m && (not (epoch_of m == 0) && (previous_hash_of m == zero_hash)))
        epoch_transition
    require_signatures m (trust_keys v.genesis.members) v.genesis.threshold

  -- What `verify_after_stable` asks of the roster.
  abbrev pub roster_step : Manifest → Manifest → Result MembershipError (Unit {0})
  roster_step current next =
      if is_stable next
      then require (same_roster current next) joint_consensus_required
      else require_signatures next (manifest_keys (members_of next)) (threshold_of next)

  unfoldable pub verify_after_stable : Manifest → Manifest → Result MembershipError (Unit {0})
  verify_after_stable current next = do
    require_chain current next (saturating_add (epoch_of current) 1)
    require_signatures next (manifest_keys (members_of current)) (threshold_of current)
    roster_step current next

  unfoldable pub verify_after_joint : Manifest → Manifest → Result MembershipError (Unit {0})
  verify_after_joint joint next = do
    require (is_stable next) epoch_transition
    expected_epoch ← ok_or (next_epoch_of joint) epoch_transition
    require_chain joint next expected_epoch
    require (same_roster joint next) joint_roster_mismatch
    require_signatures next (manifest_keys (members_of joint)) (threshold_of joint)

  -- The match on the current manifest in `accept`
  unfoldable pub verify_next : MembershipVerifier → Manifest → Result MembershipError (Unit {0})
  verify_next v m = elim v.current [
    | none ↦ verify_initial v m
    | some current ↦
        if is_stable current then verify_after_stable current m else verify_after_joint current m
  ]

  -- `MembershipVerifier::new`
  unfoldable pub new_verifier :
      GenesisTrustBundle → DiscoveryPlane → Result MembershipError MembershipVerifier
  new_verifier b plane = do
    require (b.contract_version == discovery_contract_version) contract_version_error
    validate_trust_plane crypto contracts parse_url b.network_id b.bank_plane
    validate_trust_plane crypto contracts parse_url b.network_id b.vault_plane
    ok (record {
      network_id = b.network_id;
      plane = plane;
      genesis = elim plane [ bank ↦ b.bank_plane | vault ↦ b.vault_plane ];
      current = none;
    })

  -- `MembershipVerifier::accept`
  unfoldable pub accept_manifest :
      MembershipVerifier → Manifest → Result MembershipError MembershipVerifier
  accept_manifest v m = do
    validate_structure v m
    verify_next v m
    ok (record v { current = some m })

  -- The loop of `MembershipVerifier::restore`
  unfoldable pub accept_all :
      MembershipVerifier → List Manifest → Result MembershipError MembershipVerifier
  accept_all v [] = ok v
  accept_all v (m ∷ ms) = accept_manifest v m >>= λ w. accept_all w ms

  -- `MembershipVerifier::restore`
  unfoldable pub restore_verifier :
      GenesisTrustBundle
      → DiscoveryPlane
      → List Manifest
      → Result MembershipError MembershipVerifier
  restore_verifier b plane ms = do v ← new_verifier b plane; accept_all v ms

  unfoldable pub current_hash : MembershipVerifier → Option String
  current_hash v = Option.map canonical_hash v.current

  unfoldable pub threshold_now : MembershipVerifier → ℕ
  threshold_now v = elim v.current [ none ↦ v.genesis.threshold | some m ↦ threshold_of m ]

  unfoldable pub member_count : MembershipVerifier → ℕ
  member_count v = elim v.current [
    | none ↦ length v.genesis.members
    | some m ↦ length (members_of m)
  ]

  unfoldable pub authorized_keys : MembershipVerifier → Table String String
  authorized_keys v = elim v.current [
    | none ↦ trust_keys v.genesis.members
    | some m ↦ manifest_keys (members_of m)
  ]

  unfoldable pub is_member : MembershipVerifier → String → String → Bool
  is_member v member key = elim (lookup member (authorized_keys v)) [
    | none ↦ false
    | some expected ↦ expected == key
  ]
