-- ===== src/Membership/Contracts.antt =====
-- What crates/kerosene-membership and crates/kerosene-discovery use of the crate kerosene_contracts:
-- the types as far as their fields are read, and the functions as operations of an interface.
use kerosene_node.Base.{
  Bool, List, Option, String, false, nat_eq, text_eq, true, ℕ, ◌↔◌, ◌≡◌, some, ◌<◌,
}
use kerosene_node.Base.Words.{u64_mod}
use kerosene_node.Ledger.Chain.{outpoint_eq}
use kerosene_node.Ledger.Chart.{account_eq}
use kerosene_node.Ledger.States.{onchain_eq, reservation_state_eq, role_eq, withdrawal_status_eq}

pub data DiscoveryPlane : Type 0 where
  bank vault : DiscoveryPlane

abbrev pub plane_eq : DiscoveryPlane → DiscoveryPlane → Bool
plane_eq bank bank = true
plane_eq vault vault = true
plane_eq _ _ = false

pub record TrustMember : Type 0 where
  pub member_id : String
  pub root_public_key : String

pub record TrustPlane : Type 0 where
  pub threshold : ℕ
  pub members : List TrustMember

pub record GenesisTrustBundle : Type 0 where
  pub contract_version : String
  pub network_id : String
  pub bank_plane : TrustPlane
  pub vault_plane : TrustPlane

pub record ManifestMember : Type 0 where
  pub member_id : String
  pub root_public_key : String
  pub endpoint : String

pub record ManifestSignature : Type 0 where
  pub signer_id : String
  pub signature : String

-- `MembershipManifestV1` with its fields, and the functions on it.
pub record Contracts : Type 1 where
  pub discovery_contract_version : String
  pub Manifest : Type 0
  pub version_of : Manifest → String
  pub network_of : Manifest → String
  pub plane_of : Manifest → DiscoveryPlane
  pub epoch_of : Manifest → ℕ
  pub next_epoch_of : Manifest → Option ℕ
  -- `phase == MembershipPhase::Stable` and `phase == MembershipPhase::Joint`
  pub is_stable : Manifest → Bool
  pub is_joint : Manifest → Bool
  pub previous_hash_of : Manifest → String
  pub members_of : Manifest → List ManifestMember
  pub threshold_of : Manifest → ℕ
  pub signatures_of : Manifest → List ManifestSignature
  -- `left.members == right.members`
  pub same_members : Manifest → Manifest → Bool
  pub canonical_hash : Manifest → String
  pub signing_bytes : Manifest → List ℕ
  -- `member_id(network, key)`
  pub member_id_for : String → List ℕ → String

-- What the source relies on: the derived `PartialEq` on the list of members, epochs that are `u64`,
-- and a phase that is stable or joint.
pub record IsLawful (contracts : Contracts) : Type 0 where
  pub same_members_iff :
      (a b : contracts.Manifest)
      → (contracts.same_members a b ≡ true) ↔ (contracts.members_of a ≡ contracts.members_of b)
  pub epoch_bound : (m : contracts.Manifest) → contracts.epoch_of m < u64_mod
  pub next_epoch_bound :
      (m : contracts.Manifest) (e : ℕ) → contracts.next_epoch_of m ≡ some e → e < u64_mod
  pub two_phases :
      (m : contracts.Manifest) → contracts.is_stable m ≡ false → contracts.is_joint m ≡ true
