-- ===== src/Membership/Tests.antt =====
-- Runs of crates/kerosene-membership/src/lib.rs with four manifests over one member, whose hashes and
-- signatures are toys.
use kerosene_node.Base.{
  Bool, List, Option, String, [], arith, false, if◌then◌else◌, length, nat_eq, none, not, refl,
  some, text_eq, true, ℕ, ◌++◌, ◌-◌, ◌<◌, ◌==◌, ◌∷◌, ◌≡◌, ◌≤◌, ◌⊎◌,
}
use kerosene_node.Base.Results.{ok}
use kerosene_node.Base.Text.{as_bytes}
use kerosene_node.Base.Words.{u64_mod}
use kerosene_node.Ledger.Certificates.{Crypto}
use kerosene_node.Ledger.Chain.{outpoint_eq}
use kerosene_node.Ledger.Chart.{account_eq}
use kerosene_node.Ledger.States.{onchain_eq, reservation_state_eq, role_eq, withdrawal_status_eq}
use kerosene_node.Membership.Contracts.{Contracts, GenesisTrustBundle, IsLawful, TrustPlane, bank}
use kerosene_node.Membership.Epochs.{accept_all-HasRoster, accept_all-epochs, AllRise}
use kerosene_node.Membership.History.{accept_manifest-Follows}
use kerosene_node.Membership.Members.{IsWellFormed, restore_verifier-IsWellFormed}
use kerosene_node.Membership.Onion.{Url, validate_onion_endpoint}
use kerosene_node.Membership.Roster.{Follows, HasRoster}
use kerosene_node.Membership.Structure.{
  validate_each_member, validate_manifest_members, validate_member, validate_trust_members,
  validate_trust_plane,
}
use kerosene_node.Membership.Verifier.{
  MembershipVerifier, accept_all, accept_manifest, new_verifier, require_chain, require_signatures,
  restore_verifier, validate_structure, verify_after_joint, verify_after_stable, verify_initial,
  verify_next, verify_signature, zero_hash,
}

-- A founding manifest, one that keeps its roster, a joint one, and the one that settles it.
pub data Toy : Type 0 where
  founding again proposing settling : Toy

abbrev toy_epoch : Toy → ℕ
toy_epoch founding = 1
toy_epoch again = 2
toy_epoch proposing = 2
toy_epoch settling = 3

abbrev toy_next : Toy → Option ℕ
toy_next proposing = some 3
toy_next _ = none

abbrev toy_joint : Toy → Bool
toy_joint proposing = true
toy_joint _ = false

abbrev toy_previous : Toy → String
toy_previous founding = zero_hash
toy_previous _ = "h"

abbrev pub bytes_32 : List ℕ
bytes_32 =
    0 ∷ 0 ∷ 0 ∷ 0 ∷ 0 ∷ 0 ∷ 0 ∷ 0 ∷ 0 ∷ 0 ∷ 0 ∷ 0 ∷ 0 ∷ 0 ∷ 0 ∷ 0 ∷ 0 ∷ 0 ∷ 0 ∷ 0 ∷ 0 ∷ 0 ∷ 0 ∷ 0
    ∷ 0 ∷ 0 ∷ 0 ∷ 0 ∷ 0 ∷ 0 ∷ 0 ∷ 0 ∷ []

abbrev pub toy_hex : Crypto
toy_hex = record {
  sha256 = λ bs. length bs ∷ [];
  hex_encode = λ bs. if length bs == 32 then "key" else "sig";
  hex_decode = λ s. some (if s == "key" then bytes_32 else bytes_32 ++ bytes_32);
  is_key = λ bs. true;
  verifies = λ key message signature. true;
}

abbrev pub toy_contracts : Contracts
toy_contracts = record {
  discovery_contract_version = "v1";
  Manifest = Toy;
  version_of = λ m. "v1";
  network_of = λ m. "net";
  plane_of = λ m. bank;
  epoch_of = toy_epoch;
  next_epoch_of = toy_next;
  is_stable = λ m. not (toy_joint m);
  is_joint = toy_joint;
  previous_hash_of = toy_previous;
  members_of = λ m. record { member_id = "n1"; root_public_key = "key"; endpoint = "e" } ∷ [];
  threshold_of = λ m. 1;
  signatures_of = λ m. record { signer_id = "n1"; signature = "sig" } ∷ [];
  same_members = λ a b. true;
  canonical_hash = λ m. "h";
  signing_bytes = λ m. [];
  member_id_for = λ network key. "n1";
}

abbrev pub toy_url : String → Option Url
toy_url s = some (record {
  scheme = "https";
  username = "";
  password = none;
  query = none;
  fragment = none;
  path = "/";
  host_str = some "aaaaaaaaaaaaaaaaaaaaaaaaaaaaaaaaaaaaaaaaaaaaaaaaaaaaaaaa.onion";
})

toy-IsLawful : IsLawful toy_contracts
toy-IsLawful = record {
  same_members_iff = λ a b. (λ h. refl, λ h. refl);
  epoch_bound = λ m. toy_bound m;
  next_epoch_bound = λ m e h. next_bound m e h;
  two_phases = λ m h. phases m h;
}
  where
    toy_bound : (m : Toy) → toy_epoch m < u64_mod
    toy_bound founding = omega arith
    toy_bound again = omega arith
    toy_bound proposing = omega arith
    toy_bound settling = omega arith

    next_bound : (m : Toy) (e : ℕ) → toy_next m ≡ some e → e < u64_mod
    next_bound proposing e h = ground (arith, h)
    next_bound _ e h = ground (arith, h)

    phases : (m : Toy) → not (toy_joint m) ≡ false → toy_joint m ≡ true
    phases proposing h = refl
    phases _ h = ground (arith, h)

abbrev toy_plane : TrustPlane
toy_plane = record {
  threshold = 1;
  members = record { member_id = "n1"; root_public_key = "key" } ∷ [];
}

abbrev toy_bundle : GenesisTrustBundle
toy_bundle = record {
  contract_version = "v1";
  network_id = "net";
  bank_plane = toy_plane;
  vault_plane = toy_plane;
}

abbrev pub at_manifest : Option Toy → MembershipVerifier toy_hex toy_contracts toy_url
at_manifest current = record {
  network_id = "net";
  plane = bank;
  genesis = toy_plane;
  current = current;
}

proposed :
    accept_manifest toy_hex toy_contracts toy_url (at_manifest (some founding)) proposing
    ≡ ok (at_manifest (some proposing))
unfolding accept_manifest validate_structure validate_manifest_members validate_each_member
    validate_member validate_onion_endpoint verify_next verify_after_stable require_chain
    require_signatures verify_signature as_bytes
proposed = refl

accept_manifest-Follows_example :
    (at_manifest (some proposing)
      ≡ record (at_manifest (some founding)) { current = some proposing })
    × ((validate_structure toy_hex toy_contracts toy_url (at_manifest (some founding)) proposing
          ≡ ok tt)
        × Follows toy_hex toy_contracts toy_url toy_plane proposing (some founding))
accept_manifest-Follows_example =
    accept_manifest-Follows toy_hex toy_contracts toy_url toy-IsLawful (at_manifest (some founding))
      (at_manifest (some proposing)) proposing proposed

changed :
    accept_all toy_hex toy_contracts toy_url
      (at_manifest none)
      (founding ∷ proposing ∷ settling ∷ [])
    ≡ ok (at_manifest (some settling))
unfolding accept_all accept_manifest validate_structure validate_manifest_members
    validate_each_member validate_member validate_onion_endpoint verify_next verify_initial
    verify_after_stable verify_after_joint require_chain require_signatures verify_signature
    as_bytes
changed = refl

accept_all-epochs_example :
    (0 < toy_epoch founding)
    × (AllRise toy_hex toy_contracts toy_url toy-IsLawful
          (toy_epoch founding)
          (proposing ∷ settling ∷ [])
        × ((d : Toy) × ((some settling ≡ some d)
              × ((3 ≤ toy_epoch d) ⊎ (toy_epoch d ≡ u64_mod - 1)))))
accept_all-epochs_example =
    accept_all-epochs toy_hex toy_contracts toy_url toy-IsLawful (at_manifest none)
      (at_manifest (some settling)) founding (proposing ∷ settling ∷ []) refl changed

repeated :
    accept_all toy_hex toy_contracts toy_url (at_manifest (some founding)) (again ∷ [])
    ≡ ok (at_manifest (some again))
unfolding accept_all accept_manifest validate_structure validate_manifest_members
    validate_each_member validate_member validate_onion_endpoint verify_next verify_after_stable
    require_chain require_signatures verify_signature as_bytes
repeated = refl

accept_all-HasRoster_example :
    (d : Toy) × ((some again ≡ some d) × HasRoster toy_hex toy_contracts toy_url founding d)
accept_all-HasRoster_example =
    accept_all-HasRoster toy_hex toy_contracts toy_url toy-IsLawful (at_manifest (some founding))
      (at_manifest (some again)) founding (again ∷ []) refl refl (refl, tt) repeated

restored :
    restore_verifier toy_hex toy_contracts toy_url toy_bundle bank (founding ∷ proposing ∷ [])
    ≡ ok (at_manifest (some proposing))
unfolding restore_verifier new_verifier validate_trust_plane validate_trust_members accept_all
    accept_manifest validate_structure validate_manifest_members validate_each_member
    validate_member validate_onion_endpoint verify_next verify_initial verify_after_stable
    require_chain require_signatures verify_signature as_bytes
restored = refl

restore_verifier-IsWellFormed_example :
    IsWellFormed toy_hex toy_contracts toy_url (at_manifest (some proposing))
restore_verifier-IsWellFormed_example =
    restore_verifier-IsWellFormed toy_hex toy_contracts toy_url toy-IsLawful toy_bundle bank
      (founding ∷ proposing ∷ []) (at_manifest (some proposing)) restored
