-- ===== src/Membership/Members.antt =====
-- The roster that `MembershipVerifier` of crates/kerosene-membership/src/lib.rs answers from.
use kerosene_node.Base.{
  List, Option, String, [], arith, false, if◌then◌else◌, map, nat_eq, none, refl, some, text_eq,
  text_iff, true, ◌<◌, ◌==◌, ◌↔◌, ◌∷◌, ◌≡◌, ◌≤◌, Option-cases, ap, inl, inr, subst,
}
use kerosene_node.Base.Results.{ok, bind_result-ok, ok_inj}
use kerosene_node.Base.Table.{Table, insert, lookup, lookup-insert}
use kerosene_node.Ledger.Certificates.{Crypto}
use kerosene_node.Ledger.Chain.{outpoint_eq}
use kerosene_node.Ledger.Chart.{account_eq}
use kerosene_node.Ledger.Machine.Intents.{AreDistinct}
use kerosene_node.Ledger.Nonces.{contains_text}
use kerosene_node.Ledger.States.{onchain_eq, reservation_state_eq, role_eq, withdrawal_status_eq}
use kerosene_node.Membership.Contracts.{
  Contracts, ManifestMember, TrustMember, DiscoveryPlane, GenesisTrustBundle, IsLawful, bank, vault,
}
use kerosene_node.Membership.History.{accept_manifest-Follows}
use kerosene_node.Membership.Onion.{Url}
use kerosene_node.Membership.Quorum.{has_duplicate-AreDistinct}
use kerosene_node.Membership.Structure.{
  has_duplicate, validate_each_member, validate_trust_members, validate_manifest_members,
  validate_trust_plane,
}
use kerosene_node.Membership.Verifier.{
  MembershipVerifier, authorized_keys, collect_keys, is_member, member_count, threshold_now,
  accept_all, accept_manifest, new_verifier, restore_verifier, validate_structure,
}

-- The key of the first entry for a member.
abbrev pub find_key : String → List (String × String) → Option String
find_key x [] = none
find_key x ((id, key) ∷ ms) = if id == x then some key else find_key x ms

abbrev pub or_else : {A : Type 0} → Option A → Option A → Option A
or_else none o = o
or_else (some a) _ = some a

abbrev pub ids_of : List (String × String) → List String
ids_of [] = []
ids_of ((id, _) ∷ ms) = id ∷ ids_of ms

find_key-absent :
    (x : String) (ms : List (String × String))
    → contains_text x (ids_of ms) ≡ false
    → find_key x ms ≡ none
find_key-absent x [] h = refl
find_key-absent x ((id, key) ∷ ms) h = ground (arith, find_key-absent x ms)

lookup-collect_keys :
    (x : String) (ms : List (String × String)) (t : Table String String)
    → AreDistinct (ids_of ms)
    → lookup x (collect_keys ms t) ≡ or_else (find_key x ms) (lookup x t)
lookup-collect_keys x [] t d = refl
lookup-collect_keys x ((id, key) ∷ ms) t d = ground (
  arith,
  lookup-collect_keys x ms (insert id key t) d.1,
  lookup-insert id x key t,
  find_key-absent id ms d.0,
  text_iff id x,
)

module _ (crypto : Crypto) (contracts : Contracts) (parse_url : String → Option Url) where
  open contracts use {Manifest, members_of, threshold_of}

  abbrev pub trust_entries : List TrustMember → List (String × String)
  trust_entries ms = map (λ (m : TrustMember). (m.member_id, m.root_public_key)) ms

  abbrev pub manifest_entries : List ManifestMember → List (String × String)
  manifest_entries ms = map (λ (m : ManifestMember). (m.member_id, m.root_public_key)) ms

  -- The members that the verifier goes by: the current manifest's, or those of genesis.
  abbrev pub roster_of : MembershipVerifier crypto contracts parse_url → List (String × String)
  roster_of v = elim v.current [
    | none ↦ trust_entries v.genesis.members
    | some m ↦ manifest_entries (members_of m)
  ]

  pub record IsWellFormed (v : MembershipVerifier crypto contracts parse_url) : Type 0 where
    pub low : 0 < threshold_now crypto contracts parse_url v
    pub high :
        threshold_now crypto contracts parse_url v ≤ member_count crypto contracts parse_url v
    pub distinct : AreDistinct (ids_of (roster_of v))

  trust_members-distinct :
      (network : String) (taken : List String) (ms : List TrustMember)
      → validate_trust_members crypto contracts parse_url network taken ms ≡ ok tt
      → has_duplicate taken (ids_of (trust_entries ms)) ≡ false
  unfolding validate_trust_members
  trust_members-distinct network taken [] h = refl
  trust_members-distinct network taken (m ∷ ms) h =
      ground (arith, h, trust_members-distinct network (m.member_id ∷ taken) ms)

  each_member-distinct :
      (network : String) (taken : List String) (ms : List ManifestMember)
      → validate_each_member crypto contracts parse_url network taken ms ≡ ok tt
      → has_duplicate taken (ids_of (manifest_entries ms)) ≡ false
  unfolding validate_each_member
  each_member-distinct network taken [] h = refl
  each_member-distinct network taken (m ∷ ms) h =
      ground (arith, h, each_member-distinct network (m.member_id ∷ taken) ms)

  lookup-authorized_keys :
      (v : MembershipVerifier crypto contracts parse_url) (member : String)
      → AreDistinct (ids_of (roster_of v))
      → lookup member (authorized_keys crypto contracts parse_url v) ≡ find_key member (roster_of v)
  unfolding authorized_keys
  lookup-authorized_keys v member d = elim (Option-cases v.current) [
    | inl start ↦
        ground (arith, start, d, lookup-collect_keys member (trust_entries v.genesis.members) [])
    | inr (m, now) ↦
        ground (arith, now, d, lookup-collect_keys member (manifest_entries (members_of m)) [])
  ]

  -- In a well-formed verifier a node is a member with a key exactly when the roster lists that key
  -- for it.
  is_member-find_key :
      (v : MembershipVerifier crypto contracts parse_url) (member key : String)
      → IsWellFormed v
      → (is_member crypto contracts parse_url v member key ≡ true)
        ↔ (find_key member (roster_of v) ≡ some key)
  unfolding is_member
  is_member-find_key v member key i = elim (Option-cases (find_key member (roster_of v))) [
    | inl missing ↦ ground (arith, missing, lookup-authorized_keys v member i.distinct)
    | inr (k, found) ↦
        ground (arith, found, lookup-authorized_keys v member i.distinct, text_iff k key)
  ]

  manifest-IsWellFormed :
      (v : MembershipVerifier crypto contracts parse_url) (m : Manifest)
      → v.current ≡ some m
      → (network : String)
      → validate_manifest_members crypto contracts parse_url network (members_of m) (threshold_of m)
        ≡ ok tt
      → IsWellFormed v
  unfolding threshold_now member_count validate_manifest_members
  manifest-IsWellFormed v m now network h = record {
    low = ground (arith, h, now);
    high = ground (arith, h, now);
    distinct =
        rw now
          (has_duplicate-AreDistinct [] (ids_of (manifest_entries (members_of m)))
            (each_member-distinct network [] (members_of m) (ground (arith, h)))).0;
  }

  -- Accepting a manifest keeps the verifier well-formed.
  accept_manifest-IsWellFormed :
      IsLawful contracts
      → (v w : MembershipVerifier crypto contracts parse_url) (m : Manifest)
      → accept_manifest crypto contracts parse_url v m ≡ ok w
      → IsWellFormed w
  unfolding validate_structure
  accept_manifest-IsWellFormed lawful v w m h =
      let (became, (structure, _)) =
        accept_manifest-Follows crypto contracts parse_url lawful v w m h in
      manifest-IsWellFormed w m
        (ap (λ (x : MembershipVerifier crypto contracts parse_url). x.current) became) v.network_id
        (ground (arith, structure))

  genesis-IsWellFormed :
      (v : MembershipVerifier crypto contracts parse_url)
      → v.current ≡ none
      → (network : String)
      → validate_trust_plane crypto contracts parse_url network v.genesis ≡ ok tt
      → IsWellFormed v
  unfolding threshold_now member_count validate_trust_plane
  genesis-IsWellFormed v now network h = record {
    low = ground (arith, h, now);
    high = ground (arith, h, now);
    distinct =
        rw now
          (has_duplicate-AreDistinct [] (ids_of (trust_entries v.genesis.members))
            (trust_members-distinct network [] v.genesis.members (ground (arith, h)))).0;
  }

  new_verifier-IsWellFormed :
      (b : GenesisTrustBundle) (plane : DiscoveryPlane)
      (v : MembershipVerifier crypto contracts parse_url)
      → new_verifier crypto contracts parse_url b plane ≡ ok v
      → IsWellFormed v
  unfolding new_verifier
  new_verifier-IsWellFormed b bank v h = genesis-IsWellFormed v (ground (arith, h)) b.network_id (
      let planes : validate_trust_plane crypto contracts parse_url b.network_id b.bank_plane
          ≡ ok tt =
        ground (arith, h) in
      let same : v.genesis ≡ b.bank_plane = ground (arith, h) in rw same planes)
  new_verifier-IsWellFormed b vault v h = genesis-IsWellFormed v (ground (arith, h)) b.network_id (
      let planes : validate_trust_plane crypto contracts parse_url b.network_id b.vault_plane
          ≡ ok tt =
        ground (arith, h) in
      let same : v.genesis ≡ b.vault_plane = ground (arith, h) in rw same planes)

  accept_all-IsWellFormed :
      IsLawful contracts
      → (v w : MembershipVerifier crypto contracts parse_url) (ms : List Manifest) → IsWellFormed v
      → accept_all crypto contracts parse_url v ms ≡ ok w
      → IsWellFormed w
  unfolding accept_all
  accept_all-IsWellFormed lawful v w [] i h = subst (λ x. IsWellFormed x) (ok_inj (ok v) refl h) i
  accept_all-IsWellFormed lawful v w (m ∷ ms) i h =
      let (u, (first, rest)) =
        bind_result-ok (accept_manifest crypto contracts parse_url v m)
          (λ x. accept_all crypto contracts parse_url x ms) w h in
      accept_all-IsWellFormed lawful u w ms (accept_manifest-IsWellFormed lawful v u m first) rest

  -- A verifier restored from a genesis bundle and any list of manifests has a threshold of at least
  -- one and at most its number of members, who have distinct ids.
  pub restore_verifier-IsWellFormed :
      IsLawful contracts
      → (b : GenesisTrustBundle) (plane : DiscoveryPlane) (ms : List Manifest)
        (w : MembershipVerifier crypto contracts parse_url)
      → restore_verifier crypto contracts parse_url b plane ms ≡ ok w
      → IsWellFormed w
  unfolding restore_verifier
  restore_verifier-IsWellFormed lawful b plane ms w h =
      let (v, (fresh, rest)) =
        bind_result-ok (new_verifier crypto contracts parse_url b plane)
          (λ x. accept_all crypto contracts parse_url x ms) w h in
      accept_all-IsWellFormed lawful v w ms (new_verifier-IsWellFormed b plane v fresh) rest
