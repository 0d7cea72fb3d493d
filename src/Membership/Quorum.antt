-- ===== src/Membership/Quorum.antt =====
-- The signatures that `require_signatures` of crates/kerosene-membership/src/lib.rs counts.
use kerosene_node.Base.{
  keep, All, Bool, List, String, [], arith, false, length, map, nat_eq, refl, text_eq, true, ◌∷◌,
  ◌≡◌, Option, text_iff, ℕ, ◌≤◌,
}
use kerosene_node.Base.Results.{ok}
use kerosene_node.Base.Table.{Table}
use kerosene_node.Ledger.Certificates.{Crypto}
use kerosene_node.Ledger.Chain.{outpoint_eq}
use kerosene_node.Ledger.Chart.{account_eq}
use kerosene_node.Ledger.Machine.Intents.{AreDistinct}
use kerosene_node.Ledger.Nonces.{contains_text}
use kerosene_node.Ledger.States.{onchain_eq, reservation_state_eq, role_eq, withdrawal_status_eq}
use kerosene_node.Membership.Contracts.{ManifestSignature, Contracts}
use kerosene_node.Membership.Onion.{Url}
use kerosene_node.Membership.Structure.{has_duplicate, signers}
use kerosene_node.Membership.Verifier.{count_if, is_authorized, require_signatures}

pub length-keep : {A : Type 0} (p : A → Bool) (xs : List A) → length (keep p xs) ≡ count_if p xs
length-keep p [] = refl
length-keep p (x ∷ xs) = ground (arith, length-keep p xs)

keep-All : {A : Type 0} (p : A → Bool) (xs : List A) → All (λ x. p x ≡ true) (keep p xs)
keep-All p [] = tt
keep-All p (x ∷ xs) = ground (arith, keep-All p xs)

contains-keep :
    (p : ManifestSignature → Bool) (x : String) (xs : List ManifestSignature)
    → contains_text x (map (λ (s : ManifestSignature). s.signer_id) xs) ≡ false
    → contains_text x (map (λ (s : ManifestSignature). s.signer_id) (keep p xs)) ≡ false
contains-keep p x [] h = refl
contains-keep p x (s ∷ xs) h = ground (arith, contains-keep p x xs)

keep-AreDistinct :
    (p : ManifestSignature → Bool) (xs : List ManifestSignature)
    → AreDistinct (map (λ (s : ManifestSignature). s.signer_id) xs)
    → AreDistinct (map (λ (s : ManifestSignature). s.signer_id) (keep p xs))
keep-AreDistinct p [] h = tt
keep-AreDistinct p (s ∷ xs) h =
    ground (arith, keep-AreDistinct p xs h.1, contains-keep p s.signer_id xs h.0)

-- No later element is among those seen, nor twice in the list.
pub has_duplicate-AreDistinct :
    (taken xs : List String)
    → has_duplicate taken xs ≡ false
    → AreDistinct xs × ((x : String) → contains_text x taken ≡ true → contains_text x xs ≡ false)
has_duplicate-AreDistinct taken [] h = (tt, λ x m. refl)
has_duplicate-AreDistinct taken (y ∷ xs) h =
    let fresh : contains_text y taken ≡ false = ground arith in
    let (distinct, apart) = has_duplicate-AreDistinct (y ∷ taken) xs (ground arith) in
    (
      (apart y (ground (arith, text_iff y y)), distinct),
      λ x held. ground (arith, text_iff y x, apart x (ground (arith, held)), held, fresh),
    )

module _ (crypto : Crypto) (contracts : Contracts) (parse_url : String → Option Url) where
  open contracts use {Manifest, signatures_of}

  -- At least `threshold` signatures on the manifest, each by the key on file for its signer, and no
  -- two by one signer.
  pub record HasQuorum (m : Manifest) (keys : Table String String) (threshold : ℕ) : Type 0 where
    pub signatures : List ManifestSignature
    pub enough : threshold ≤ length signatures
    pub distinct : AreDistinct (map (λ (s : ManifestSignature). s.signer_id) signatures)
    pub authorized : All (λ s. is_authorized crypto contracts parse_url m keys s ≡ true) signatures

  pub require_signatures-HasQuorum :
      (m : Manifest) (keys : Table String String) (threshold : ℕ)
      → has_duplicate [] (signers crypto contracts parse_url m) ≡ false
      → require_signatures crypto contracts parse_url m keys threshold ≡ ok tt
      → HasQuorum m keys threshold
  unfolding require_signatures
  require_signatures-HasQuorum m keys threshold unique h =
      let p = is_authorized crypto contracts parse_url m keys in
      record {
        signatures = keep p (signatures_of m);
        enough = ground (arith, length-keep p (signatures_of m), h);
        distinct =
            keep-AreDistinct p (signatures_of m)
              (has_duplicate-AreDistinct [] (signers crypto contracts parse_url m) unique).0;
        authorized = keep-All p (signatures_of m);
      }
