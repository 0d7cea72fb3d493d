-- ===== src/Membership/Epochs.antt =====
-- How the epochs and the roster of `MembershipVerifier` of crates/kerosene-membership/src/lib.rs move.
use kerosene_node.Base.{
  [], List, Option, String, arith, inl, length, nat_eq, some, text_eq, ℕ, ◌+◌, ◌-◌, ◌<◌, ◌≡◌, ◌≤◌,
  ◌⊎◌, All, none, refl, true, ◌∙◌, ◌∷◌,
}
use kerosene_node.Base.Results.{ok}
use kerosene_node.Base.Words.{u64_mod}
use kerosene_node.Ledger.Certificates.{Crypto}
use kerosene_node.Ledger.Chain.{outpoint_eq}
use kerosene_node.Ledger.Chart.{account_eq}
use kerosene_node.Ledger.States.{onchain_eq, reservation_state_eq, role_eq, withdrawal_status_eq}
use kerosene_node.Membership.Contracts.{Contracts, IsLawful, TrustPlane}
use kerosene_node.Membership.History.{Reaches, done, step, accept_all-Reaches}
use kerosene_node.Membership.Onion.{Url}
use kerosene_node.Membership.Roster.{Follows, joined, kept, settled, HasRoster, initial}
use kerosene_node.Membership.Structure.{validate_phase}
use kerosene_node.Membership.Verifier.{MembershipVerifier, accept_all}

module _ (crypto : Crypto) (contracts : Contracts) (parse_url : String → Option Url)
    (lawful : IsLawful contracts) where
  open contracts use {
    Manifest, epoch_of, next_epoch_of, is_stable, is_joint, members_of, threshold_of,
  }

  -- The epoch rises, or stands at the largest `u64`.
  abbrev pub Rises : ℕ → ℕ → Type 0
  Rises e f = (e < f) ⊎ ((e ≡ u64_mod - 1) × (f ≡ u64_mod - 1))

  Follows-Rises :
      (genesis : TrustPlane) (m c : Manifest)
      → validate_phase crypto contracts parse_url c ≡ ok tt
      → Follows crypto contracts parse_url genesis m (some c)
      → Rises (epoch_of c) (epoch_of m)
  Follows-Rises genesis m c phase (kept d s chain roster signed) =
      ground (arith, chain.numbered, lawful.epoch_bound c)
  Follows-Rises genesis m c phase (joined d s chain old new) =
      ground (arith, chain.numbered, lawful.epoch_bound c)
  Follows-Rises genesis m c phase (settled d e s next chain roster signed) = ground (
    arith,
    chain.numbered,
    next,
    s.0,
    phase,
    lawful.two_phases c s.0,
    lawful.next_epoch_bound c e next,
  )

  -- Each manifest of the list has a higher epoch than the one before it.
  abbrev pub AllRise : ℕ → List Manifest → Type 0
  AllRise e [] = Unit
  AllRise e (m ∷ ms) = Rises e (epoch_of m) × AllRise (epoch_of m) ms

  Reaches-AllRise :
      (genesis : TrustPlane) (c : Manifest) (ms : List Manifest) (e : Option Manifest)
      → validate_phase crypto contracts parse_url c ≡ ok tt
      → Reaches crypto contracts parse_url genesis (some c) ms e
      → AllRise (epoch_of c) ms
  Reaches-AllRise genesis c ms e phase (done a) = tt
  Reaches-AllRise genesis c ms e phase (step a b m ns next follows rest) =
      (Follows-Rises genesis m c phase follows, Reaches-AllRise genesis m ns e next rest)

  Reaches-first_rises :
      (genesis : TrustPlane) (m : Manifest) (ms : List Manifest) (e : Option Manifest)
      → Reaches crypto contracts parse_url genesis none (m ∷ ms) e
      → (0 < epoch_of m) × AllRise (epoch_of m) ms
  Reaches-first_rises genesis m ms e
        (step a b n ns phase (initial stable positive first signed) rest) =
      (positive, Reaches-AllRise genesis m ms e phase rest)

  Reaches-epochs :
      (genesis : TrustPlane) (c d : Manifest) (ms : List Manifest)
      → validate_phase crypto contracts parse_url c ≡ ok tt
      → Reaches crypto contracts parse_url genesis (some c) ms (some d)
      → (epoch_of c + length ms ≤ epoch_of d) ⊎ (epoch_of d ≡ u64_mod - 1)
  Reaches-epochs genesis c d ms phase (done e) = inl (omega arith)
  Reaches-epochs genesis c d ms phase (step a b m ns next follows rest) = ground (
    arith,
    Follows-Rises genesis m c phase follows,
    Reaches-epochs genesis m d ns next rest,
    lawful.epoch_bound d,
  )

  Reaches-some :
      (genesis : TrustPlane) (c : Manifest) (ms : List Manifest) (e : Option Manifest)
      → Reaches crypto contracts parse_url genesis (some c) ms e
      → (d : Manifest) × (e ≡ some d)
  Reaches-some genesis c ms e (done a) = (c, refl)
  Reaches-some genesis c ms e (step a b m ns next follows rest) = Reaches-some genesis m ns e rest

  Reaches-first :
      (genesis : TrustPlane) (m : Manifest) (ms : List Manifest) (e : Option Manifest)
      → Reaches crypto contracts parse_url genesis none (m ∷ ms) e
      → (d : Manifest) × ((e ≡ some d)
          × ((length (m ∷ ms) ≤ epoch_of d) ⊎ (epoch_of d ≡ u64_mod - 1)))
  Reaches-first genesis m ms e (step a b n ns phase (initial stable positive first signed) rest) =
      let (d, last) = Reaches-some genesis m ms e rest in
      (d, (last, ground (arith, positive, Reaches-epochs genesis m d ms phase (rw last at rest))))

  -- The first manifest that a verifier accepts has a positive epoch; each one accepted after it
  -- raises the epoch of the one before, unless both stand at the largest `u64`; so the epoch at the
  -- end is no smaller than the number of manifests, or is that largest one.
  pub accept_all-epochs :
      (v w : MembershipVerifier crypto contracts parse_url) (m : Manifest) (ms : List Manifest)
      → v.current ≡ none
      → accept_all crypto contracts parse_url v (m ∷ ms) ≡ ok w
      → (0 < epoch_of m)
        × (AllRise (epoch_of m) ms
            × ((d : Manifest) × ((w.current ≡ some d)
                  × ((length (m ∷ ms) ≤ epoch_of d) ⊎ (epoch_of d ≡ u64_mod - 1)))))
  accept_all-epochs v w m ms start h =
      let reached =
        rw start at (accept_all-Reaches crypto contracts parse_url lawful v w (m ∷ ms) h) in
      let (positive, rising) = Reaches-first_rises v.genesis m ms w.current reached in
      (positive, (rising, Reaches-first v.genesis m ms w.current reached))

  Follows-HasRoster :
      (genesis : TrustPlane) (m c : Manifest)
      → is_stable c ≡ true
      → is_stable m ≡ true
      → Follows crypto contracts parse_url genesis m (some c)
      → HasRoster crypto contracts parse_url c m
  Follows-HasRoster genesis m c old new (kept d s chain roster signed) = roster
  Follows-HasRoster genesis m c old new (joined d s chain a b) = absurd (ground (arith, s.1, new))
  Follows-HasRoster genesis m c old new (settled d e s next chain roster signed) =
      absurd (ground (arith, s.0, old))

  Reaches-HasRoster :
      (genesis : TrustPlane) (c d : Manifest) (ms : List Manifest)
      → is_stable c ≡ true
      → All (λ m. is_stable m ≡ true) ms
      → Reaches crypto contracts parse_url genesis (some c) ms (some d)
      → HasRoster crypto contracts parse_url c d
  Reaches-HasRoster genesis c d ms stable all (done e) = record {
    same_threshold = refl;
    same_list = refl;
  }
  Reaches-HasRoster genesis c d ms stable all (step a b m ns next follows rest) =
      let first = Follows-HasRoster genesis m c stable all.0 follows in
      let later = Reaches-HasRoster genesis m d ns all.0 all.1 rest in
      record {
        same_threshold = first.same_threshold ∙ later.same_threshold;
        same_list = first.same_list ∙ later.same_list;
      }

  -- From a current manifest that is stable, as long as every manifest accepted after it is stable as
  -- well, the members and the threshold stay what they were.
  pub accept_all-HasRoster :
      (v w : MembershipVerifier crypto contracts parse_url) (c : Manifest) (ms : List Manifest)
      → v.current ≡ some c
      → is_stable c ≡ true
      → All (λ m. is_stable m ≡ true) ms
      → accept_all crypto contracts parse_url v ms ≡ ok w
      → (d : Manifest) × ((w.current ≡ some d) × HasRoster crypto contracts parse_url c d)
  accept_all-HasRoster v w c ms now stable all h =
      let reached = rw now at (accept_all-Reaches crypto contracts parse_url lawful v w ms h) in
      let (d, last) = Reaches-some v.genesis c ms w.current reached in
      (d, (last, Reaches-HasRoster v.genesis c d ms stable all (rw last at reached)))
