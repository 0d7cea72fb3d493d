-- ===== src/Discovery/Candidates.antt =====
-- The order and the repetitions of `deduplicate_valid` and `upsert_authenticated` of
-- crates/kerosene-discovery/src/lib.rs.
use kerosene_node.Base.{
  keep, All, List, Option, String, [], arith, false, if◌then◌else◌, map, nat_eq, refl, text_eq,
  text_iff, text_refl, true, ◌↔◌, ◌∷◌, ◌≡◌, Bool-cases, inl, inr, not, ◌++◌, ◌==◌,
}
use kerosene_node.Base.Results.{ok, Result-cases, ok_inj}
use kerosene_node.Discovery.{peer_endpoint_invalid, AuthenticatedPeer}
use kerosene_node.Discovery.Peers.{
  EndpointRecord, StoredPeer, deduplicate, deduplicate_valid, PeerFiles, stored,
  upsert_authenticated, upsert_peer, upsert_endpoint,
}
use kerosene_node.Ledger.Chain.{outpoint_eq}
use kerosene_node.Ledger.Chart.{account_eq}
use kerosene_node.Ledger.Machine.Intents.{AreDistinct}
use kerosene_node.Ledger.Nonces.{contains_text}
use kerosene_node.Ledger.States.{onchain_eq, reservation_state_eq, role_eq, withdrawal_status_eq}
use kerosene_node.Membership.Contracts.{Contracts}
use kerosene_node.Membership.Onion.{Url, validate_onion_endpoint}

abbrev pub endpoints_of : List EndpointRecord → List String
endpoints_of cs = map (λ (c : EndpointRecord). c.endpoint) cs

abbrev pub ids_of_peers : List StoredPeer → List String
ids_of_peers ps = map (λ (p : StoredPeer). p.member_id) ps

module _ (parse_url : String → Option Url) where
  abbrev pub IsReachable : EndpointRecord → Type 0
  IsReachable c = validate_onion_endpoint parse_url peer_endpoint_invalid c.endpoint ≡ ok tt

  -- The candidates whose endpoint stands neither among those taken nor before them.
  pub first_seen : List String → List EndpointRecord → List EndpointRecord
  first_seen taken [] = []
  first_seen taken (c ∷ cs) =
      let again = first_seen taken cs in
      let new = first_seen (c.endpoint ∷ taken) cs in
      if contains_text c.endpoint taken then again else c ∷ new

  deduplicate-first_seen :
      (taken : List String) (cs : List EndpointRecord)
      → All IsReachable cs
      → deduplicate parse_url taken cs ≡ ok (first_seen taken cs)
  unfolding deduplicate first_seen
  deduplicate-first_seen taken [] all = refl
  deduplicate-first_seen taken (c ∷ cs) all = ground (
    arith,
    all.0,
    deduplicate-first_seen taken cs all.1,
    deduplicate-first_seen (c.endpoint ∷ taken) cs all.1,
  )

  deduplicate-All :
      (taken : List String) (cs ds : List EndpointRecord)
      → deduplicate parse_url taken cs ≡ ok ds
      → All IsReachable cs
  unfolding deduplicate
  deduplicate-All taken [] ds h = tt
  deduplicate-All taken (c ∷ cs) ds h =
      elim (Result-cases (validate_onion_endpoint parse_url peer_endpoint_invalid c.endpoint)) [
        | inl (_, url) ↦ elim (Bool-cases (contains_text c.endpoint taken)) [
          | inl old ↦ (url, deduplicate-All taken cs ds (ground (arith, h, url, old)))
          | inr new ↦ elim (Result-cases (deduplicate parse_url (c.endpoint ∷ taken) cs)) [
            | inl (es, p) ↦ (url, deduplicate-All (c.endpoint ∷ taken) cs es p)
            | inr (e, p) ↦ absurd (ground (arith, h, url, new, p))
          ]
        ]
        | inr (e, url) ↦ absurd (ground (arith, h, url))
      ]

  first_seen-fresh :
      (taken : List String) (cs : List EndpointRecord) (x : String)
      → contains_text x taken ≡ true
      → contains_text x (endpoints_of (first_seen taken cs)) ≡ false
  unfolding first_seen
  first_seen-fresh taken [] x h = refl
  first_seen-fresh taken (c ∷ cs) x h = ground (
    arith,
    h,
    first_seen-fresh taken cs x h,
    first_seen-fresh (c.endpoint ∷ taken) cs x,
    text_iff c.endpoint x,
  )

  first_seen-AreDistinct :
      (taken : List String) (cs : List EndpointRecord)
      → AreDistinct (endpoints_of (first_seen taken cs))
  unfolding first_seen
  first_seen-AreDistinct taken [] = tt
  first_seen-AreDistinct taken (c ∷ cs) = ground (
    arith,
    first_seen-AreDistinct taken cs,
    first_seen-AreDistinct (c.endpoint ∷ taken) cs,
    first_seen-fresh (c.endpoint ∷ taken) cs c.endpoint,
    text_refl c.endpoint,
  )

  -- A list of candidates is accepted exactly when every endpoint is valid, and then each endpoint is
  -- kept once, where it stands first; the endpoints kept are distinct.
  pub deduplicate_valid_lem :
      (cs ds : List EndpointRecord)
      → ((deduplicate_valid parse_url cs ≡ ok ds) ↔ (All IsReachable cs × (ds ≡ first_seen [] cs)))
        × AreDistinct (endpoints_of (first_seen [] cs))
  unfolding deduplicate_valid
  deduplicate_valid_lem cs ds = (
    (
      λ h.
          (let all = deduplicate-All [] cs ds h in
            (all, ok_inj (deduplicate parse_url [] cs) h (deduplicate-first_seen [] cs all))),
      λ (all, same). cc (deduplicate-first_seen [] cs all, same),
    ),
    first_seen-AreDistinct [] cs,
  )

module _ (contracts : Contracts) (parse_url : String → Option Url)
    (files : PeerFiles contracts.Manifest) where
  open files use {Files, peers_db, endpoints_db, successes_db, manifests_db}

  -- Files that keep what was written, each by itself; a write may fail.
  pub record IsKeeping : Type 0 where
    pub peers-write_peers :
        (ps : List StoredPeer) (f : Files)
        → (peers_db.write ps f).0 ≡ ok tt
        → peers_db.read (peers_db.write ps f).1 ≡ ok ps
    pub peers-write_endpoints :
        (es : List EndpointRecord) (f : Files)
        → peers_db.read (endpoints_db.write es f).1 ≡ peers_db.read f
    pub endpoints-write_endpoints :
        (es : List EndpointRecord) (f : Files)
        → (endpoints_db.write es f).0 ≡ ok tt
        → endpoints_db.read (endpoints_db.write es f).1 ≡ ok es

  keep-absent :
      (p : AuthenticatedPeer) (ps : List StoredPeer)
      → contains_text p.member_id
          (ids_of_peers (keep (λ (q : StoredPeer). not (q.member_id == p.member_id)) ps))
        ≡ false
  keep-absent p [] = refl
  keep-absent p (q ∷ ps) = ground (arith, keep-absent p ps)

  -- After an upsert that succeeds the file of peers ends with the peer's new entry, and holds no
  -- other entry of that member.
  upsert_authenticated_lem :
      IsKeeping
      → (p : AuthenticatedPeer) (f : Files)
      → (upsert_authenticated contracts parse_url files p f).0 ≡ ok tt
      → (others : List StoredPeer) × ((peers_db.read
              (upsert_authenticated contracts parse_url files p f).1
            ≡ ok (others ++ stored p ∷ []))
          × (contains_text p.member_id (ids_of_peers others) ≡ false))
  unfolding upsert_authenticated upsert_peer
  upsert_authenticated_lem keeping p f h = elim (Result-cases (peers_db.read f)) [
    | inl (ps, r) ↦
        (let written = upsert_peer p ps in
          let g = (peers_db.write written f).1 in
          elim (Result-cases (peers_db.write written f).0) [
            | inl (_, w) ↦ elim (Result-cases (endpoints_db.read g)) [
              | inl (es, q) ↦ (
                keep (λ (x : StoredPeer). not (x.member_id == p.member_id)) ps,
                (
                  ground (
                    arith,
                    r,
                    w,
                    q,
                    keeping.peers-write_endpoints (upsert_endpoint p es) g,
                    keeping.peers-write_peers written f w,
                  ),
                  keep-absent p ps,
                ),
              )
              | inr (e, q) ↦ absurd (ground (arith, h, r, w, q))
            ]
            | inr (e, w) ↦ absurd (ground (arith, h, r, w))
          ])
    | inr (e, r) ↦ absurd (ground (arith, h, r))
  ]
