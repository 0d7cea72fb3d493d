-- ===== src/Discovery/Challenges.antt =====
-- The challenges of `ChallengeStore` of crates/kerosene-discovery/src/lib.rs.
use kerosene_node.Base.{
  List, String, [], arith, if◌then◌else◌, leb, nat_eq, none, text_eq, ℕ, ◌==◌, ◌∷◌, ◌≡◌, ◌≢◌, ◌≤◌,
  All, Option-cases, inl, inr, some, text_iff, text_refl, ◌↔◌, ◌∙◌,
}
use kerosene_node.Base.Results.{err, ok}
use kerosene_node.Base.Table.{
  HasDistinctKeys, if_kept, insert-HasDistinctKeys, lookup, lookup-remove_key, lookup-retain,
  retain, remove_key-HasDistinctKeys, retain-HasDistinctKeys, lookup-insert_ne, lookup-insert_self,
  remove_key,
}
use kerosene_node.Base.Words.{saturating_add}
use kerosene_node.Discovery.{ChallengeStore, consume_challenge, issue_challenge, challenge_rejected}
use kerosene_node.Ledger.Chain.{outpoint_eq}
use kerosene_node.Ledger.Chart.{account_eq}
use kerosene_node.Ledger.States.{onchain_eq, reservation_state_eq, role_eq, withdrawal_status_eq}

pub data ChallengeOp : Type 0 where
  issuing consuming : String → ℕ → ChallengeOp

abbrev pub run_challenge : ChallengeOp → ChallengeStore → ChallengeStore
run_challenge (issuing c now) s = issue_challenge c now s
run_challenge (consuming c now) s = (consume_challenge c now s).1

abbrev pub run_challenges : List ChallengeOp → ChallengeStore → ChallengeStore
run_challenges [] s = s
run_challenges (op ∷ ops) s = run_challenges ops (run_challenge op s)

-- The operation does not issue `c`.
abbrev pub IssuesOther : String → ChallengeOp → Type 0
IssuesOther c (issuing d now) = d ≢ c
IssuesOther c (consuming d now) = Unit

-- The operation names another challenge than `c`, and a consumption is no later than `now`.
abbrev pub Spares : String → ℕ → ChallengeOp → Type 0
Spares c now (issuing d then_ms) = d ≢ c
Spares c now (consuming d then_ms) = (d ≢ c) × (then_ms ≤ now)

consume-left :
    (c : String) (now : ℕ) (s : ChallengeStore)
    → (consume_challenge c now s).1.pending ≡ remove_key c (retain (λ e. leb now e) s.pending)
unfolding consume_challenge
consume-left c now s = ground arith

pending-consume :
    (c d : String) (now : ℕ) (s : ChallengeStore)
    → HasDistinctKeys s.pending
    → lookup c (consume_challenge d now s).1.pending
      ≡ (if d == c then none else if_kept (λ e. leb now e) (lookup c s.pending))
unfolding consume_challenge
pending-consume c d now s k = ground (
  arith,
  lookup-retain (λ e. leb now e) c s.pending k,
  lookup-remove_key d c (retain (λ e. leb now e) s.pending),
)

run_challenge-HasDistinctKeys :
    (op : ChallengeOp) (s : ChallengeStore)
    → HasDistinctKeys s.pending
    → HasDistinctKeys (run_challenge op s).pending
unfolding consume_challenge issue_challenge
run_challenge-HasDistinctKeys (issuing c now) s k =
    insert-HasDistinctKeys c (saturating_add now s.ttl_ms) s.pending k
run_challenge-HasDistinctKeys (consuming c now) s k = rw (consume-left c now s) (
    remove_key-HasDistinctKeys c (retain (λ e. leb now e) s.pending)
      (retain-HasDistinctKeys (λ e. leb now e) s.pending k))

-- A challenge is accepted exactly when it is pending and has not expired.
consume_challenge_lem :
    (c : String) (now : ℕ) (s : ChallengeStore)
    → HasDistinctKeys s.pending
    → ((consume_challenge c now s).0 ≡ ok tt)
      ↔ ((e : ℕ) × ((lookup c s.pending ≡ some e) × (now ≤ e)))
unfolding consume_challenge
consume_challenge_lem c now s k = elim (Option-cases (lookup c s.pending)) [
  | inl missing ↦ (
    λ h. absurd (ground (arith, h, missing, lookup-retain (λ e. leb now e) c s.pending k)),
    λ (e, (found, live)). absurd (ground (arith, missing, found)),
  )
  | inr (f, found) ↦ (
    λ h. (f, (found, ground (arith, h, found, lookup-retain (λ e. leb now e) c s.pending k))),
    λ (e, (same, live)).
        ground (arith, found, same, live, lookup-retain (λ e. leb now e) c s.pending k),
  )
]

run_challenges-absent :
    (ops : List ChallengeOp) (c : String) (s : ChallengeStore)
    → HasDistinctKeys s.pending
    → All (IssuesOther c) ops
    → lookup c s.pending ≡ none
    → HasDistinctKeys (run_challenges ops s).pending
      × (lookup c (run_challenges ops s).pending ≡ none)
unfolding issue_challenge
run_challenges-absent [] c s k all h = (k, h)
run_challenges-absent (issuing d now ∷ ops) c s k all h =
    run_challenges-absent ops c (issue_challenge d now s)
      (run_challenge-HasDistinctKeys (issuing d now) s k) all.1
      (lookup-insert_ne d c (saturating_add now s.ttl_ms) s.pending all.0 ∙ h)
run_challenges-absent (consuming d now ∷ ops) c s k all h =
    run_challenges-absent ops c (consume_challenge d now s).1
      (run_challenge-HasDistinctKeys (consuming d now) s k) all.1
      (ground (arith, pending-consume c d now s k, h))

consume_absent :
    (c : String) (now : ℕ) (s : ChallengeStore)
    → HasDistinctKeys s.pending
    → lookup c s.pending ≡ none
    → (consume_challenge c now s).0 ≡ err challenge_rejected
unfolding consume_challenge
consume_absent c now s k h = ground (arith, h, lookup-retain (λ e. leb now e) c s.pending k)

-- A challenge is good for one attempt: after an attempt to consume it, accepted or not, every later
-- attempt is refused, whatever other challenges are issued and consumed in between, until the same
-- challenge is issued again.
pub consume_challenge_once :
    (c : String) (now later : ℕ) (between : List ChallengeOp) (s : ChallengeStore)
    → HasDistinctKeys s.pending
    → All (IssuesOther c) between
    → (consume_challenge c later (run_challenges between (consume_challenge c now s).1)).0
      ≡ err challenge_rejected
consume_challenge_once c now later between s k all =
    let (distinct, gone) =
      run_challenges-absent between c (consume_challenge c now s).1
        (run_challenge-HasDistinctKeys (consuming c now) s k) all
        (ground (arith, pending-consume c c now s k, text_refl c)) in
    consume_absent c later (run_challenges between (consume_challenge c now s).1) distinct gone

run_challenges-pending :
    (ops : List ChallengeOp) (c : String) (now e : ℕ) (s : ChallengeStore)
    → HasDistinctKeys s.pending
    → All (Spares c now) ops
    → now ≤ e
    → lookup c s.pending ≡ some e
    → HasDistinctKeys (run_challenges ops s).pending
      × (lookup c (run_challenges ops s).pending ≡ some e)
unfolding issue_challenge
run_challenges-pending [] c now e s k all live h = (k, h)
run_challenges-pending (issuing d then_ms ∷ ops) c now e s k all live h =
    run_challenges-pending ops c now e (issue_challenge d then_ms s)
      (run_challenge-HasDistinctKeys (issuing d then_ms) s k) all.1 live
      (lookup-insert_ne d c (saturating_add then_ms s.ttl_ms) s.pending all.0 ∙ h)
run_challenges-pending (consuming d then_ms ∷ ops) c now e s k all live h =
    run_challenges-pending ops c now e (consume_challenge d then_ms s).1
      (run_challenge-HasDistinctKeys (consuming d then_ms) s k) all.1 live
      (ground (arith, pending-consume c d then_ms s k, h, text_iff d c, all.0.0, all.0.1))

-- A challenge that was issued is accepted until its time to live is over, whatever other challenges
-- are issued and consumed before.
pub consume_challenge-issue_challenge :
    (c : String) (issued now : ℕ) (between : List ChallengeOp) (s : ChallengeStore)
    → HasDistinctKeys s.pending
    → All (Spares c now) between
    → now ≤ saturating_add issued s.ttl_ms
    → (consume_challenge c now (run_challenges between (issue_challenge c issued s))).0 ≡ ok tt
unfolding issue_challenge
consume_challenge-issue_challenge c issued now between s k all live =
    let e = saturating_add issued s.ttl_ms in
    let (distinct, held) =
      run_challenges-pending between c now e (issue_challenge c issued s)
        (run_challenge-HasDistinctKeys (issuing c issued) s k) all live
        (lookup-insert_self c e s.pending) in
    (consume_challenge_lem c now (run_challenges between (issue_challenge c issued s)) distinct).1
      (e, (held, live))
