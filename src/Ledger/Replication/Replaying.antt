-- ===== src/Ledger/Replication/Replaying.antt =====
-- The replay loop of `recover_divergence` and `execute_catch_up` of replication.rs.
use kerosene_node.Base.{
  List, [], arith, inl, inr, length, nat_eq, refl, text_eq, ◌%◌, ◌++◌, ◌+◌, ◌<◌, ◌∷◌, ◌≡◌, ap, sym,
  ◌∙◌,
}
use kerosene_node.Base.Results.{Handler, Result-cases, err, ok, bind-err, bind-ok, err_not_ok}
use kerosene_node.Base.Words.{u64_mod}
use kerosene_node.Ledger.Certificates.{Crypto}
use kerosene_node.Ledger.Chain.{outpoint_eq}
use kerosene_node.Ledger.Chart.{account_eq}
use kerosene_node.Ledger.Errors.{LedgerError}
use kerosene_node.Ledger.Machine.Applying.{apply_ledger, StateTransitionReceipt}
use kerosene_node.Ledger.Machine.Receipts.{apply_ledger-Receipted}
use kerosene_node.Ledger.Machine.Validation.{Payloads}
use kerosene_node.Ledger.Replication.{replay}
use kerosene_node.Ledger.State.{LedgerCommand, LedgerState}
use kerosene_node.Ledger.States.{onchain_eq, reservation_state_eq, role_eq, withdrawal_status_eq}

module _ {R : Type 0} (apply : LedgerCommand → Handler LedgerState LedgerError R) where
  -- Where a replay stopped: the commands before the one that failed were all applied.
  pub record StopsAt (cs : List LedgerCommand) (s : LedgerState) (e : LedgerError) (u : LedgerState)
      : Type 0 where
    pub before : List LedgerCommand
    pub culprit : LedgerCommand
    pub after : List LedgerCommand
    pub reached : LedgerState
    pub splits : cs ≡ before ++ culprit ∷ after
    pub applied : replay apply before s ≡ (ok tt, reached)
    pub failed : apply culprit reached ≡ (err e, u)

  pub replay-ok :
      (c : LedgerCommand) (cs : List LedgerCommand) (s : LedgerState) (r : R)
      → (apply c s).0 ≡ ok r
      → replay apply (c ∷ cs) s ≡ replay apply cs (apply c s).1
  unfolding replay
  replay-ok c cs s r p = bind-ok (apply c) (λ _. replay apply cs) s r p

  replay-err :
      (c : LedgerCommand) (cs : List LedgerCommand) (s : LedgerState) (e : LedgerError)
      → (apply c s).0 ≡ err e
      → replay apply (c ∷ cs) s ≡ (err e, (apply c s).1)
  unfolding replay
  replay-err c cs s e p = bind-err (apply c) (λ _. replay apply cs) s e p

  -- A replay that fails stopped at the first command that failed: it has applied those before it,
  -- keeps what the failed command left, and applied none of those after it.
  pub replay-StopsAt :
      (cs : List LedgerCommand) (s : LedgerState) (e : LedgerError) (u : LedgerState)
      → replay apply cs s ≡ (err e, u)
      → StopsAt cs s e u
  unfolding replay
  replay-StopsAt [] s e u h = ground (arith, h)
  replay-StopsAt (c ∷ cs) s e u h = elim (Result-cases (apply c s).0) [
    | inl (r, p) ↦
        (let rest = replay-StopsAt cs (apply c s).1 e u (sym (replay-ok c cs s r p) ∙ h) in
          record {
            before = c ∷ rest.before;
            culprit = rest.culprit;
            after = rest.after;
            reached = rest.reached;
            splits = ap (λ (ds : List LedgerCommand). c ∷ ds) rest.splits;
            applied = replay-ok c rest.before s r p ∙ rest.applied;
            failed = rest.failed;
          })
    | inr (x, p) ↦ record {
      before = [];
      culprit = c;
      after = cs;
      reached = s;
      splits = refl;
      applied = refl;
      failed = ground (arith, p, sym (replay-err c cs s x p) ∙ h);
    }
  ]

module _ (crypto : Crypto) (payloads : Payloads) where
  abbrev machine : LedgerCommand → Handler LedgerState LedgerError StateTransitionReceipt
  machine = apply_ledger crypto payloads

  -- A replay that succeeds advances the version by one for each command, modulo 2^64.
  pub replay-version :
      (cs : List LedgerCommand) (s t : LedgerState)
      → s.version < u64_mod
      → replay machine cs s ≡ (ok tt, t)
      → t.version ≡ (s.version + length cs) % u64_mod
  unfolding replay
  replay-version [] s t small h = ground (arith, h)
  replay-version (c ∷ cs) s t small h = elim (Result-cases (apply_ledger crypto payloads c s).0) [
    | inl (r, p) ↦
        (let u = (apply_ledger crypto payloads c s).1 in
          let q = (apply_ledger-Receipted crypto payloads c s r p).advanced in
          omega (
            arith,
            q,
            replay-version cs u t (omega (arith, q)) (sym (replay-ok machine c cs s r p) ∙ h),
          ))
    | inr (x, p) ↦
        absurd (err_not_ok (ap (λ q. q.0) (replay-err machine c cs s x p)) (ap (λ q. q.0) h))
  ]
