-- ===== src/Ledger/Journal/Postings.antt =====
-- What the two posting loops of `post_entry` do to the balances.
use kerosene_node.Base.{
  List, Option-cases, [], arith, if◌then◌else◌, inl, inr, none, some, ℕ, ◌+◌, ◌==◌, ◌∷◌, ◌≡◌, ap,
  refl, sym, ◌∙◌, ◌≤◌,
}
use kerosene_node.Base.Results.{ok, then_do-ok, Result-cases, bind-ok, bind-err}
use kerosene_node.Base.Table.{lookup, lookup-insert}
use kerosene_node.Ledger.Chart.{StandardAccount, account_beq_iff, account_eq}
use kerosene_node.Ledger.Journal.{
  AccountBalance, Balances, credit_balance, debit_balance, on_balance, post_credits, post_debits,
}
use kerosene_node.Ledger.Journal.Hashing.{Posting}
use kerosene_node.Ledger.States.{}

-- The debits, or the credits, that a list of postings makes to one account.
abbrev pub posted_to : StandardAccount → List Posting → ℕ
posted_to a [] = 0
posted_to a (p ∷ ps) = (if p.account == a then p.amount_sats else 0) + posted_to a ps

abbrev pub debits_of : StandardAccount → Balances → ℕ
debits_of a m = elim (lookup a m) [ none ↦ 0 | some b ↦ b.total_debits_sats ]

abbrev pub credits_of : StandardAccount → Balances → ℕ
credits_of a m = elim (lookup a m) [ none ↦ 0 | some b ↦ b.total_credits_sats ]

debit_balance-ok :
    (n : ℕ) (b : AccountBalance)
    → (debit_balance n b).0 ≡ ok tt
    → ((debit_balance n b).1.total_debits_sats ≡ b.total_debits_sats + n)
      × ((debit_balance n b).1.total_credits_sats ≡ b.total_credits_sats)
unfolding debit_balance
debit_balance-ok n b h = ground arith

credit_balance-ok :
    (n : ℕ) (b : AccountBalance)
    → (credit_balance n b).0 ≡ ok tt
    → ((credit_balance n b).1.total_credits_sats ≡ b.total_credits_sats + n)
      × ((credit_balance n b).1.total_debits_sats ≡ b.total_debits_sats)
unfolding credit_balance
credit_balance-ok n b h = ground arith

debit_step :
    (p : Posting) (m : Balances) (a : StandardAccount)
    → (on_balance p.account (debit_balance p.amount_sats) m).0 ≡ ok tt
    → let m' = (on_balance p.account (debit_balance p.amount_sats) m).1 in
      (debits_of a m' ≡ (if p.account == a then p.amount_sats else 0) + debits_of a m)
      × (credits_of a m' ≡ credits_of a m)
debit_step p m a h = elim (Option-cases (lookup p.account m)) [
  | inl missing ↦ ground arith
  | inr (b, e) ↦ ground (
    arith,
    debit_balance-ok p.amount_sats b,
    lookup-insert p.account a (debit_balance p.amount_sats b).1 m,
    account_beq_iff p.account a,
  )
]

credit_step :
    (p : Posting) (m : Balances) (a : StandardAccount)
    → (on_balance p.account (credit_balance p.amount_sats) m).0 ≡ ok tt
    → let m' = (on_balance p.account (credit_balance p.amount_sats) m).1 in
      (credits_of a m' ≡ (if p.account == a then p.amount_sats else 0) + credits_of a m)
      × (debits_of a m' ≡ debits_of a m)
credit_step p m a h = elim (Option-cases (lookup p.account m)) [
  | inl missing ↦ ground arith
  | inr (b, e) ↦ ground (
    arith,
    credit_balance-ok p.amount_sats b,
    lookup-insert p.account a (credit_balance p.amount_sats b).1 m,
    account_beq_iff p.account a,
  )
]

pub post_debits-ok :
    (ps : List Posting) (m : Balances) (a : StandardAccount)
    → (post_debits ps m).0 ≡ ok tt
    → let m' = (post_debits ps m).1 in
      (debits_of a m' ≡ posted_to a ps + debits_of a m) × (credits_of a m' ≡ credits_of a m)
unfolding post_debits
post_debits-ok [] m a h = (omega arith, refl)
post_debits-ok (p ∷ ps) m a h =
    let step = on_balance p.account (debit_balance p.amount_sats) in
    let (done, rest) = then_do-ok step (post_debits ps) m tt h in
    let ih = post_debits-ok ps (step m).1 a (ap (λ q. q.0) (sym rest) ∙ h) in
    let one = debit_step p m a done in rw rest (omega (arith, ih, one), ih.1 ∙ one.1)

pub post_credits-ok :
    (ps : List Posting) (m : Balances) (a : StandardAccount)
    → (post_credits ps m).0 ≡ ok tt
    → let m' = (post_credits ps m).1 in
      (credits_of a m' ≡ posted_to a ps + credits_of a m) × (debits_of a m' ≡ debits_of a m)
unfolding post_credits
post_credits-ok [] m a h = (omega arith, refl)
post_credits-ok (p ∷ ps) m a h =
    let step = on_balance p.account (credit_balance p.amount_sats) in
    let (done, rest) = then_do-ok step (post_credits ps) m tt h in
    let ih = post_credits-ok ps (step m).1 a (ap (λ q. q.0) (sym rest) ∙ h) in
    let one = credit_step p m a done in rw rest (omega (arith, ih, one), ih.1 ∙ one.1)

-- What a loop over postings does to one account, also when it stops early: the totals on its side
-- grow by no more than the postings, and those on the other side stay.
abbrev pub IsWithin : ℕ → ℕ → ℕ → ℕ → ℕ → Type 0
IsWithin n old new other other' = (old ≤ new) × (new ≤ n + old) × (other' ≡ other)

debit_balance-IsWithin :
    (n : ℕ) (b : AccountBalance)
    → let b' = (debit_balance n b).1 in
      IsWithin n b.total_debits_sats b'.total_debits_sats b.total_credits_sats b'.total_credits_sats
unfolding debit_balance
debit_balance-IsWithin n b = ground arith

credit_balance-IsWithin :
    (n : ℕ) (b : AccountBalance)
    → let b' = (credit_balance n b).1 in
      IsWithin n b.total_credits_sats b'.total_credits_sats b.total_debits_sats b'.total_debits_sats
unfolding credit_balance
credit_balance-IsWithin n b = ground arith

debit_step-IsWithin :
    (p : Posting) (m : Balances) (a : StandardAccount)
    → let m' = (on_balance p.account (debit_balance p.amount_sats) m).1 in
      IsWithin
        (if p.account == a then p.amount_sats else 0)
        (debits_of a m)
        (debits_of a m')
        (credits_of a m)
        (credits_of a m')
debit_step-IsWithin p m a = elim (Option-cases (lookup p.account m)) [
  | inl missing ↦ ground (arith, missing)
  | inr (b, e) ↦ ground (
    arith,
    e,
    debit_balance-IsWithin p.amount_sats b,
    lookup-insert p.account a (debit_balance p.amount_sats b).1 m,
    account_beq_iff p.account a,
  )
]

credit_step-IsWithin :
    (p : Posting) (m : Balances) (a : StandardAccount)
    → let m' = (on_balance p.account (credit_balance p.amount_sats) m).1 in
      IsWithin
        (if p.account == a then p.amount_sats else 0)
        (credits_of a m)
        (credits_of a m')
        (debits_of a m)
        (debits_of a m')
credit_step-IsWithin p m a = elim (Option-cases (lookup p.account m)) [
  | inl missing ↦ ground (arith, missing)
  | inr (b, e) ↦ ground (
    arith,
    e,
    credit_balance-IsWithin p.amount_sats b,
    lookup-insert p.account a (credit_balance p.amount_sats b).1 m,
    account_beq_iff p.account a,
  )
]

pub post_debits-IsWithin :
    (ps : List Posting) (m : Balances) (a : StandardAccount)
    → let m' = (post_debits ps m).1 in
      IsWithin (posted_to a ps) (debits_of a m) (debits_of a m') (credits_of a m) (credits_of a m')
unfolding post_debits
post_debits-IsWithin [] m a = (omega arith, omega arith, refl)
post_debits-IsWithin (p ∷ ps) m a =
    let step = on_balance p.account (debit_balance p.amount_sats) in
    let one = debit_step-IsWithin p m a in
    let ih = post_debits-IsWithin ps (step m).1 a in
    elim (Result-cases (step m).0) [
      | inl (_, done) ↦
          rw (bind-ok step (λ _. post_debits ps) m tt done)
            (omega (arith, one, ih), omega (arith, one, ih), ih.2 ∙ one.2)
      | inr (e, stopped) ↦
          rw (bind-err step (λ _. post_debits ps) m e stopped)
            (omega (arith, one), omega (arith, one), one.2)
    ]

pub post_credits-IsWithin :
    (ps : List Posting) (m : Balances) (a : StandardAccount)
    → let m' = (post_credits ps m).1 in
      IsWithin (posted_to a ps) (credits_of a m) (credits_of a m') (debits_of a m) (debits_of a m')
unfolding post_credits
post_credits-IsWithin [] m a = (omega arith, omega arith, refl)
post_credits-IsWithin (p ∷ ps) m a =
    let step = on_balance p.account (credit_balance p.amount_sats) in
    let one = credit_step-IsWithin p m a in
    let ih = post_credits-IsWithin ps (step m).1 a in
    elim (Result-cases (step m).0) [
      | inl (_, done) ↦
          rw (bind-ok step (λ _. post_credits ps) m tt done)
            (omega (arith, one, ih), omega (arith, one, ih), ih.2 ∙ one.2)
      | inr (e, stopped) ↦
          rw (bind-err step (λ _. post_credits ps) m e stopped)
            (omega (arith, one), omega (arith, one), one.2)
    ]
