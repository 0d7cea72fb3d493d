-- ===== src/Ledger/Journal/Replay.antt =====
-- The balances are the replay of the journal: `post_entry` of double_entry.rs.
use kerosene_node.Base.{
  List, String, [], arith, true, false, refl, ◌≤◌, ◌⊎◌, text_eq, ℕ, ◌++◌, ◌+◌, ◌∷◌, ◌≡◌,
  Option-cases, inl, inr, none, ◌∙◌, ◌≢◌,
}
use kerosene_node.Base.Results.{ok, err, is_ok, Result-cases}
use kerosene_node.Base.Table.{insert, lookup, lookup-insert_self}
use kerosene_node.Ledger.Chart.{StandardAccount}
use kerosene_node.Ledger.Errors.{LedgerError}
use kerosene_node.Ledger.Journal.{
  Balances, JournalReceipt, JournalState, check_signs, commit_entry, post_credits, post_debits,
  post_new_entry, receipt_of, validate_entry, post_entry,
}
use kerosene_node.Ledger.Journal.Hashing.{JournalEntry}
use kerosene_node.Ledger.Journal.Postings.{
  credits_of, debits_of, posted_to, post_credits-ok, post_debits-ok, post_debits-IsWithin,
  post_credits-IsWithin,
}
use kerosene_node.Ledger.States.{}

abbrev pub journal_debits : StandardAccount → List JournalEntry → ℕ
journal_debits a [] = 0
journal_debits a (e ∷ es) = posted_to a e.debits + journal_debits a es

abbrev pub journal_credits : StandardAccount → List JournalEntry → ℕ
journal_credits a [] = 0
journal_credits a (e ∷ es) = posted_to a e.credits + journal_credits a es

-- Each account's totals are what the entries of the journal post to it.
pub record Reflects (l : JournalState) : Type 0 where
  pub debits : (a : StandardAccount) → debits_of a l.balances ≡ journal_debits a l.entries
  pub credits : (a : StandardAccount) → credits_of a l.balances ≡ journal_credits a l.entries

-- The balances after both loops of `post_entry`.
abbrev pub posted : JournalEntry → Balances → Balances
posted e m = (post_credits e.credits (post_debits e.debits m).1).1

-- What a new entry that was accepted has passed, and the state that it leaves.
pub record Accepted (sha256_hex : List ℕ → String) (e : JournalEntry) (l l' : JournalState)
    : Type 0 where
  pub valid : validate_entry sha256_hex e l ≡ ok tt
  pub debits_done : (post_debits e.debits l.balances).0 ≡ ok tt
  pub credits_done : (post_credits e.credits (post_debits e.debits l.balances).1).0 ≡ ok tt
  pub signs : check_signs (posted e l.balances) ≡ ok tt
  pub entries : l'.entries ≡ l.entries ++ e ∷ []
  pub balances : l'.balances ≡ posted e l.balances

module _ (sha256_hex : List ℕ → String) where
  pub post_new_entry-ok :
      (e : JournalEntry) (l : JournalState) (r : JournalReceipt)
      → (post_new_entry sha256_hex e l).0 ≡ ok r
      → Accepted sha256_hex e l (post_new_entry sha256_hex e l).1
        × (r ≡ receipt_of sha256_hex e (posted e l.balances))
        × ((post_new_entry sha256_hex e l).1.receipts ≡ insert e.entry_id r l.receipts)
  unfolding post_new_entry commit_entry
  post_new_entry-ok e l r h = ground arith

  journal-append :
      (a : StandardAccount) (es : List JournalEntry) (e : JournalEntry)
      → (journal_debits a (es ++ e ∷ []) ≡ posted_to a e.debits + journal_debits a es)
        × (journal_credits a (es ++ e ∷ []) ≡ posted_to a e.credits + journal_credits a es)
  journal-append a [] e = (omega arith, omega arith)
  journal-append a (x ∷ es) e =
      (omega (arith, journal-append a es e), omega (arith, journal-append a es e))

  -- What both loops do to one account's totals.
  posted-totals :
      (e : JournalEntry) (l l' : JournalState) (a : StandardAccount)
      → Accepted sha256_hex e l l'
      → (debits_of a l'.balances ≡ posted_to a e.debits + debits_of a l.balances)
        × (credits_of a l'.balances ≡ posted_to a e.credits + credits_of a l.balances)
  posted-totals e l l' a acc =
      let d = post_debits-ok e.debits l.balances a acc.debits_done in
      let c = post_credits-ok e.credits (post_debits e.debits l.balances).1 a acc.credits_done in
      rw (acc.balances) (c.1 ∙ d.0, omega (arith, c.0, d.1))

  Accepted-Reflects :
      (e : JournalEntry) (l l' : JournalState)
      → Accepted sha256_hex e l l'
      → Reflects l
      → Reflects l'
  Accepted-Reflects e l l' acc h = record {
    debits = λ a.
        rw (acc.entries)
          (omega (arith, posted-totals e l l' a acc, journal-append a l.entries e, h.debits a));
    credits = λ a.
        rw (acc.entries)
          (omega (arith, posted-totals e l l' a acc, journal-append a l.entries e, h.credits a));
  }

  -- A call that succeeds changes the totals of an account by exactly what it adds to the journal.
  abbrev pub IsRecorded : JournalState → JournalState → StandardAccount → Type 0
  IsRecorded l l' a =
      (debits_of a l'.balances + journal_debits a l.entries
        ≡ debits_of a l.balances + journal_debits a l'.entries)
      × (credits_of a l'.balances + journal_credits a l.entries
          ≡ credits_of a l.balances + journal_credits a l'.entries)

  -- A call that fails adds nothing to the journal, and to the totals of an account no more than the
  -- entry refused would have posted.
  abbrev pub IsRefused : JournalEntry → JournalState → JournalState → StandardAccount → Type 0
  IsRefused e l l' a =
      (l'.entries ≡ l.entries)
      × (debits_of a l.balances ≤ debits_of a l'.balances)
      × (debits_of a l'.balances ≤ debits_of a l.balances + posted_to a e.debits)
      × (credits_of a l.balances ≤ credits_of a l'.balances)
      × (credits_of a l'.balances ≤ credits_of a l.balances + posted_to a e.credits)

  Accepted-IsRecorded :
      (e : JournalEntry) (l l' : JournalState) (a : StandardAccount)
      → Accepted sha256_hex e l l'
      → IsRecorded l l' a
  Accepted-IsRecorded e l l' a acc =
      let (debits, credits) = posted-totals e l l' a acc in
      let (more_debits, more_credits) = journal-append a l.entries e in
      rw (acc.entries) (omega (arith, debits, more_debits), omega (arith, credits, more_credits))

  post_new_entry-IsRefused :
      (e : JournalEntry) (l : JournalState) (a : StandardAccount) (x : LedgerError)
      → (post_new_entry sha256_hex e l).0 ≡ err x
      → IsRefused e l (post_new_entry sha256_hex e l).1 a
  unfolding post_new_entry commit_entry
  post_new_entry-IsRefused e l a x h =
      let after_debits = (post_debits e.debits l.balances).1 in
      let d = post_debits-IsWithin e.debits l.balances a in
      let c = post_credits-IsWithin e.credits after_debits a in
      elim (Result-cases (validate_entry sha256_hex e l)) [
        | inr (_, invalid) ↦ ground (arith, invalid)
        | inl (_, valid) ↦ elim (Result-cases (post_debits e.debits l.balances).0) [
          | inr (_, stopped) ↦ ground (arith, valid, stopped, d)
          | inl (_, debited) ↦ elim (Result-cases (post_credits e.credits after_debits).0) [
            | inr (_, stopped) ↦ ground (arith, valid, debited, stopped, d, c)
            | inl (_, credited) ↦ ground (arith, valid, debited, credited, d, c, h)
          ]
        ]
      ]

  -- Whatever the journal was, a call of `post_entry` that succeeds changes the totals of every
  -- account by exactly what it adds to the journal, which is the entry at its end, or nothing with
  -- the whole state as it was. A call that fails adds no entry and takes nothing from any total, but may leave on it
  -- as much as the refused entry would have posted.
  pub post_entry-IsRecorded :
      (e : JournalEntry) (l : JournalState) (a : StandardAccount)
      → let (r, l') = post_entry sha256_hex e l in
        ((is_ok r ≡ true) × ((l' ≡ l) ⊎ (l'.entries ≡ l.entries ++ e ∷ [])) × IsRecorded l l' a)
        ⊎ ((is_ok r ≡ false) × IsRefused e l l' a)
  unfolding post_entry
  post_entry-IsRecorded e l a = elim (Option-cases (lookup e.entry_id l.receipts)) [
    | inr (_, again) ↦ rw (again, post_entry) (inl (refl, inl refl, (refl, refl)))
    | inl fresh ↦ elim (Result-cases (post_new_entry sha256_hex e l).0) [
      | inl (r, done) ↦
          rw (fresh, post_entry)
            (inl (
              ground (arith, done),
              inr (post_new_entry-ok e l r done).0.entries,
              Accepted-IsRecorded e l (post_new_entry sha256_hex e l).1 a
                  (post_new_entry-ok e l r done).0,
            ))
      | inr (x, bad) ↦
          rw (fresh, post_entry) (inr (ground (arith, bad), post_new_entry-IsRefused e l a x bad))
    ]
  ]

  -- A call of `post_entry` that succeeds keeps every account's totals equal to what the entries of
  -- the journal, the new one included, post to it.
  post_entry-Reflects :
      (e : JournalEntry) (l : JournalState) (r : JournalReceipt)
      → Reflects l
      → (post_entry sha256_hex e l).0 ≡ ok r
      → Reflects (post_entry sha256_hex e l).1
  unfolding post_entry
  post_entry-Reflects e l r h done = elim (Option-cases (lookup e.entry_id l.receipts)) [
    | inl fresh ↦
        rw (fresh, post_entry)
          (Accepted-Reflects e l (post_new_entry sha256_hex e l).1
            (post_new_entry-ok e l r (rw (fresh, post_entry) at done)).0 h)
    | inr (_, again) ↦ rw (again, post_entry) h
  ]

  -- Once an entry is posted, posting any entry of its id returns the same receipt and changes
  -- nothing.
  post_entry_again :
      (e e' : JournalEntry) (l : JournalState) (r : JournalReceipt)
      → e'.entry_id ≡ e.entry_id
      → (post_entry sha256_hex e l).0 ≡ ok r
      → let l' = (post_entry sha256_hex e l).1 in post_entry sha256_hex e' l' ≡ (ok r, l')
  unfolding post_entry
  post_entry_again e e' l r same done = elim (Option-cases (lookup e.entry_id l.receipts)) [
    | inl fresh ↦
        ground (arith, post_new_entry-ok e l r, lookup-insert_self e.entry_id r l.receipts)
    | inr (_, again) ↦ ground arith
  ]

  -- An entry that passes every check but the one on the signs is refused with its postings left in
  -- the balances: the journal has the same entries, and the balances no longer reflect it.
  post_entry_refused_keeps_postings :
      (e : JournalEntry) (l : JournalState) (a : StandardAccount) (x : LedgerError)
      → lookup e.entry_id l.receipts ≡ none
      → validate_entry sha256_hex e l ≡ ok tt
      → (post_debits e.debits l.balances).0 ≡ ok tt
      → (post_credits e.credits (post_debits e.debits l.balances).1).0 ≡ ok tt
      → check_signs (posted e l.balances) ≡ err x
      → Reflects l
      → posted_to a e.debits ≢ 0
      → (post_entry sha256_hex e l ≡ (err x, record l { balances = posted e l.balances }))
        × ¬ Reflects (post_entry sha256_hex e l).1
  unfolding post_entry post_new_entry
  post_entry_refused_keeps_postings e l a x fresh valid dd cd bad h some_debit =
      let run : post_entry sha256_hex e l ≡ (err x, record l { balances = posted e l.balances }) =
        ground arith in
      let d = post_debits-ok e.debits l.balances a dd in
      let c = post_credits-ok e.credits (post_debits e.debits l.balances).1 a cd in
      (run, rw run (λ r. some_debit (omega (arith, d.0, c.1, r.debits a, h.debits a))))
