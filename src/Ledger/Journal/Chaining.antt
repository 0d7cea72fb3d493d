-- ===== src/Ledger/Journal/Chaining.antt =====
-- The journal is a hash chain: `post_entry` of double_entry.rs.
use kerosene_node.Base.{
  List, Option, Option-cases, String, [], arith, false, inl, inr, is_empty, length, none, refl,
  some, subst, suc, text_eq, text_iff, ℕ, ◌++◌, ◌+◌, ◌∷◌, ◌≡◌,
}
use kerosene_node.Base.Results.{Result-cases, err, ok}
use kerosene_node.Base.Table.{lookup}
use kerosene_node.Ledger.Errors.{LedgerError}
use kerosene_node.Ledger.Journal.{
  JournalState, check_previous, commit_entry, last_hash, post_entry, post_new_entry, sum_postings,
  validate_entry,
}
use kerosene_node.Ledger.Journal.Hashing.{JournalEntry, compute_entry_hash}
use kerosene_node.Ledger.Journal.Replay.{post_new_entry-ok}
use kerosene_node.Ledger.States.{}

module _ (sha256_hex : List ℕ → String) where
  -- One entry at its place: its number, the link to the entry before it, its own hash, and equal
  -- sums of at least one debit and one credit.
  pub record FitsAt (previous : Option String) (i : ℕ) (e : JournalEntry) : Type 0 where
    pub numbered : e.sequence ≡ i
    pub linked : e.previous_entry_hash ≡ previous
    pub hashed :
        e.entry_hash
        ≡ compute_entry_hash sha256_hex e.entry_id e.sequence e.description e.debits e.credits
            e.timestamp_bucket previous
    pub balanced : sum_postings e.debits ≡ sum_postings e.credits
    pub has_debit : is_empty e.debits ≡ false
    pub has_credit : is_empty e.credits ≡ false

  abbrev pub IsChainedFrom : Option String → ℕ → List JournalEntry → Type 0
  IsChainedFrom previous i [] = Unit
  IsChainedFrom previous i (e ∷ es) =
      FitsAt previous i e × IsChainedFrom (some e.entry_hash) (suc i) es

  abbrev pub IsChained : List JournalEntry → Type 0
  IsChained = IsChainedFrom none 0

  -- The hash that the next entry after `es` must name.
  abbrev end_hash : Option String → List JournalEntry → Option String
  end_hash previous [] = previous
  end_hash previous (e ∷ es) = end_hash (some e.entry_hash) es

  end_hash-last :
      (previous : Option String) (e : JournalEntry) (es : List JournalEntry)
      → end_hash previous (e ∷ es) ≡ last_hash (e ∷ es)
  end_hash-last previous e [] = refl
  end_hash-last previous e (x ∷ es) = end_hash-last (some e.entry_hash) x es

  end_hash-last_hash : (es : List JournalEntry) → end_hash none es ≡ last_hash es
  end_hash-last_hash [] = refl
  end_hash-last_hash (e ∷ es) = end_hash-last none e es

  IsChainedFrom-append :
      (previous : Option String) (i : ℕ) (es : List JournalEntry) (e : JournalEntry)
      → IsChainedFrom previous i es
      → FitsAt (end_hash previous es) (i + length es) e
      → IsChainedFrom previous i (es ++ e ∷ [])
  IsChainedFrom-append previous i [] e h fit =
      (subst (λ n. FitsAt previous n e) (omega arith) fit, tt)
  IsChainedFrom-append previous i (x ∷ es) e h fit = (
    h.0,
    IsChainedFrom-append (some x.entry_hash) (suc i) es e h.1
        (subst (λ n. FitsAt (end_hash (some x.entry_hash) es) n e) (omega arith) fit),
  )

  zero_length : (es : List JournalEntry) → 0 + length es ≡ length es
  zero_length es = omega arith

  check_previous-ok :
      (expected given : Option String) → check_previous expected given ≡ ok tt → given ≡ expected
  unfolding check_previous
  check_previous-ok none none h = refl
  check_previous-ok none (some g) h = cc
  check_previous-ok (some p) none h = cc
  check_previous-ok (some p) (some g) h = ground (arith, text_iff g p)

  validate_entry-ok :
      (e : JournalEntry) (l : JournalState)
      → validate_entry sha256_hex e l ≡ ok tt
      → FitsAt (last_hash l.entries) (length l.entries) e
  unfolding validate_entry
  validate_entry-ok e l h = record {
    numbered = ground arith;
    linked = check_previous-ok (last_hash l.entries) e.previous_entry_hash (ground arith);
    hashed = ground (
      arith,
      text_iff e.entry_hash (
          compute_entry_hash sha256_hex e.entry_id e.sequence e.description e.debits e.credits
            e.timestamp_bucket (last_hash l.entries)),
    );
    balanced = ground arith;
    has_debit = ground arith;
    has_credit = ground arith;
  }

  post_new_entry-err :
      (e : JournalEntry) (l : JournalState) (x : LedgerError)
      → (post_new_entry sha256_hex e l).0 ≡ err x
      → (post_new_entry sha256_hex e l).1.entries ≡ l.entries
  unfolding post_new_entry commit_entry
  post_new_entry-err e l x h = ground arith

  -- Whatever a call of `post_entry` returns, it leaves the journal a chain: entry `i` has the number
  -- `i`, names the hash of the entry before it (none for the first), carries the hash of its own
  -- contents, and has equal sums of debits and credits, with at least one of each.
  pub post_entry-IsChained :
      (e : JournalEntry) (l : JournalState)
      → IsChained l.entries
      → IsChained (post_entry sha256_hex e l).1.entries
  unfolding post_entry
  post_entry-IsChained e l h = elim (Option-cases (lookup e.entry_id l.receipts)) [
    | inr (_, again) ↦ rw (again, post_entry) h
    | inl fresh ↦
        rw (fresh, post_entry)
          (elim (Result-cases (post_new_entry sha256_hex e l).0) [
            | inr (x, bad) ↦ rw (post_new_entry-err e l x bad) h
            | inl (r, good) ↦
                let acc = (post_new_entry-ok sha256_hex e l r good).0 in
                rw (acc.entries) (
                  IsChainedFrom-append none 0 l.entries e h (
                    rw (zero_length l.entries, end_hash-last_hash l.entries)
                      (validate_entry-ok e l acc.valid)))
          ])
  ]
