-- ===== src/Ledger/Tests/Posting.antt =====
-- Runs of the double-entry journal of double_entry.rs, under a toy hash.
use kerosene_node.Base.{
  List, String, [], arith, nat_eq, none, refl, ℕ, ◌%◌, ◌+◌, ◌∷◌, ◌≡◌, if◌then◌else◌, ◌==◌, text_eq,
  false, true, ◌++◌, ◌⊎◌,
}
use kerosene_node.Base.Results.{ok, is_ok}
use kerosene_node.Base.Text.{as_bytes, decimal, to_le_bytes}
use kerosene_node.Ledger.Chain.{outpoint_eq}
use kerosene_node.Ledger.Chart.{
  asset_hot_btc, liability_user_balances, account_repr, class, account_eq,
}
use kerosene_node.Ledger.Journal.{
  check_previous, check_signs, commit_entry, credit_balance, debit_balance, initial_balances,
  new_journal, post_credits, post_debits, post_entry, post_new_entry, receipt_of, validate_entry,
}
use kerosene_node.Ledger.Journal.Chaining.{IsChained, post_entry-IsChained}
use kerosene_node.Ledger.Journal.Hashing.{JournalEntry, compute_entry_hash, postings_bytes}
use kerosene_node.Ledger.Journal.Replay.{
  IsRecorded, IsRefused, Reflects, post_entry-IsRecorded, posted,
}
use kerosene_node.Ledger.States.{onchain_eq, reservation_state_eq, role_eq, withdrawal_status_eq}

abbrev toy_sum : List ℕ → ℕ
toy_sum [] = 0
toy_sum (b ∷ bs) = (b + toy_sum bs) % 5

abbrev toy_hash : List ℕ → String
toy_hash bs = if toy_sum bs == 0 then "h0" else "h1"

abbrev with_hash : JournalEntry → JournalEntry
with_hash e = record e {
  entry_hash =
      compute_entry_hash toy_hash e.entry_id e.sequence e.description e.debits e.credits
        e.timestamp_bucket e.previous_entry_hash;
}

-- A deposit of 100 sats.
abbrev deposit : JournalEntry
deposit = with_hash (record {
  entry_id = "e0";
  sequence = 0;
  description = "deposit";
  debits = record { account = asset_hot_btc; amount_sats = 100 } ∷ [];
  credits = record { account = liability_user_balances; amount_sats = 100 } ∷ [];
  timestamp_bucket = 1;
  entry_hash = "";
  previous_entry_hash = none;
})

deposited :
    (post_entry toy_hash deposit new_journal).0
    ≡ ok (receipt_of toy_hash deposit (posted deposit initial_balances))
unfolding post_entry post_new_entry new_journal validate_entry post_debits post_credits
    debit_balance credit_balance check_signs check_previous commit_entry compute_entry_hash as_bytes
    decimal postings_bytes account_repr to_le_bytes class
deposited = refl

new_journal-Reflects : Reflects new_journal
unfolding new_journal
new_journal-Reflects = record { debits = λ a. ground arith; credits = λ a. ground arith }

post_entry-IsRecorded_example :
    let (r, l) = post_entry toy_hash deposit new_journal in
    ((is_ok r ≡ true)
      × ((l ≡ new_journal) ⊎ (l.entries ≡ new_journal.entries ++ deposit ∷ []))
      × IsRecorded toy_hash new_journal l asset_hot_btc)
    ⊎ ((is_ok r ≡ false) × IsRefused toy_hash deposit new_journal l asset_hot_btc)
post_entry-IsRecorded_example = post_entry-IsRecorded toy_hash deposit new_journal asset_hot_btc

post_entry-IsChained_example :
    IsChained toy_hash (post_entry toy_hash deposit new_journal).1.entries
unfolding new_journal
post_entry-IsChained_example = post_entry-IsChained toy_hash deposit new_journal tt
