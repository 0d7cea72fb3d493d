-- ===== src/Ledger/Journal.antt =====
-- The double-entry journal: crates/kerosene-ledger/src/double_entry.rs. SHA-256 with hex encoding is
-- a parameter. A method holds the mutex throughout, so it is one handler over the inner state.
pub mod Hashing
pub mod Postings
pub mod Chaining
pub mod Replay
use mathlib.Core.Option
use Hashing.{Posting, JournalEntry, compute_entry_hash}
use kerosene_node.Base.{
  Bool, List, Option, String, [], get_elem?, get_last?, if◌then◌else◌, is_empty, leb, length, ltb,
  map, nat_eq, none, not, some, text_eq, ℕ, ◌++◌, ◌+◌, ◌==◌, ◌||◌, ◌∷◌,
}
use kerosene_node.Base.Int.{as_i128, i128_checked_sub, is_negative, is_positive, pos, ℤ}
use kerosene_node.Base.Results.{
  bind as ◌>>=◌, then_do as ◌>>◌, Handler, Result, assign, check, err, ok, ok_or, return, then_do,
}
use kerosene_node.Base.Table.{Table, insert, lookup}
use kerosene_node.Base.Text.{as_bytes, decimal, decimal_int, ◌+++◌}
use kerosene_node.Base.Words.{u128_checked_add}
use kerosene_node.Ledger.Chart.{
  AccountClass, StandardAccount, account_eq, account_repr, all_accounts, asset, class, equity,
  expense, liability, ordinal, revenue,
}
use kerosene_node.Ledger.Errors.{
  LedgerError, account_not_found, balance_overflow, computed_hash, duplicate_sequence, empty_entry,
  genesis_with_previous, invalid_hash, negative_balance, non_genesis_without_previous,
  previous_hash_mismatch, sequence_gap, unbalanced_entry,
}
use kerosene_node.Ledger.States.{}

pub record AccountBalance : Type 0 where
  pub account : StandardAccount
  pub account_class : AccountClass
  pub total_debits_sats : ℕ
  pub total_credits_sats : ℕ
  pub net_balance_sats : ℤ

pub record JournalReceipt : Type 0 where
  pub sequence : ℕ
  pub entry_hash : String
  pub previous_entry_hash : Option String
  pub account_balances : List AccountBalance
  pub trial_balance_hash : String

abbrev pub Balances : Type 0
Balances = Table StandardAccount AccountBalance

-- `InMemoryLedgerInner`
pub record JournalState : Type 0 where
  pub entries : List JournalEntry
  pub balances : Balances
  pub receipts : Table String JournalReceipt

abbrev pub zero_balance : StandardAccount → AccountBalance
zero_balance acc = record {
  account = acc;
  account_class = class acc;
  total_debits_sats = 0;
  total_credits_sats = 0;
  net_balance_sats = pos 0;
}

abbrev pub initial_balances : Balances
initial_balances = map (λ acc. (acc, zero_balance acc)) all_accounts

unfoldable pub new_journal : JournalState
new_journal = record { entries = []; balances = initial_balances; receipts = [] }

abbrev pub sum_postings : List Posting → ℕ
sum_postings [] = 0
sum_postings (p ∷ ps) = p.amount_sats + sum_postings ps

-- The body of the loop over the debits, on the account's balance. An overflow of the net balance
-- leaves the new total in place.
unfoldable pub debit_balance : ℕ → Handler AccountBalance LedgerError (Unit {0})
debit_balance amount = do
  total ←
      check λ b. ok_or (u128_checked_add b.total_debits_sats amount) (balance_overflow b.account)
  assign λ b. record b { total_debits_sats = total }
  net ← check λ b.
      ok_or (i128_checked_sub (as_i128 b.total_debits_sats) (as_i128 b.total_credits_sats))
        (balance_overflow b.account)
  assign λ b. record b { net_balance_sats = net }

unfoldable pub credit_balance : ℕ → Handler AccountBalance LedgerError (Unit {0})
credit_balance amount = do
  total ←
      check λ b. ok_or (u128_checked_add b.total_credits_sats amount) (balance_overflow b.account)
  assign λ b. record b { total_credits_sats = total }
  net ← check λ b.
      ok_or (i128_checked_sub (as_i128 b.total_debits_sats) (as_i128 b.total_credits_sats))
        (balance_overflow b.account)
  assign λ b. record b { net_balance_sats = net }

-- `balances.get_mut(&account)` with a method run on what it finds.
abbrev pub on_balance :
    StandardAccount
    → Handler AccountBalance LedgerError (Unit {0})
    → Handler Balances LedgerError (Unit {0})
on_balance acc op m = elim (lookup acc m) [
  | none ↦ (err (account_not_found acc), m)
  | some b ↦ (let (r, b') = op b in (r, insert acc b' m))
]

unfoldable pub post_debits : List Posting → Handler Balances LedgerError (Unit {0})
post_debits [] = return tt
post_debits (p ∷ ps) = then_do (on_balance p.account (debit_balance p.amount_sats)) (post_debits ps)

unfoldable pub post_credits : List Posting → Handler Balances LedgerError (Unit {0})
post_credits [] = return tt
post_credits (p ∷ ps) =
    then_do (on_balance p.account (credit_balance p.amount_sats)) (post_credits ps)

-- Assets and expenses must not be in credit, the other classes not in debit.
abbrev pub has_wrong_sign : AccountBalance → Bool
has_wrong_sign b = elim b.account_class [
  | asset ↦ is_negative b.net_balance_sats
  | expense ↦ is_negative b.net_balance_sats
  | liability ↦ is_positive b.net_balance_sats
  | equity ↦ is_positive b.net_balance_sats
  | revenue ↦ is_positive b.net_balance_sats
]

unfoldable pub check_signs : Balances → Result LedgerError (Unit {0})
check_signs [] = ok tt
check_signs ((_, b) ∷ m) =
    let rest = check_signs m in
    if has_wrong_sign b then err (negative_balance b.account b.net_balance_sats) else rest

-- Step 6 of `post_entry`: the link to the previous entry.
unfoldable pub check_previous : Option String → Option String → Result LedgerError (Unit {0})
check_previous (some expected) (some given) =
    if given == expected then ok tt else err (invalid_hash (previous_hash_mismatch expected given))
check_previous none (some given) = err (invalid_hash genesis_with_previous)
check_previous (some expected) none = err (invalid_hash non_genesis_without_previous)
check_previous none none = ok tt

abbrev pub last_hash : List JournalEntry → Option String
last_hash es = Option.map (λ e. e.entry_hash) (get_last? es)

-- `sort_by_key` on the account
abbrev pub insert_sorted : AccountBalance → List AccountBalance → List AccountBalance
insert_sorted b [] = b ∷ []
insert_sorted b (c ∷ cs) =
    if leb (ordinal b.account) (ordinal c.account) then b ∷ c ∷ cs else c ∷ insert_sorted b cs

pub sorted_balances : Balances → List AccountBalance
sorted_balances [] = []
sorted_balances ((_, b) ∷ m) = insert_sorted b (sorted_balances m)

abbrev pub on_balances :
    Handler Balances LedgerError (Unit {0}) → Handler JournalState LedgerError (Unit {0})
on_balances op l = let (r, m) = op l.balances in (r, record l { balances = m })

module _ (sha256_hex : List ℕ → String) where
  pub trial_balance_line : AccountBalance → List ℕ
  trial_balance_line b =
      as_bytes (
        account_repr b.account
        +++ "|"
        +++ decimal b.total_debits_sats
        +++ "|"
        +++ decimal b.total_credits_sats
        +++ "|"
        +++ decimal_int b.net_balance_sats)
      ++ 10 ∷ []

  pub trial_balance_bytes : List AccountBalance → List ℕ
  trial_balance_bytes [] = []
  trial_balance_bytes (b ∷ bs) = trial_balance_line b ++ trial_balance_bytes bs

  pub compute_trial_balance_hash : Balances → String
  compute_trial_balance_hash m = sha256_hex (trial_balance_bytes (sorted_balances m))

  -- Steps 1 to 6 of `post_entry`: they read the state and return early.
  unfoldable pub validate_entry : JournalEntry → JournalState → Result LedgerError (Unit {0})
  validate_entry e l =
      let computed =
        compute_entry_hash sha256_hex e.entry_id e.sequence e.description e.debits e.credits
          e.timestamp_bucket (last_hash l.entries) in
      let expected = length l.entries in
      if is_empty e.debits || is_empty e.credits
      then err empty_entry
      else if not (sum_postings e.debits == sum_postings e.credits)
      then err (unbalanced_entry (sum_postings e.debits) (sum_postings e.credits))
      else if not (e.sequence == expected)
      then err (sequence_gap expected e.sequence)
      else if ltb e.sequence expected
      then err (duplicate_sequence e.sequence)
      else if not (e.entry_hash == computed)
      then err (invalid_hash (computed_hash computed))
      else check_previous (last_hash l.entries) e.previous_entry_hash

  pub receipt_of : JournalEntry → Balances → JournalReceipt
  receipt_of e m = record {
    sequence = e.sequence;
    entry_hash = e.entry_hash;
    previous_entry_hash = e.previous_entry_hash;
    account_balances = sorted_balances m;
    trial_balance_hash = compute_trial_balance_hash m;
  }

  unfoldable pub commit_entry : JournalEntry → Handler JournalState LedgerError JournalReceipt
  commit_entry e l =
      let receipt = receipt_of e l.balances in
      (
        ok receipt,
        record l { entries = l.entries ++ e ∷ []; receipts = insert e.entry_id receipt l.receipts },
      )

  -- `post_entry` for an id that has no receipt.
  unfoldable pub post_new_entry : JournalEntry → Handler JournalState LedgerError JournalReceipt
  post_new_entry e = do
    check (validate_entry e)
    on_balances (post_debits e.debits)
    on_balances (post_credits e.credits)
    check λ l. check_signs l.balances
    commit_entry e

  unfoldable pub post_entry : JournalEntry → Handler JournalState LedgerError JournalReceipt
  post_entry e l = elim (lookup e.entry_id l.receipts) [
    | some existing ↦ (ok existing, l)
    | none ↦ post_new_entry e l
  ]

-- The read-only methods.
pub account_balance : StandardAccount → JournalState → Result LedgerError AccountBalance
account_balance acc l = ok_or (lookup acc l.balances) (account_not_found acc)

pub trial_balance : JournalState → List AccountBalance
trial_balance l = sorted_balances l.balances

pub get_entry : ℕ → JournalState → Option JournalEntry
get_entry sequence l = get_elem? l.entries sequence

pub entry_count : JournalState → ℕ
entry_count l = length l.entries

pub head_hash : JournalState → Option String
head_hash l = last_hash l.entries
