-- ===== src/Ledger/Journal/Hashing.antt =====
-- Postings, journal entries and their hash: crates/kerosene-ledger/src/double_entry.rs.
use kerosene_node.Base.{List, Option, String, [], none, some, ℕ, ◌++◌, ◌∷◌}
use kerosene_node.Base.Text.{as_bytes, decimal, to_le_bytes, ◌+++◌}
use kerosene_node.Ledger.Chart.{StandardAccount, account_repr}
use kerosene_node.Ledger.States.{}

pub record Posting : Type 0 where
  pub account : StandardAccount
  pub amount_sats : ℕ

pub record JournalEntry : Type 0 where
  pub entry_id : String
  pub sequence : ℕ
  pub description : String
  pub debits : List Posting
  pub credits : List Posting
  pub timestamp_bucket : ℕ
  pub entry_hash : String
  pub previous_entry_hash : Option String

-- What `hash_postings` feeds to the hasher.
unfoldable pub postings_bytes : List Posting → List ℕ
postings_bytes [] = []
postings_bytes (p ∷ ps) =
    as_bytes (account_repr p.account)
    ++ (58 ∷ (to_le_bytes 8 p.amount_sats ++ (44 ∷ postings_bytes ps)))

abbrev or_empty : Option String → String
or_empty none = ""
or_empty (some s) = s

unfoldable pub compute_entry_hash :
    (List ℕ → String)
    → String
    → ℕ
    → String
    → List Posting
    → List Posting
    → ℕ
    → Option String
    → String
compute_entry_hash sha256_hex id sequence description debits credits timestamp previous =
    sha256_hex (
      as_bytes (
        id
        +++ "|"
        +++ decimal sequence
        +++ "|"
        +++ description
        +++ "|"
        +++ sha256_hex (postings_bytes debits)
        +++ "|"
        +++ sha256_hex (postings_bytes credits)
        +++ "|"
        +++ or_empty previous
        +++ "|"
        +++ decimal timestamp))
