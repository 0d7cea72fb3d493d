-- ===== src/Ledger/Roots.antt =====
-- State roots: crates/kerosene-ledger/src/state_root.rs, and `compute_utxo_root` of
-- crates/kerosene-ledger/src/chain.rs.
pub mod Sorting
pub mod Order
pub mod Ambiguity
use Prim.Native.String.{compare as compare_text}
use Sorting.{sort_bytes}
use kerosene_node.Base.{
  List, Option, String, [], if◌then◌else◌, length, map, none, some, ℕ, ◌++◌, ◌∷◌,
}
use kerosene_node.Base.Text.{as_bytes, to_le_bytes}
use kerosene_node.Ledger.Account.{AccountState}
use kerosene_node.Ledger.Certificates.{Crypto}
use kerosene_node.Ledger.Chain.{UtxoEntry, canonical_key}
use kerosene_node.Ledger.Journal.Hashing.{JournalEntry}
use kerosene_node.Ledger.Reservations.{Reservation}
use kerosene_node.Ledger.State.{
  ConsensusProfile, LedgerState, MembershipView, bft_f1, bft_f2, ha_crash, prefixed, single,
}
use kerosene_node.Ledger.States.{onchain_code, reservation_state_code}
use text.Mathlib.Text.{is_le}

-- `sort_by` on the canonical key
abbrev pub insert_by_key : UtxoEntry → List UtxoEntry → List UtxoEntry
insert_by_key u [] = u ∷ []
insert_by_key u (v ∷ vs) =
    if is_le (compare_text (canonical_key u) (canonical_key v))
    then u ∷ v ∷ vs
    else v ∷ insert_by_key u vs

pub sort_by_key : List UtxoEntry → List UtxoEntry
sort_by_key [] = []
sort_by_key (u ∷ us) = insert_by_key u (sort_by_key us)

abbrev pub insert_node : String → List String → List String
insert_node s [] = s ∷ []
insert_node s (t ∷ ts) = if is_le (compare_text s t) then s ∷ t ∷ ts else t ∷ insert_node s ts

pub sort_nodes : List String → List String
sort_nodes [] = []
sort_nodes (s ∷ ss) = insert_node s (sort_nodes ss)

pub option_u64_bytes : Option ℕ → List ℕ
option_u64_bytes (some n) = 1 ∷ to_le_bytes 8 n
option_u64_bytes none = 0 ∷ []

pub option_text_bytes : Option String → List ℕ
option_text_bytes (some s) = 1 ∷ prefixed s
option_text_bytes none = 0 ∷ []

abbrev pub concat_bytes : List (List ℕ) → List ℕ
concat_bytes [] = []
concat_bytes (b ∷ bs) = b ++ concat_bytes bs

-- What `compute_utxo_root` hashes of one entry.
pub utxo_bytes : UtxoEntry → List ℕ
utxo_bytes u = concat_bytes (
    (onchain_code u.state ∷ [])
    ∷ to_le_bytes 8 u.value_sats
    ∷ to_le_bytes 4 u.outpoint.vout
    ∷ to_le_bytes 8 u.detected_at_bucket
    ∷ option_u64_bytes u.block_height
    ∷ option_u64_bytes u.confirmed_at_bucket
    ∷ option_u64_bytes u.reserved_at_bucket
    ∷ option_u64_bytes u.spent_at_bucket
    ∷ option_text_bytes u.reserved_by
    ∷ option_text_bytes u.spent_by_txid
    ∷ prefixed u.outpoint.txid
    ∷ prefixed u.address
    ∷ prefixed (canonical_key u)
    ∷ [])

-- What `hash_account` hashes.
pub account_bytes : AccountState → List ℕ
account_bytes a = concat_bytes (
    to_le_bytes 8 a.version
    ∷ to_le_bytes 8 a.available_sats
    ∷ to_le_bytes 8 a.reserved_sats
    ∷ to_le_bytes 8 a.pending_incoming_sats
    ∷ to_le_bytes 8 a.pending_outgoing_sats
    ∷ to_le_bytes 8 a.last_committed_sequence
    ∷ as_bytes a.account_id
    ∷ [])

-- What `hash_reservation` hashes: the three texts stand one behind the other with no lengths.
pub reservation_bytes : Reservation → List ℕ
reservation_bytes r = concat_bytes (
    to_le_bytes 8 r.amount_sats
    ∷ to_le_bytes 8 r.created_at_bucket
    ∷ to_le_bytes 8 r.expires_at_bucket
    ∷ to_le_bytes 8 r.committed_sequence
    ∷ (reservation_state_code r.state ∷ [])
    ∷ as_bytes r.account_id
    ∷ as_bytes r.reservation_id
    ∷ as_bytes r.authorization_commitment
    ∷ [])

pub profile_code : ConsensusProfile → ℕ
profile_code single = 0
profile_code ha_crash = 1
profile_code bft_f1 = 2
profile_code bft_f2 = 3

pub nodes_bytes : List String → List ℕ
nodes_bytes [] = []
nodes_bytes (n ∷ ns) = prefixed n ++ nodes_bytes ns

-- `encode_membership`
pub membership_bytes : MembershipView → List ℕ
membership_bytes m =
    let sorted = sort_nodes m.nodes in
    profile_code m.active_profile
    ∷ (prefixed m.cluster_id ++ (to_le_bytes 8 (length sorted) ++ nodes_bytes sorted))

module _ (crypto : Crypto) where
  open crypto use {sha256, hex_encode}

  pub hash_with_domain : String → List ℕ → List ℕ
  hash_with_domain tag payload = sha256 (as_bytes tag ++ (as_bytes ":" ++ payload))

  pub hash_account : AccountState → List ℕ
  hash_account a = hash_with_domain "KROOTv1:acct" (account_bytes a)

  pub hash_journal_entry : JournalEntry → List ℕ
  hash_journal_entry e = hash_with_domain "KROOTv1:jent" (as_bytes e.entry_hash)

  pub hash_reservation : Reservation → List ℕ
  hash_reservation r = hash_with_domain "KROOTv1:resv" (reservation_bytes r)

  pub hash_intent : String → List ℕ
  hash_intent intent = hash_with_domain "KROOTv1:intent" (as_bytes intent)

  -- `hash_sorted_items`, on the items' hashes
  pub hash_sorted : String → List (List ℕ) → List ℕ
  hash_sorted tag hashes =
      sha256 (as_bytes tag ++ (as_bytes ":" ++ concat_bytes (sort_bytes hashes)))

  pub compute_utxo_root : List UtxoEntry → String
  compute_utxo_root us =
      let hashes = sort_bytes (map (λ u. sha256 (utxo_bytes u)) (sort_by_key us)) in
      hex_encode (sha256 (as_bytes "KROOTv1:utxos" ++ concat_bytes hashes))

  abbrev pub tagged : String → List ℕ → List ℕ
  tagged tag hash = as_bytes tag ++ (as_bytes ":" ++ hash)

  pub compute_state_root : LedgerState → String
  compute_state_root s = hex_encode (
      sha256 (
        concat_bytes (
          tagged "KROOTv1:version" (to_le_bytes 8 s.version)
          ∷ tagged "KROOTv1:accounts" (hash_sorted "KROOTv1:accounts" (map hash_account s.accounts))
          ∷ tagged "KROOTv1:journal"
              (hash_sorted "KROOTv1:journal" (map hash_journal_entry s.journal))
          ∷ tagged "KROOTv1:reservations"
              (hash_sorted "KROOTv1:reservations" (map hash_reservation s.reservations))
          ∷ tagged "KROOTv1:intents"
              (hash_sorted "KROOTv1:intents" (map hash_intent s.consumed_intents))
          ∷ tagged "KROOTv1:membership"
              (hash_with_domain "KROOTv1:mem" (membership_bytes s.membership))
          ∷ tagged "KROOTv1:utxos"
              (hash_with_domain "KROOTv1:utxos" (as_bytes (compute_utxo_root s.utxos)))
          ∷ [])))

  pub compute_membership_hash : MembershipView → String
  compute_membership_hash m = hex_encode (hash_with_domain "KROOTv1:mem" (membership_bytes m))

  unfoldable pub compute_accounts_root : List AccountState → String
  compute_accounts_root accounts =
      hex_encode (hash_sorted "KROOTv1:accounts" (map hash_account accounts))

  unfoldable pub compute_journal_root : List JournalEntry → String
  compute_journal_root entries =
      hex_encode (hash_sorted "KROOTv1:journal" (map hash_journal_entry entries))

  unfoldable pub compute_reservations_root : List Reservation → String
  compute_reservations_root reservations =
      hex_encode (hash_sorted "KROOTv1:reservations" (map hash_reservation reservations))

  unfoldable pub compute_intents_root : List String → String
  compute_intents_root intents =
      hex_encode (hash_sorted "KROOTv1:intents" (map hash_intent intents))
