-- ===== src/Ledger/State.antt =====
-- The ledger's state and its commands: the data of crates/kerosene-ledger/src/state_machine.rs.
use kerosene_node.Base.{List, Option, String, [], length, none, some, ℕ, ◌++◌, ◌∷◌}
use kerosene_node.Base.Text.{as_bytes, to_le_bytes}
use kerosene_node.Ledger.Account.{AccountState}
use kerosene_node.Ledger.Certificates.{Crypto}
use kerosene_node.Ledger.Chain.{UtxoEntry}
use kerosene_node.Ledger.Journal.Hashing.{JournalEntry}
use kerosene_node.Ledger.Reservations.{Reservation}
use kerosene_node.Ledger.States.{}

pub data LedgerCommandType : Type 0 where
  credit_internal_balance debit_internal_balance reserve_balance : LedgerCommandType
  release_reserved_balance commit_internal_transfer : LedgerCommandType
  detect_utxo confirm_utxo mark_utxo_spendable : LedgerCommandType
  reserve_utxo_command release_utxo_command mark_utxo_spent : LedgerCommandType
  prepare_withdrawal authorize_withdrawal broadcast_withdrawal : LedgerCommandType
  confirm_withdrawal fail_withdrawal apply_chain_reorganization : LedgerCommandType
  consume_intent expire_intent : LedgerCommandType
  add_observer_node promote_voting_node remove_node install_snapshot : LedgerCommandType

-- `command_type as u8`
abbrev pub command_code : LedgerCommandType → ℕ
command_code credit_internal_balance = 0
command_code debit_internal_balance = 1
command_code reserve_balance = 2
command_code release_reserved_balance = 3
command_code commit_internal_transfer = 4
command_code detect_utxo = 5
command_code confirm_utxo = 6
command_code mark_utxo_spendable = 7
command_code reserve_utxo_command = 8
command_code release_utxo_command = 9
command_code mark_utxo_spent = 10
command_code prepare_withdrawal = 11
command_code authorize_withdrawal = 12
command_code broadcast_withdrawal = 13
command_code confirm_withdrawal = 14
command_code fail_withdrawal = 15
command_code apply_chain_reorganization = 16
command_code consume_intent = 17
command_code expire_intent = 18
command_code add_observer_node = 19
command_code promote_voting_node = 20
command_code remove_node = 21
command_code install_snapshot = 22

pub record LedgerCommand : Type 0 where
  pub command_id : String
  pub command_type : LedgerCommandType
  pub partition_key : String
  pub expected_version : Option ℕ
  pub payload_hash : String
  pub authorization_commitment : String
  pub epoch : ℕ
  pub created_at_bucket : ℕ

abbrev option_version_bytes : Option ℕ → List ℕ
option_version_bytes (some v) = 1 ∷ to_le_bytes 8 v
option_version_bytes none = 0 ∷ []

-- A text behind its length in bytes.
abbrev pub prefixed : String → List ℕ
prefixed s = to_le_bytes 8 (length (as_bytes s)) ++ as_bytes s

-- What `compute_payload_hash` feeds to the hasher.
unfoldable pub payload_bytes : LedgerCommand → List ℕ
payload_bytes c =
    as_bytes "KROOTv1:LedgerCommand"
    ++ (command_code c.command_type
        ∷ (option_version_bytes c.expected_version
            ++ (prefixed c.partition_key
                ++ (prefixed c.authorization_commitment
                    ++ (to_le_bytes 8 c.epoch ++ to_le_bytes 8 c.created_at_bucket)))))

unfoldable pub compute_payload_hash : Crypto → LedgerCommand → String
compute_payload_hash crypto c = crypto.hex_encode (crypto.sha256 (payload_bytes c))

-- `LedgerCommand::new`
pub new_command :
    Crypto → String → LedgerCommandType → String → Option ℕ → String → ℕ → ℕ → LedgerCommand
new_command crypto id type key version commitment epoch created =
    let cmd : LedgerCommand = record {
      command_id = id;
      command_type = type;
      partition_key = key;
      expected_version = version;
      payload_hash = "";
      authorization_commitment = commitment;
      epoch = epoch;
      created_at_bucket = created;
    } in
    record cmd { payload_hash = compute_payload_hash crypto cmd }

pub data ConsensusProfile : Type 0 where
  single ha_crash bft_f1 bft_f2 : ConsensusProfile

pub record MembershipView : Type 0 where
  pub cluster_id : String
  pub nodes : List String
  pub active_profile : ConsensusProfile

pub record LedgerState : Type 0 where
  pub version : ℕ
  pub accounts : List AccountState
  pub journal : List JournalEntry
  pub reservations : List Reservation
  pub consumed_intents : List String
  pub membership : MembershipView
  pub utxos : List UtxoEntry

-- `LedgerState::empty`
pub empty_state : MembershipView → LedgerState
empty_state membership = record {
  version = 0;
  accounts = [];
  journal = [];
  reservations = [];
  consumed_intents = [];
  membership = membership;
  utxos = [];
}
