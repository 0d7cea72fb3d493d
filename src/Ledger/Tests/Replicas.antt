-- ===== src/Ledger/Tests/Replicas.antt =====
-- Runs of snapshot.rs and replication.rs, under a toy hash.
use kerosene_node.Base.{
  List, Option, [], arith, if◌then◌else◌, length, nat_eq, none, refl, some, suc, text_eq, true,
  zero, ℕ, ◌%◌, ◌+◌, ◌==◌, ◌∷◌, ◌≡◌,
}
use kerosene_node.Base.Results.{err, ok}
use kerosene_node.Base.Text.{parse_codes, split_once}
use kerosene_node.Base.Words.{u64_mod}
use kerosene_node.Ledger.Certificates.{Crypto}
use kerosene_node.Ledger.Chain.{from_canonical_string, outpoint_eq}
use kerosene_node.Ledger.Chart.{account_eq}
use kerosene_node.Ledger.Errors.{utxo_not_found}
use kerosene_node.Ledger.Machine.Applying.{apply_ledger, perform, perform_as}
use kerosene_node.Ledger.Machine.Validation.{Payloads, validate, validate_utxo}
use kerosene_node.Ledger.Replication.{replay}
use kerosene_node.Ledger.Replication.Replaying.{StopsAt, replay-StopsAt, replay-version}
use kerosene_node.Ledger.Snapshots.{CertifiedSnapshot, no_snapshots}
use kerosene_node.Ledger.Snapshots.Saving.{
  IsIndexed, no_snapshots-IsIndexed, save_all, save_all-IsIndexed,
}
use kerosene_node.Ledger.State.{
  ConsensusProfile, LedgerCommand, LedgerState, mark_utxo_spent, prepare_withdrawal,
}
use kerosene_node.Ledger.States.{onchain_eq, reservation_state_eq, role_eq, withdrawal_status_eq}

abbrev pub zeros_ : ℕ → List ℕ
zeros_ zero = []
zeros_ (suc n) = 0 ∷ zeros_ n

abbrev pub flat : Crypto
flat = record {
  sha256 = λ bs. length bs ∷ [];
  hex_encode = λ bs. "ff";
  hex_decode = λ s. some (if s == "key" then zeros_ 32 else zeros_ 64);
  is_key = λ bs. true;
  verifies = λ key message signature. true;
}

abbrev pub unreadable : Payloads
unreadable = record { read_detect = λ s. none; read_reorg = λ s. none }

abbrev pub ledger_at : ℕ → LedgerState
ledger_at version = record {
  version = version;
  accounts = [];
  journal = [];
  reservations = [];
  consumed_intents = [];
  membership = record {
    cluster_id = "c";
    nodes = "n" ∷ [];
    active_profile = ConsensusProfile.single;
  };
  utxos = [];
}

abbrev pub read_ledger : List ℕ → Option LedgerState
read_ledger bytes = some (ledger_at 40)

abbrev pub snapshot_at : ℕ → CertifiedSnapshot
snapshot_at sequence = record {
  cluster_id = "c";
  epoch = 1;
  sequence = sequence;
  state_bytes = 1 ∷ [];
  state_root = "ff";
  membership_hash = "m";
  constitution_hash = "k";
  policy_hash = "p";
  ledger_totals_hash = "l";
  utxo_set_root = "u";
  consumed_intents_root = "i";
  quorum_certificate = record {
    cluster_id = "c";
    epoch = 1;
    view = 0;
    sequence = sequence;
    command_hash = "cmd";
    previous_state_root = "r0";
    resulting_state_root = "r1";
    signer_bitmap = 1 ∷ [];
    signatures = record { node_id = "n1"; signature_hex = "sig"; public_key_hex = "key" } ∷ [];
  };
}

save_all-IsIndexed_example :
    IsIndexed flat read_ledger
      (save_all flat read_ledger (snapshot_at 5 ∷ snapshot_at 3 ∷ []) no_snapshots)
save_all-IsIndexed_example =
    save_all-IsIndexed flat read_ledger (snapshot_at 5 ∷ snapshot_at 3 ∷ []) no_snapshots
      (no_snapshots-IsIndexed flat read_ledger)

abbrev pub prepare : LedgerCommand
prepare = record {
  command_id = "c1";
  command_type = prepare_withdrawal;
  partition_key = "w";
  expected_version = none;
  payload_hash = "h";
  authorization_commitment = "";
  epoch = 1;
  created_at_bucket = 2;
}

abbrev spend_unknown : LedgerCommand
spend_unknown = record prepare { command_type = mark_utxo_spent; partition_key = "t:0" }

two_replayed :
    replay (apply_ledger flat unreadable) (prepare ∷ prepare ∷ []) (ledger_at 7)
    ≡ (ok tt, ledger_at 9)
unfolding replay apply_ledger perform perform_as validate
two_replayed = refl

replay-version_example : 9 ≡ (7 + 2) % u64_mod
replay-version_example =
    replay-version flat unreadable (prepare ∷ prepare ∷ []) (ledger_at 7) (ledger_at 9)
      (omega arith) two_replayed

stopped :
    replay (apply_ledger flat unreadable) (prepare ∷ spend_unknown ∷ prepare ∷ []) (ledger_at 7)
    ≡ (err (utxo_not_found "t" 0), ledger_at 8)
unfolding replay apply_ledger perform perform_as validate validate_utxo from_canonical_string
    split_once parse_codes
stopped = refl

replay-StopsAt_example :
    StopsAt
      (apply_ledger flat unreadable)
      (prepare ∷ spend_unknown ∷ prepare ∷ [])
      (ledger_at 7)
      (utxo_not_found "t" 0)
      (ledger_at 8)
replay-StopsAt_example =
    replay-StopsAt (apply_ledger flat unreadable) (prepare ∷ spend_unknown ∷ prepare ∷ [])
      (ledger_at 7) (utxo_not_found "t" 0) (ledger_at 8) stopped
