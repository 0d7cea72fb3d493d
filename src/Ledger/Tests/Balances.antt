-- ===== src/Ledger/Tests/Balances.antt =====
-- Runs of account_state.rs and of the account store of in_memory.rs.
use kerosene_node.Base.{[], arith, refl, true, ◌%◌, ◌+◌, ◌∷◌, ◌≡◌, text_iff, nat_eq, text_eq}
use kerosene_node.Base.Results.{err, is_ok}
use kerosene_node.Base.Words.{u64_mod}
use kerosene_node.Ledger.Account.{
  AccountState, apply_credit, apply_debit, apply_reserve, check_version,
}
use kerosene_node.Ledger.Account.Effects.{IfOk, InRange, Moves, SameElse, apply_operation-Moves}
use kerosene_node.Ledger.Accounts.{Accounts, apply_command, apply_transfer, on_entry, open_entry}
use kerosene_node.Ledger.Accounts.Refinement.{
  Performs, account_at, apply_command-Performs, apply_command_twice, IsKeyed,
}
use kerosene_node.Ledger.Accounts.Transfers.{
  Transfers, apply_transfer-Transfers, apply_transfer_self_mints, total_sats,
}
use kerosene_node.Ledger.Chain.{outpoint_eq}
use kerosene_node.Ledger.Chart.{account_eq}
use kerosene_node.Ledger.Commands.{
  BalanceCommand, InternalTransferCommand, apply_operation, debit, reserve,
}
use kerosene_node.Ledger.Errors.{version_conflict}
use kerosene_node.Ledger.States.{onchain_eq, reservation_state_eq, role_eq, withdrawal_status_eq}

abbrev alice : AccountState
alice = record {
  account_id = "alice";
  version = 3;
  available_sats = 100;
  reserved_sats = 10;
  pending_incoming_sats = 0;
  pending_outgoing_sats = 0;
  last_committed_sequence = 7;
}

abbrev bob : AccountState
bob = record alice { account_id = "bob"; version = 5; available_sats = 40 }

abbrev store : Accounts
store = ("alice", alice) ∷ ("bob", bob) ∷ []

abbrev reserve_30 : BalanceCommand
reserve_30 = record {
  command_id = "c1";
  account_id = "alice";
  expected_version = 3;
  operation = reserve;
  amount_sats = 30;
  epoch = 1;
  payload_hash = "";
}

abbrev debit_80 : BalanceCommand
debit_80 = record reserve_30 { command_id = "c2"; operation = debit; amount_sats = 80 }

abbrev pay_bob : InternalTransferCommand
pay_bob = record {
  command_id = "t1";
  source_account_id = "alice";
  source_expected_version = 3;
  destination_account_id = "bob";
  destination_expected_version = 5;
  amount_sats = 60;
  authorization_commitment = "";
}

abbrev pay_self : InternalTransferCommand
pay_self = record pay_bob { destination_account_id = "alice"; destination_expected_version = 3 }

alice-InRange : InRange alice
alice-InRange = record {
  version_fits = omega arith;
  available_fits = omega arith;
  reserved_fits = omega arith;
}

apply_operation-Moves_example :
    IfOk
      (λ t. Moves reserve 30 alice t × (t.version ≡ 4 % u64_mod) × SameElse alice t × InRange t)
      (apply_operation reserve 30 alice)
apply_operation-Moves_example = apply_operation-Moves reserve 30 alice alice-InRange

apply_command-Performs_example :
    let (r, m) = apply_command reserve_30 store in Performs reserve_30 store r m
apply_command-Performs_example = apply_command-Performs reserve_30 store

apply_command_twice_example :
    let m = (apply_command reserve_30 store).1 in
    apply_command debit_80 m ≡ (err (version_conflict "alice" 3 4), m)
unfolding apply_command open_entry on_entry apply_operation apply_reserve check_version
apply_command_twice_example =
    apply_command_twice reserve_30 debit_80 store
      (record alice { version = 4; available_sats = 70; reserved_sats = 40 }) refl refl refl

store-IsKeyed : IsKeyed store
store-IsKeyed id s h = ground (arith, text_iff "alice" id, text_iff "bob" id)

apply_transfer-Transfers_example : Transfers 60 "alice" "bob" store (apply_transfer pay_bob store).1
unfolding apply_transfer check_version apply_debit apply_credit
apply_transfer-Transfers_example =
    apply_transfer-Transfers pay_bob store
      (
        record alice { version = 4; available_sats = 40 },
        record bob { version = 6; available_sats = 100 },
      )
      store-IsKeyed (λ p. ground (arith, text_iff "alice" "bob")) refl

apply_transfer_self_mints_example :
    let (r, m) = apply_transfer pay_self store in
    (is_ok r ≡ true)
    × ((account_at "alice" m).available_sats ≡ 160)
    × (total_sats m ≡ total_sats store + 60)
apply_transfer_self_mints_example =
    apply_transfer_self_mints pay_self store alice refl refl refl refl refl (omega arith)
      (omega arith)
