-- ===== src/Ledger/Machine/Applying.antt =====
-- `apply` of state_machine.rs. Its writes before an early return by `?` stay.
use kerosene_node.Base.{
  List, String, [], if◌then◌else◌, none, some, text_eq, ℕ, ◌++◌, ◌==◌, ◌∷◌, nat_eq,
}
use kerosene_node.Base.Results.{
  then_do, bind as ◌>>=◌, then_do as ◌>>◌, Handler, and_ok, assign, check, fail, ok, return,
}
use kerosene_node.Base.Text.{parse_unsigned, split_once}
use kerosene_node.Base.Words.{u64_mod, wrapping_succ}
use kerosene_node.Ledger.Account.{
  AccountOp, AccountState, apply_credit, apply_debit, apply_release_reservation, apply_reserve,
  new_account,
}
use kerosene_node.Ledger.Certificates.{Crypto}
use kerosene_node.Ledger.Chain.{outpoint_eq}
use kerosene_node.Ledger.Chart.{account_eq}
use kerosene_node.Ledger.Errors.{LedgerError, atomic_transfer_failed, transfer_key_malformed}
use kerosene_node.Ledger.Machine.Outputs.{
  OutputsOp, change_utxo, confirm_utxos, detect_utxos, mark_spendable, release_in_place,
  reorg_utxos, reserve_in_place, spend_entry,
}
use kerosene_node.Ledger.Machine.Validation.{Payloads, validate}
use kerosene_node.Ledger.Nonces.{contains_text}
use kerosene_node.Ledger.Roots.{compute_state_root}
use kerosene_node.Ledger.State.{
  LedgerCommand, LedgerState, add_observer_node, apply_chain_reorganization, authorize_withdrawal,
  broadcast_withdrawal, commit_internal_transfer, confirm_utxo, confirm_withdrawal, consume_intent,
  credit_internal_balance, debit_internal_balance, detect_utxo, expire_intent, fail_withdrawal,
  install_snapshot, mark_utxo_spendable, mark_utxo_spent, prepare_withdrawal, promote_voting_node,
  release_reserved_balance, release_utxo_command, remove_node, reserve_balance,
  reserve_utxo_command, LedgerCommandType,
}
use kerosene_node.Ledger.States.{onchain_eq, reservation_state_eq, role_eq, withdrawal_status_eq}

pub record StateTransitionReceipt : Type 0 where
  pub sequence : ℕ
  pub command_hash : String
  pub previous_state_root : String
  pub resulting_state_root : String
  pub affected_accounts : List String

-- `get_or_create_account` with a method run on what it returns: the first account of the id, or a
-- new one at the end. The result is the account's id.
abbrev pub on_listed : String → AccountOp → Handler (List AccountState) LedgerError String
on_listed id op [] = let (r, t) = op (new_account id) in (and_ok r t.account_id, t ∷ [])
on_listed id op (a ∷ others) =
    let (r, t) = op a in
    let (q, rest) = on_listed id op others in
    if a.account_id == id then (and_ok r t.account_id, t ∷ others) else (q, a ∷ rest)

abbrev pub on_account : String → AccountOp → Handler LedgerState LedgerError String
on_account id op s =
    let (r, accounts) = on_listed id op s.accounts in (r, record s { accounts = accounts })

-- `authorization_commitment.parse::<u64>().unwrap_or(0)`
abbrev pub amount_of : LedgerCommand → ℕ
amount_of c = elim (parse_unsigned u64_mod c.authorization_commitment) [ none ↦ 0 | some n ↦ n ]

-- A credit has an amount only under an expected version.
abbrev pub credit_amount_of : LedgerCommand → ℕ
credit_amount_of c = elim c.expected_version [ none ↦ 0 | some _ ↦ amount_of c ]

abbrev pub LedgerOp : Type 0
LedgerOp = Handler LedgerState LedgerError (List String)

-- One account's command, and whom it affects.
abbrev pub account_command : String → AccountOp → LedgerOp
account_command id op = do affected ← on_account id op; return (affected ∷ [])

unfoldable pub transfer_command : LedgerCommand → LedgerOp
unfolding apply_debit apply_credit
transfer_command c = elim (split_once b'|' c.partition_key) [
  | none ↦ fail (atomic_transfer_failed transfer_key_malformed)
  | some (source, dest) ↦ do
    debited ← on_account source (apply_debit (amount_of c))
    credited ← on_account dest (apply_credit (amount_of c))
    return (debited ∷ credited ∷ [])
]

-- A branch on `state.utxos`, which it changes in place also where it fails.
abbrev pub on_utxos : OutputsOp → LedgerOp
on_utxos op s = let (r, us) = op s.utxos in (and_ok r ("utxo" ∷ []), record s { utxos = us })

-- `if !list.contains(key) { list.push(key) }`
abbrev pub push_new : String → List String → List String
push_new key keys = if contains_text key keys then keys else keys ++ key ∷ []

-- `retain(|n| n != key)`
abbrev pub remove_text : String → List String → List String
remove_text key [] = []
remove_text key (k ∷ ks) = if k == key then remove_text key ks else k ∷ remove_text key ks

unfoldable pub consume_intent_command : LedgerCommand → LedgerOp
consume_intent_command c = do
  assign λ s. record s { consumed_intents = push_new c.partition_key s.consumed_intents }
  return (c.partition_key ∷ [])

abbrev pub with_nodes : (List String → List String) → LedgerState → LedgerState
with_nodes f s = record s { membership = record s.membership { nodes = f s.membership.nodes } }

module _ (crypto : Crypto) (payloads : Payloads) where
  -- The match on the command's type in `apply`: what the command affects.
  unfoldable pub perform_as : LedgerCommandType → LedgerCommand → LedgerOp
  unfolding apply_credit apply_debit apply_reserve apply_release_reservation transfer_command
      consume_intent_command
  perform_as credit_internal_balance c =
      account_command c.partition_key (apply_credit (credit_amount_of c))
  perform_as debit_internal_balance c = account_command c.partition_key (apply_debit (amount_of c))
  perform_as reserve_balance c = account_command c.partition_key (apply_reserve (amount_of c))
  perform_as release_reserved_balance c =
      account_command c.partition_key (apply_release_reservation (amount_of c))
  perform_as commit_internal_transfer c = transfer_command c
  perform_as detect_utxo c = on_utxos (detect_utxos payloads c)
  perform_as confirm_utxo c = on_utxos (confirm_utxos c)
  perform_as mark_utxo_spendable c = on_utxos (change_utxo mark_spendable c)
  perform_as reserve_utxo_command c = on_utxos (change_utxo (reserve_in_place c) c)
  perform_as release_utxo_command c = on_utxos (change_utxo release_in_place c)
  perform_as mark_utxo_spent c = on_utxos (change_utxo (spend_entry c) c)
  perform_as apply_chain_reorganization c = on_utxos (reorg_utxos payloads c)
  perform_as prepare_withdrawal c = return (c.partition_key ∷ [])
  perform_as authorize_withdrawal c = return (c.partition_key ∷ [])
  perform_as broadcast_withdrawal c = return (c.partition_key ∷ [])
  perform_as confirm_withdrawal c = return (c.partition_key ∷ [])
  perform_as fail_withdrawal c = return (c.partition_key ∷ [])
  perform_as consume_intent c = consume_intent_command c
  perform_as expire_intent c = consume_intent_command c
  perform_as add_observer_node c =
      then_do (assign (with_nodes (push_new c.partition_key))) (return ("membership" ∷ []))
  perform_as promote_voting_node c = return ("membership" ∷ [])
  perform_as remove_node c =
      then_do (assign (with_nodes (remove_text c.partition_key))) (return ("membership" ∷ []))
  perform_as install_snapshot c = return ("snapshot" ∷ [])

  unfoldable pub perform : LedgerCommand → LedgerOp
  unfolding perform_as
  perform c = perform_as c.command_type c

  -- `StateMachine::apply`
  unfoldable pub apply_ledger :
      LedgerCommand → Handler LedgerState LedgerError StateTransitionReceipt
  unfolding perform validate
  apply_ledger c = do
    check λ s. validate payloads s c
    before ← check λ s. ok s
    affected ← perform c
    assign λ s. record s { version = wrapping_succ s.version }
    check λ s. ok (record {
      sequence = before.version;
      command_hash = c.payload_hash;
      previous_state_root = compute_state_root crypto before;
      resulting_state_root = compute_state_root crypto s;
      affected_accounts = affected;
    })
