-- ===== src/Ledger/Accounts/Refinement.antt =====
-- The account store refines a total map from ids to accounts, on which a command is one operation
-- guarded by the version: `apply_command` of in_memory.rs.
use kerosene_node.Base.{
  String, arith, none, some, ◌≡◌, ◌≢◌, nat_eq, refl, text_eq, Bool-cases, inl, inr, ◌==◌, ◌∙◌, ap,
  ℕ,
}
use kerosene_node.Base.Results.{Result, err, ok, bind-ok, bind-err}
use kerosene_node.Base.Table.{lookup, lookup-insert_ne, lookup-insert_self}
use kerosene_node.Base.Words.{wrapping_succ}
use kerosene_node.Ledger.Account.{AccountState, new_account, AccountOp}
use kerosene_node.Ledger.Accounts.{Accounts, open_entry, apply_command, on_entry}
use kerosene_node.Ledger.Commands.{
  BalanceCommand, apply_operation, BalanceOperation, credit, debit, release_reservation, reserve,
}
use kerosene_node.Ledger.Errors.{LedgerError, version_conflict}
use kerosene_node.Ledger.States.{}

-- The abstract view: an account that was never written reads as a new one.
abbrev pub account_at : String → Accounts → AccountState
account_at id m = elim (lookup id m) [ none ↦ new_account id | some s ↦ s ]

-- Every account is stored under its own id.
abbrev pub IsKeyed : Accounts → Type 0
IsKeyed m = (id : String) (s : AccountState) → lookup id m ≡ some s → s.account_id ≡ id

-- What a command does to the view: nothing under a version that is not current; otherwise exactly
-- its operation, on its own account, with the operation's result.
pub record Performs (cmd : BalanceCommand) (m : Accounts) (r : Result LedgerError AccountState)
    (m' : Accounts) : Type 0 where
  pub stale :
      (account_at cmd.account_id m).version ≢ cmd.expected_version
      → (m' ≡ m)
        × (r
            ≡ err (
                version_conflict
                  (account_at cmd.account_id m).account_id
                  cmd.expected_version
                  (account_at cmd.account_id m).version))
  pub current :
      (account_at cmd.account_id m).version ≡ cmd.expected_version
      → let (q, s) = apply_operation cmd.operation cmd.amount_sats (account_at cmd.account_id m) in
        (account_at cmd.account_id m' ≡ s) × (r ≡ elim q [ ok _ ↦ ok s | err e ↦ err e ])
  pub others : (id : String) → cmd.account_id ≢ id → lookup id m' ≡ lookup id m

abbrev conflict : BalanceCommand → Accounts → LedgerError
conflict cmd m =
    version_conflict (account_at cmd.account_id m).account_id cmd.expected_version
      (account_at cmd.account_id m).version

open_entry-stale :
    (cmd : BalanceCommand) (m : Accounts)
    → (account_at cmd.account_id m).version ≢ cmd.expected_version
    → open_entry cmd m ≡ (err (conflict cmd m), m)
unfolding open_entry
open_entry-stale cmd m h = ground arith

open_entry-current :
    (cmd : BalanceCommand) (m : Accounts)
    → (account_at cmd.account_id m).version ≡ cmd.expected_version
    → ((open_entry cmd m).0 ≡ ok (account_at cmd.account_id m))
      × ((id : String) → cmd.account_id ≢ id → lookup id (open_entry cmd m).1 ≡ lookup id m)
unfolding open_entry
open_entry-current cmd m h = (ground arith, λ id ne. grind (arith, lookup-insert_ne))

on_entry-at :
    (id : String) (s : AccountState) (op : AccountOp) (m : Accounts)
    → (account_at id (on_entry id s op m).1 ≡ (op s).1)
      × ((on_entry id s op m).0 ≡ elim (op s).0 [ ok _ ↦ ok (op s).1 | err e ↦ err e ])
      × ((j : String) → id ≢ j → lookup j (on_entry id s op m).1 ≡ lookup j m)
unfolding on_entry
on_entry-at id s op m =
    (ground (arith, lookup-insert_self id (op s).1 m), refl, λ j ne. lookup-insert_ne id j _ m ne)

apply_command-stale :
    (cmd : BalanceCommand) (m : Accounts)
    → (account_at cmd.account_id m).version ≢ cmd.expected_version
    → apply_command cmd m ≡ (err (conflict cmd m), m)
unfolding apply_command
apply_command-stale cmd m h =
    rw
      (bind-err (open_entry cmd)
        (λ s. on_entry cmd.account_id s (apply_operation cmd.operation cmd.amount_sats)) m
        (conflict cmd m) (ap (λ p. p.0) (open_entry-stale cmd m h)))
      (ap (λ p. (err (conflict cmd m), p.1)) (open_entry-stale cmd m h))

apply_command-current :
    (cmd : BalanceCommand) (m : Accounts)
    → (account_at cmd.account_id m).version ≡ cmd.expected_version
    → apply_command cmd m
      ≡ on_entry cmd.account_id
          (account_at cmd.account_id m)
          (apply_operation cmd.operation cmd.amount_sats)
          (open_entry cmd m).1
unfolding apply_command
apply_command-current cmd m h =
    bind-ok (open_entry cmd)
      (λ s. on_entry cmd.account_id s (apply_operation cmd.operation cmd.amount_sats)) m _
      (open_entry-current cmd m h).0

apply_command-others :
    (cmd : BalanceCommand) (m : Accounts) (id : String)
    → cmd.account_id ≢ id
    → lookup id (apply_command cmd m).1 ≡ lookup id m
apply_command-others cmd m id ne =
    elim (Bool-cases ((account_at cmd.account_id m).version == cmd.expected_version)) [
      | inl same ↦
          let h : (account_at cmd.account_id m).version ≡ cmd.expected_version = ground arith in
          rw (apply_command-current cmd m h)
            ((on_entry-at cmd.account_id _ _ _).2 id ne ∙ (open_entry-current cmd m h).1 id ne)
      | inr other ↦ rw (apply_command-stale cmd m (ground arith))
    ]

-- A command under a version that is not the account's is refused with a conflict, and the store is
-- untouched. Under the account's version, the view of the account becomes what the operation makes
-- of it, also where the operation fails, and the command's result is the operation's. No other
-- account changes.
pub apply_command-Performs :
    (cmd : BalanceCommand) (m : Accounts) → let (r, m') = apply_command cmd m in Performs cmd m r m'
apply_command-Performs cmd m = record {
  stale = λ h. rw (apply_command-stale cmd m h) (refl, refl);
  current = λ h.
      let entry =
        on_entry-at cmd.account_id (account_at cmd.account_id m)
          (apply_operation cmd.operation cmd.amount_sats) (open_entry cmd m).1 in
      rw (apply_command-current cmd m h) (entry.0, entry.1);
  others = apply_command-others cmd m;
}

-- An operation that succeeds under `on_entry` has advanced the version.
apply_operation-version :
    (op : BalanceOperation) (n : ℕ) (s : AccountState)
    → (apply_operation op n s).0 ≡ ok tt
    → (apply_operation op n s).1.version ≡ wrapping_succ s.version
unfolding apply_operation
apply_operation-version credit n s h = ground arith
apply_operation-version debit n s h = ground arith
apply_operation-version reserve n s h = ground arith
apply_operation-version release_reservation n s h = ground arith

-- A command that succeeded was current, and its result is the account's new view.
apply_command-ok :
    (cmd : BalanceCommand) (m : Accounts) (s : AccountState)
    → (apply_command cmd m).0 ≡ ok s
    → (account_at cmd.account_id (apply_command cmd m).1 ≡ s)
      × (s.version ≡ wrapping_succ cmd.expected_version)
apply_command-ok cmd m s h =
    elim (Bool-cases ((account_at cmd.account_id m).version == cmd.expected_version)) [
      | inl same ↦
          let e : (account_at cmd.account_id m).version ≡ cmd.expected_version = ground arith in
          let p = (apply_command-Performs cmd m).current e in
          let a = account_at cmd.account_id m in
          ground (arith, p.0, p.1, apply_operation-version cmd.operation cmd.amount_sats a)
      | inr other ↦ cc (ap (λ p. p.0) (apply_command-stale cmd m (ground arith)))
    ]

-- Of two commands that expect one version of one account, the second is refused with a conflict and
-- changes nothing once the first has succeeded: no update is lost.
pub apply_command_twice :
    (c d : BalanceCommand) (m : Accounts) (s : AccountState)
    → c.account_id ≡ d.account_id
    → c.expected_version ≡ d.expected_version
    → (apply_command c m).0 ≡ ok s
    → let m' = (apply_command c m).1 in
      apply_command d m' ≡ (err (version_conflict s.account_id d.expected_version s.version), m')
apply_command_twice c d m s same version first =
    let after = apply_command-ok c m s first in
    let at : account_at d.account_id (apply_command c m).1 ≡ s = rw (← same) after.0 in
    let m' = (apply_command c m).1 in
    let old : (account_at d.account_id m').version ≢ d.expected_version =
      rw at (λ e. ground (arith, after.1)) in
    apply_command-stale d m' old ∙ rw at
