-- ===== src/Ledger/Accounts/Transfers.antt =====
-- Transfers between the accounts of one store: `apply_transfer` of in_memory.rs.
use kerosene_node.Base.{
  String, [], arith, some, text_eq, ℕ, ◌+◌, ◌-◌, ◌<◌, ◌∷◌, ◌≡◌, ◌≤◌, Option-cases, inl, inr, refl,
  text_iff, true, ◌∙◌, ◌≢◌, nat_eq,
}
use kerosene_node.Base.Results.{err, ok, is_ok}
use kerosene_node.Base.Table.{insert, lookup, lookup-insert, lookup-insert_ne, lookup-insert_self}
use kerosene_node.Base.Words.{u64_mod, wrapping_succ}
use kerosene_node.Ledger.Account.{AccountState}
use kerosene_node.Ledger.Accounts.{Accounts, apply_transfer}
use kerosene_node.Ledger.Accounts.Refinement.{IsKeyed, account_at}
use kerosene_node.Ledger.Chain.{outpoint_eq}
use kerosene_node.Ledger.Chart.{account_eq}
use kerosene_node.Ledger.Commands.{InternalTransferCommand}
use kerosene_node.Ledger.Errors.{LedgerError}
use kerosene_node.Ledger.States.{onchain_eq, reservation_state_eq, role_eq, withdrawal_status_eq}

-- All the money of an account: available, reserved and pending.
abbrev pub sats_of : AccountState → ℕ
sats_of s = s.available_sats + s.reserved_sats + s.pending_incoming_sats + s.pending_outgoing_sats

-- What the accounts of a store hold together.
pub total_sats : Accounts → ℕ
total_sats [] = 0
total_sats ((_, s) ∷ m) = sats_of s + total_sats m

total_sats-insert :
    (id : String) (s t : AccountState) (m : Accounts)
    → lookup id m ≡ some s
    → total_sats (insert id t m) + sats_of s ≡ total_sats m + sats_of t
unfolding total_sats
total_sats-insert id s t [] h = cc
total_sats-insert id s t ((j, u) ∷ m) h = ground (arith, total_sats-insert id s t m)

-- A transfer that fails writes nothing.
apply_transfer-atomic :
    (cmd : InternalTransferCommand) (m : Accounts) (e : LedgerError)
    → (apply_transfer cmd m).0 ≡ err e
    → (apply_transfer cmd m).1 ≡ m
unfolding apply_transfer
apply_transfer-atomic cmd m e h = ground arith

-- What a transfer between two accounts of a store has done: on success both are rewritten.
abbrev Succeeds : InternalTransferCommand → Accounts → AccountState → AccountState → Type 0
Succeeds cmd m s d =
    (s.version ≡ cmd.source_expected_version)
    × (d.version ≡ cmd.destination_expected_version)
    × (cmd.amount_sats ≤ s.available_sats)
    × (d.available_sats + cmd.amount_sats < u64_mod)

abbrev pub debited : ℕ → AccountState → AccountState
debited n s = record s { available_sats = s.available_sats - n; version = wrapping_succ s.version }

abbrev pub credited : ℕ → AccountState → AccountState
credited n d = record d { available_sats = d.available_sats + n; version = wrapping_succ d.version }

apply_transfer-runs :
    (cmd : InternalTransferCommand) (m : Accounts) (s d : AccountState)
    → lookup cmd.source_account_id m ≡ some s
    → lookup cmd.destination_account_id m ≡ some d
    → Succeeds cmd m s d
    → let n = cmd.amount_sats in
      apply_transfer cmd m ≡ (
        ok (debited n s, credited n d),
        insert d.account_id (credited n d) (insert s.account_id (debited n s) m),
      )
unfolding apply_transfer
apply_transfer-runs cmd m s d hs hd h = ground arith

-- A transfer that succeeds had both accounts, both versions, the funds and the room.
apply_transfer-ok :
    (cmd : InternalTransferCommand) (m : Accounts) (a : AccountState × AccountState)
    → (apply_transfer cmd m).0 ≡ ok a
    → (s : AccountState) × (d : AccountState) × (lookup cmd.source_account_id m ≡ some s)
      × (lookup cmd.destination_account_id m ≡ some d)
      × Succeeds cmd m s d
unfolding apply_transfer
apply_transfer-ok cmd m a h = elim (Option-cases (lookup cmd.source_account_id m)) [
  | inl missing ↦ ground arith
  | inr (s, hs) ↦ elim (Option-cases (lookup cmd.destination_account_id m)) [
    | inl missing ↦ ground arith
    | inr (d, hd) ↦ (s, d, hs, hd, ground arith)
  ]
]

-- What a transfer of `n` from `src` to `dst` does to a store: of the two accounts, the available
-- funds and the version change and nothing else.
pub record Transfers (n : ℕ) (src dst : String) (m m' : Accounts) : Type 0 where
  pub total : total_sats m' ≡ total_sats m
  pub covered : n ≤ (account_at src m).available_sats
  pub taken : account_at src m' ≡ debited n (account_at src m)
  pub given : account_at dst m' ≡ credited n (account_at dst m)
  pub others : (id : String) → src ≢ id → dst ≢ id → lookup id m' ≡ lookup id m

-- In a store that keeps each account under its id, a transfer between two different accounts that
-- succeeds takes the amount from the available funds of the source, which cover it, adds it to those
-- of the destination, advances both versions and changes nothing else: what all the accounts hold
-- together, reserved and pending funds included, is conserved, and no third account is touched.
pub apply_transfer-Transfers :
    (cmd : InternalTransferCommand) (m : Accounts) (a : AccountState × AccountState)
    → IsKeyed m
    → cmd.source_account_id ≢ cmd.destination_account_id
    → (apply_transfer cmd m).0 ≡ ok a
    → Transfers cmd.amount_sats cmd.source_account_id cmd.destination_account_id m
        (apply_transfer cmd m).1
apply_transfer-Transfers cmd m a keyed ne h =
    let (s, d, hs, hd, fits) = apply_transfer-ok cmd m a h in
    let src = cmd.source_account_id in
    let dst = cmd.destination_account_id in
    let n = cmd.amount_sats in
    let m1 = insert src (debited n s) m in
    let end : (apply_transfer cmd m).1 ≡ insert dst (credited n d) m1 =
      ground (arith, apply_transfer-runs cmd m s d hs hd fits, keyed src s hs, keyed dst d hd) in
    let mid : lookup dst m1 ≡ some d = lookup-insert_ne src dst (debited n s) m ne ∙ hd in
    let swap : src ≢ dst = ne in
    rw end (record {
      total = omega (
        arith,
        total_sats-insert src s (debited n s) m hs,
        total_sats-insert dst d (credited n d) m1 mid,
      );
      covered = ground arith;
      taken = ground (
        arith,
        lookup-insert dst src (credited n d) m1,
        lookup-insert_self src (debited n s) m,
        text_iff dst src,
      );
      given = ground (arith, lookup-insert_self dst (credited n d) m1);
      others = λ id p q.
          lookup-insert_ne dst id (credited n d) m1 q ∙ lookup-insert_ne src id (debited n s) m p;
    })

-- A transfer from an account to itself, under its version and within its funds, does not conserve
-- them: the debit is overwritten by the credit, and the account ends with the amount added.
pub apply_transfer_self_mints :
    (cmd : InternalTransferCommand) (m : Accounts) (s : AccountState)
    → s.account_id ≡ cmd.source_account_id
    → lookup cmd.source_account_id m ≡ some s
    → cmd.destination_account_id ≡ cmd.source_account_id
    → s.version ≡ cmd.source_expected_version
    → s.version ≡ cmd.destination_expected_version
    → cmd.amount_sats ≤ s.available_sats
    → s.available_sats + cmd.amount_sats < u64_mod
    → let (r, m') = apply_transfer cmd m in
      (is_ok r ≡ true)
      × ((account_at cmd.source_account_id m').available_sats ≡ s.available_sats + cmd.amount_sats)
      × (total_sats m' ≡ total_sats m + cmd.amount_sats)
apply_transfer_self_mints cmd m s key hs same v w covered fits =
    let id = cmd.source_account_id in
    let n = cmd.amount_sats in
    let m1 = insert id (debited n s) m in
    let end : apply_transfer cmd m ≡ (ok (debited n s, credited n s), insert id (credited n s) m1) =
      ground (arith, apply_transfer-runs cmd m s s hs (rw same hs) (v, w, covered, fits), key) in
    rw end (
      refl,
      ground (arith, lookup-insert_self id (credited n s) m1),
      omega (
        arith,
        total_sats-insert id s (debited n s) m hs,
        total_sats-insert id (debited n s) (credited n s) m1
            (lookup-insert_self id (debited n s) m),
      ),
    )
