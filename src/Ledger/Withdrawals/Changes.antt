-- ===== src/Ledger/Withdrawals/Changes.antt =====
-- What one call of withdrawal.rs may make of the records that are there.
use kerosene_node.Base.{
  String, arith, some, text_eq, true, ℕ, ◌<◌, ◌≡◌, ◌⊎◌, Bool-cases, Option-cases, inl, inr, none,
  refl, subst, text_iff, ◌==◌, ◌∙◌,
}
use kerosene_node.Base.Table.{lookup, insert, lookup-insert}
use kerosene_node.Ledger.Authorization.{PsbtCommitment, SettlementAuthorization}
use kerosene_node.Ledger.States.{
  WithdrawalStatus, authorized, broadcast, confirmed, failed, reserved, signing,
  withdrawal_status_eq,
}
use kerosene_node.Ledger.Withdrawals.{
  WithdrawalRecord, Withdrawals, can_transition_to, WithdrawalCall, attach_psbt, attach_txid,
  authorize, call_withdrawal, create, create_withdrawal, set_authorization, set_broadcast_txid,
  set_psbt, update, update_status,
}

-- How far along its life a status is.
abbrev pub rank : WithdrawalStatus → ℕ
rank reserved = 0
rank authorized = 1
rank signing = 2
rank broadcast = 3
rank WithdrawalStatus.confirming = 4
rank confirmed = 5
rank failed = 5
rank WithdrawalStatus.replaced = 5

can_transition_to-rank : (a b : WithdrawalStatus) → can_transition_to a b ≡ true → rank a < rank b
unfolding can_transition_to
can_transition_to-rank a b h = ground arith

-- What a history may make of a record: its identity and amount stay, its status moves only forward
-- (and not at all once it is final), and a transaction id that is set stays.
pub record Advances (w v : WithdrawalRecord) : Type 0 where
  pub same_intent : v.intent_commitment ≡ w.intent_commitment
  pub same_account : v.account_id ≡ w.account_id
  pub same_amount : v.amount_sats ≡ w.amount_sats
  pub same_destination : v.destination_address ≡ w.destination_address
  pub forward : (rank w.status < rank v.status) ⊎ (v.status ≡ w.status)
  pub txid_kept : (t : String) → w.broadcast_txid ≡ some t → v.broadcast_txid ≡ some t

-- The record of an id after a call, if it was there before.
abbrev pub AdvancesAt : String → WithdrawalRecord → Withdrawals → Type 0
AdvancesAt id w m = (v : WithdrawalRecord) × (lookup id m ≡ some v) × Advances w v

pub Advances-refl : (w : WithdrawalRecord) → Advances w w
Advances-refl w = record {
  same_intent = refl;
  same_account = refl;
  same_amount = refl;
  same_destination = refl;
  forward = inr refl;
  txid_kept = λ t h. h;
}

pub Advances-trans : (u v w : WithdrawalRecord) → Advances u v → Advances v w → Advances u w
Advances-trans u v w h k = record {
  same_intent = k.same_intent ∙ h.same_intent;
  same_account = k.same_account ∙ h.same_account;
  same_amount = k.same_amount ∙ h.same_amount;
  same_destination = k.same_destination ∙ h.same_destination;
  forward = ground arith;
  txid_kept = λ t e. k.txid_kept t (h.txid_kept t e);
}

-- How a call may change a store: not at all, one record forward, or one new record.
pub data Change (m m' : Withdrawals) : Type 0 where
  unchanged : m' ≡ m → Change m m'
  moved :
      (k : String) (u v : WithdrawalRecord)
      → lookup k m ≡ some u
      → Advances u v
      → m' ≡ insert k v m
      → Change m m'
  added : (k : String) (v : WithdrawalRecord) → lookup k m ≡ none → m' ≡ insert k v m → Change m m'

pub Change-AdvancesAt :
    (m m' : Withdrawals) (id : String) (w : WithdrawalRecord)
    → Change m m'
    → lookup id m ≡ some w
    → AdvancesAt id w m'
Change-AdvancesAt m m' id w (unchanged e) h = (w, rw e h, Advances-refl w)
Change-AdvancesAt m m' id w (added k v e p) h =
    (w, ground (arith, lookup-insert k id v m, text_iff k id), Advances-refl w)
Change-AdvancesAt m m' id w (moved k u v e a p) h = elim (Bool-cases (k == id)) [
  | inl same ↦
      let eq : u ≡ w = ground (arith, text_iff k id) in
      (v, ground (arith, lookup-insert k id v m), subst (λ x. Advances x v) eq a)
  | inr other ↦ (w, ground (arith, lookup-insert k id v m), Advances-refl w)
]

create-Change : (w : WithdrawalRecord) (m : Withdrawals) → Change m (create_withdrawal w m).1
unfolding create_withdrawal
create-Change w m = elim (Option-cases (lookup w.withdrawal_id m)) [
  | inl fresh ↦ added w.withdrawal_id w fresh (ground arith)
  | inr (v, e) ↦ unchanged (ground arith)
]

update-Change :
    (id : String) (s : WithdrawalStatus) (b : ℕ) (m : Withdrawals)
    → Change m (update_status id s b m).1
unfolding update_status
update-Change id s b m = elim (Option-cases (lookup id m)) [
  | inl missing ↦ unchanged (ground arith)
  | inr (w, e) ↦ elim (Bool-cases (can_transition_to w.status s)) [
    | inr refused ↦ unchanged (ground arith)
    | inl allowed ↦
        moved id w (record w { status = s; updated_at_bucket = b }) e
          (record {
            same_intent = refl;
            same_account = refl;
            same_amount = refl;
            same_destination = refl;
            forward = inl (can_transition_to-rank w.status s allowed);
            txid_kept = λ t h. h;
          })
          (ground arith)
  ]
]

authorize-Change :
    (id : String) (a : SettlementAuthorization) (m : Withdrawals)
    → Change m (set_authorization id a m).1
unfolding set_authorization
authorize-Change id a m = elim (Option-cases (lookup id m)) [
  | inl missing ↦ unchanged (ground arith)
  | inr (w, e) ↦ elim (Bool-cases (w.status == reserved)) [
    | inr refused ↦ unchanged (ground arith)
    | inl allowed ↦
        moved id w (record w { authorization = some a; status = authorized }) e
          (record {
            same_intent = refl;
            same_account = refl;
            same_amount = refl;
            same_destination = refl;
            forward = inl (ground arith);
            txid_kept = λ t h. h;
          })
          (ground arith)
  ]
]

psbt-Change : (id : String) (c : PsbtCommitment) (m : Withdrawals) → Change m (set_psbt id c m).1
unfolding set_psbt
psbt-Change id c m = elim (Option-cases (lookup id m)) [
  | inl missing ↦ unchanged (ground arith)
  | inr (w, e) ↦
      moved id w (record w { psbt_commitment = some c }) e
        (record {
          same_intent = refl;
          same_account = refl;
          same_amount = refl;
          same_destination = refl;
          forward = inr refl;
          txid_kept = λ t h. h;
        })
        (ground arith)
]

txid-Change : (id t : String) (m : Withdrawals) → Change m (set_broadcast_txid id t m).1
unfolding set_broadcast_txid
txid-Change id t m = elim (Option-cases (lookup id m)) [
  | inl missing ↦ unchanged (ground arith)
  | inr (w, e) ↦ elim (Option-cases w.broadcast_txid) [
    | inr (old, set) ↦ unchanged (ground arith)
    | inl unset ↦
        moved id w (record w { broadcast_txid = some t }) e
          (record {
            same_intent = refl;
            same_account = refl;
            same_amount = refl;
            same_destination = refl;
            forward = inr refl;
            txid_kept = λ x h. ground arith;
          })
          (ground arith)
  ]
]

pub call-Change : (c : WithdrawalCall) (m : Withdrawals) → Change m (call_withdrawal c m).1
unfolding call_withdrawal
call-Change (create w) m = create-Change w m
call-Change (update id s b) m = update-Change id s b m
call-Change (authorize id a) m = authorize-Change id a m
call-Change (attach_psbt id c) m = psbt-Change id c m
call-Change (attach_txid id t) m = txid-Change id t m
