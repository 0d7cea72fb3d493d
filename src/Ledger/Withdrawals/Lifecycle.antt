-- ===== src/Ledger/Withdrawals/Lifecycle.antt =====
-- The life of one withdrawal under any history of calls of withdrawal.rs.
use kerosene_node.Base.{String, arith, some, text_eq, true, ℕ, ◌≡◌, List, [], refl, ◌∷◌, ◌≤◌}
use kerosene_node.Base.Table.{lookup, lookup-insert_self}
use kerosene_node.Ledger.States.{
  WithdrawalStatus, authorized, broadcast, confirmed, reserved, signing,
}
use kerosene_node.Ledger.Withdrawals.{
  WithdrawalRecord, Withdrawals, can_transition_to, WithdrawalCall, call_withdrawal, is_final,
  run_withdrawals, update, update_status,
}
use kerosene_node.Ledger.Withdrawals.Changes.{
  Advances, Advances-refl, Advances-trans, Change-AdvancesAt, call-Change, rank,
}

-- Under any history of calls, failed ones included, a withdrawal that is in the store stays in it;
-- its intent, account, amount and destination never change, its status only moves forward in rank or
-- stays, and a transaction id once set is never replaced.
pub run_withdrawals-Advances :
    (cs : List WithdrawalCall) (m : Withdrawals) (id : String) (w : WithdrawalRecord)
    → lookup id m ≡ some w
    → (v : WithdrawalRecord) × (lookup id (run_withdrawals cs m) ≡ some v) × Advances w v
run_withdrawals-Advances [] m id w h = (w, h, Advances-refl w)
run_withdrawals-Advances (c ∷ cs) m id w h =
    let m' = (call_withdrawal c m).1 in
    let (u, hu, au) = Change-AdvancesAt m m' id w (call-Change c m) h in
    let (v, hv, av) = run_withdrawals-Advances cs m' id u hu in (v, hv, Advances-trans w u v au av)

final_rank : (s : WithdrawalStatus) → is_final s ≡ true → rank s ≡ 5
final_rank s h = ground arith

rank_bound : (s : WithdrawalStatus) → rank s ≤ 5
rank_bound s = ground arith

-- A withdrawal that is confirmed, failed or replaced has that status for ever.
run_withdrawals_final :
    (cs : List WithdrawalCall) (m : Withdrawals) (id : String) (w : WithdrawalRecord)
    → lookup id m ≡ some w
    → is_final w.status ≡ true
    → (v : WithdrawalRecord) × (lookup id (run_withdrawals cs m) ≡ some v) × (v.status ≡ w.status)
run_withdrawals_final cs m id w h end =
    let (v, hv, a) = run_withdrawals-Advances cs m id w h in
    (v, hv, ground (arith, a.forward, final_rank w.status end, rank_bound v.status))

-- One status update that the table allows.
abbrev with_status : WithdrawalStatus → ℕ → WithdrawalRecord → WithdrawalRecord
with_status s b w = record w { status = s; updated_at_bucket = b }

update_allowed :
    (id : String) (s : WithdrawalStatus) (b : ℕ) (m : Withdrawals) (w : WithdrawalRecord)
    → lookup id m ≡ some w
    → can_transition_to w.status s ≡ true
    → lookup id (call_withdrawal (update id s b) m).1 ≡ some (with_status s b w)
unfolding call_withdrawal update_status
update_allowed id s b m w h ok_to = ground (arith, lookup-insert_self id (with_status s b w) m)

-- The status can be driven from reserved to confirmed by status updates alone: no authorization, no
-- commitment to a transaction and no transaction id is ever required.
run_withdrawals_unauthorized :
    (m : Withdrawals) (id : String) (w : WithdrawalRecord) (bucket : ℕ)
    → lookup id m ≡ some w
    → w.status ≡ reserved
    → let cs =
        update id authorized bucket
        ∷ update id signing bucket
        ∷ update id broadcast bucket
        ∷ update id WithdrawalStatus.confirming bucket
        ∷ update id confirmed bucket
        ∷ [] in
      (v : WithdrawalRecord) × (lookup id (run_withdrawals cs m) ≡ some v)
      × (v.status ≡ confirmed)
      × (v.authorization ≡ w.authorization)
      × (v.psbt_commitment ≡ w.psbt_commitment)
      × (v.broadcast_txid ≡ w.broadcast_txid)
unfolding can_transition_to
run_withdrawals_unauthorized m id w bucket h start =
    let step =
      λ (s : WithdrawalStatus) (n : Withdrawals). (call_withdrawal (update id s bucket) n).1 in
    let m1 = step authorized m in
    let m2 = step signing m1 in
    let m3 = step broadcast m2 in
    let m4 = step WithdrawalStatus.confirming m3 in
    let h1 = update_allowed id authorized bucket m w h (rw start) in
    let h2 = update_allowed id signing bucket m1 _ h1 refl in
    let h3 = update_allowed id broadcast bucket m2 _ h2 refl in
    let h4 = update_allowed id WithdrawalStatus.confirming bucket m3 _ h3 refl in
    let h5 = update_allowed id confirmed bucket m4 _ h4 refl in
    (with_status confirmed bucket w, h5, refl, refl, refl, refl)
