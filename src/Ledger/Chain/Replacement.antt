-- ===== src/Ledger/Chain/Replacement.antt =====
-- `apply_rbf_replacement` of chain.rs.
use kerosene_node.Base.{
  All, ◌⊎◌, List, String, [], arith, if◌then◌else◌, none, some, text_iff, ◌∷◌, ◌≡◌, nat_eq, text_eq,
}
use kerosene_node.Base.Results.{err}
use kerosene_node.Ledger.Chain.{
  UtxoEntry, is_replaced_by, mark_replaced, validate_transition, outpoint_eq,
}
use kerosene_node.Ledger.Chart.{account_eq}
use kerosene_node.Ledger.Errors.{invalid_utxo_transition}
use kerosene_node.Ledger.States.{
  OnchainState, spent, onchain_eq, reservation_state_eq, role_eq, withdrawal_status_eq,
}

-- An entry stands in a list.
abbrev pub IsAmong : UtxoEntry → List UtxoEntry → Type 0
IsAmong u [] = ⊥
IsAmong u (v ∷ vs) = (u ≡ v) ⊎ IsAmong u vs

-- What must hold of an entry once the transaction `txid` is replaced in a store that held `before`:
-- it is replaced, and holds no reservation unless it was replaced before and is as it was.
abbrev pub IsSettled : List UtxoEntry → String → UtxoEntry → Type 0
IsSettled before txid u =
    u.outpoint.txid ≡ txid
    → (u.state ≡ OnchainState.replaced) × ((u.reserved_by ≡ none) ⊎ IsAmong u before)

-- The reservations on the outputs of `txid` that are not yet replaced, in order.
abbrev pub reservations_on : String → List UtxoEntry → List String
reservations_on txid [] = []
reservations_on txid (u ∷ us) =
    let rest = reservations_on txid us in
    if is_replaced_by txid u then elim u.reserved_by [ none ↦ rest | some by ↦ by ∷ rest ] else rest

-- RBF does not ask the gate: it marks a spent output of the transaction as replaced, a transition
-- that `validate_transition` refuses.
mark_replaced_spent :
    (txid : String) (u : UtxoEntry)
    → u.outpoint.txid ≡ txid
    → u.state ≡ spent
    → let (us, _) = mark_replaced txid (u ∷ []) in
      All (λ v. v.state ≡ OnchainState.replaced) us
      × (validate_transition u.state OnchainState.replaced
          ≡ err (invalid_utxo_transition spent OnchainState.replaced))
unfolding mark_replaced validate_transition
mark_replaced_spent txid u same s = ground (arith, text_iff u.outpoint.txid txid)
