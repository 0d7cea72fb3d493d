-- ===== src/Ledger/Chain/Gate.antt =====
-- Sequences of transitions that the gate of chain.rs accepts.
use kerosene_node.Base.{List, [], arith, inl, inr, length, ℕ, ◌+◌, ◌∷◌, ◌≡◌, ◌≤◌}
use kerosene_node.Base.Results.{Result, Result-cases, ok, ◌>>=◌}
use kerosene_node.Ledger.Chain.{validate_transition}
use kerosene_node.Ledger.Errors.{LedgerError}
use kerosene_node.Ledger.States.{
  OnchainState, finalized_by_policy, in_mempool, reorged, seen, spendable, spent,
}

-- A UTXO's state driven through a list of targets, stopping at the first that the gate refuses.
unfoldable pub walk : List OnchainState → OnchainState → Result LedgerError OnchainState
walk [] s = ok s
walk (t ∷ ts) s = validate_transition s t >>= λ _. walk ts t

-- How many accepted transitions a state is from `seen` at least.
abbrev depth : OnchainState → ℕ
depth seen = 0
depth in_mempool = 1
depth OnchainState.replaced = 1
depth OnchainState.confirming = 2
depth spendable = 3
depth reorged = 3
depth finalized_by_policy = 4
depth spent = 4

validate_transition-depth :
    (s t : OnchainState) → validate_transition s t ≡ ok tt → depth t ≤ depth s + 1
unfolding validate_transition
validate_transition-depth s t h = ground arith

walk-depth :
    (ts : List OnchainState) (s t : OnchainState) → walk ts s ≡ ok t → depth t ≤ depth s + length ts
unfolding walk
walk-depth [] s t h = ground arith
walk-depth (x ∷ ts) s t h = elim (Result-cases (validate_transition s x)) [
  | inl (_, good) ↦
      omega (arith, validate_transition-depth s x good, walk-depth ts x t (ground arith))
  | inr (e, bad) ↦ ground arith
]

-- No shortcut: an output that is driven from first sight to spent has passed at least four accepted
-- transitions.
walk_seen_spent : (ts : List OnchainState) → walk ts seen ≡ ok spent → 4 ≤ length ts
walk_seen_spent ts h = omega (arith, walk-depth ts seen spent h)
