-- ===== src/Ledger/Machine/Receipts.antt =====
-- The receipts of `apply` of state_machine.rs.
use kerosene_node.Base.{arith, inl, inr, sym, ◌%◌, ◌+◌, ◌∙◌, ◌≡◌}
use kerosene_node.Base.Results.{Result-cases, ok}
use kerosene_node.Base.Words.{u64_mod}
use kerosene_node.Ledger.Certificates.{Crypto}
use kerosene_node.Ledger.Machine.Applying.{
  StateTransitionReceipt, apply_ledger, consume_intent_command, perform, perform_as,
  transfer_command,
}
use kerosene_node.Ledger.Machine.Validation.{Payloads, validate}
use kerosene_node.Ledger.Roots.{compute_state_root}
use kerosene_node.Ledger.State.{LedgerCommand, LedgerCommandType, LedgerState}
use kerosene_node.Ledger.States.{}

module _ (crypto : Crypto) (payloads : Payloads) where
  perform_as-version :
      (t : LedgerCommandType) (c : LedgerCommand) (s : LedgerState)
      → (perform_as crypto payloads t c s).1.version ≡ s.version
  unfolding perform_as consume_intent_command transfer_command
  perform_as-version t c s = ground arith

  -- What a successful command leaves: the next version, and a receipt between both states.
  pub record Receipted (c : LedgerCommand) (s t : LedgerState) (r : StateTransitionReceipt)
      : Type 0 where
    pub advanced : t.version ≡ (s.version + 1) % u64_mod
    pub numbered : r.sequence ≡ s.version
    pub named : r.command_hash ≡ c.payload_hash
    pub from_root : r.previous_state_root ≡ compute_state_root crypto s
    pub to_root : r.resulting_state_root ≡ compute_state_root crypto t

  pub apply_ledger-Receipted :
      (c : LedgerCommand) (s : LedgerState) (r : StateTransitionReceipt)
      → (apply_ledger crypto payloads c s).0 ≡ ok r
      → Receipted c s (apply_ledger crypto payloads c s).1 r
  unfolding apply_ledger perform
  apply_ledger-Receipted c s r h = elim (Result-cases (validate payloads s c)) [
    | inl (_, v) ↦ elim (Result-cases (perform_as crypto payloads c.command_type c s).0) [
      | inl (x, e) ↦ record {
        advanced = ground (arith, v, e, perform_as-version c.command_type c s);
        numbered = ground (arith, v, e);
        named = ground (arith, v, e);
        from_root = ground (arith, v, e);
        to_root = ground (arith, v, e);
      }
      | inr (x, e) ↦ ground (arith, v, e)
    ]
    | inr (_, v) ↦ ground (arith, v)
  ]

  -- Receipts link up: of two commands that succeed one after the other, the second's receipt has the
  -- next number, modulo 2^64, starts from the state root that the first's receipt ends with, and
  -- names the second's payload hash.
  apply_ledger_links :
      (c d : LedgerCommand) (s : LedgerState) (r q : StateTransitionReceipt)
      → (apply_ledger crypto payloads c s).0 ≡ ok r
      → (apply_ledger crypto payloads d (apply_ledger crypto payloads c s).1).0 ≡ ok q
      → (q.sequence ≡ (r.sequence + 1) % u64_mod)
        × (q.previous_state_root ≡ r.resulting_state_root)
        × (q.command_hash ≡ d.payload_hash)
  apply_ledger_links c d s r q first second =
      let t = (apply_ledger crypto payloads c s).1 in
      let f = apply_ledger-Receipted c s r first in
      let g = apply_ledger-Receipted d t q second in
      (ground (arith, f.numbered, f.advanced, g.numbered), g.from_root ∙ sym f.to_root, g.named)
