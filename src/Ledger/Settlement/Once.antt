-- ===== src/Ledger/Settlement/Once.antt =====
-- A settlement happens once: settlement.rs with state_machine.rs and nonce.rs.
use kerosene_node.Base.{
  List, arith, false, inl, inr, true, ℕ, ◌<◌, ◌≡◌, ◌≤◌, text_iff, nat_eq, text_eq,
}
use kerosene_node.Base.Results.{Result-cases, is_ok, ok}
use kerosene_node.Ledger.Authorization.{
  SettlementAuthorization, SettlementPolicy, compute_psbt_hash, verify_authorization,
}
use kerosene_node.Ledger.Certificates.{Crypto, verify_basic}
use kerosene_node.Ledger.Chain.{outpoint_eq}
use kerosene_node.Ledger.Chart.{account_eq}
use kerosene_node.Ledger.Machine.Intents.{AreDistinct, run_ledger, run_ledger-intents}
use kerosene_node.Ledger.Machine.Validation.{Payloads}
use kerosene_node.Ledger.Nonces.{NonceSet, contains_text, mark_consumed_sync}
use kerosene_node.Ledger.Settlement.{PsbtFacts, validate_settlement, verify_vault}
use kerosene_node.Ledger.State.{LedgerCommand, LedgerState}
use kerosene_node.Ledger.States.{onchain_eq, reservation_state_eq, role_eq, withdrawal_status_eq}

module _ (crypto : Crypto) where
  consumed_refused :
      (a : SettlementAuthorization) (s : LedgerState) (policy : SettlementPolicy) (now : ℕ)
      → contains_text a.intent_commitment s.consumed_intents ≡ true
      → is_ok (validate_settlement crypto a s policy now) ≡ false
  unfolding validate_settlement
  consumed_refused a s policy now h = elim (Result-cases (verify_authorization crypto a)) [
    | inl (_, v) ↦ ground (arith, v)
    | inr (_, v) ↦ ground (arith, v)
  ]

  -- Once its intent is consumed, no authorization for it is ever valid again, under any policy, at
  -- any time, and whatever commands the ledger has applied or refused since.
  pub validate_settlement_once :
      (payloads : Payloads) (cs : List LedgerCommand) (a : SettlementAuthorization)
      (s : LedgerState) (policy : SettlementPolicy) (now : ℕ)
      → AreDistinct s.consumed_intents
      → contains_text a.intent_commitment s.consumed_intents ≡ true
      → is_ok (validate_settlement crypto a (run_ledger crypto payloads cs s) policy now) ≡ false
  validate_settlement_once payloads cs a s policy now distinct used =
      consumed_refused a (run_ledger crypto payloads cs s) policy now
        (run_ledger-intents crypto payloads cs s a.intent_commitment distinct used).1

  -- What a vault that accepts has established.
  pub record IsBound (a : SettlementAuthorization) (psbt : PsbtFacts) (policy : SettlementPolicy)
      (nonces : NonceSet) (now : ℕ) : Type 0 where
    pub fresh : contains_text a.nonce nonces ≡ false
    pub in_time : now < a.expires_at_bucket
    pub committed_to : compute_psbt_hash crypto psbt.psbt_bytes ≡ a.psbt_commitment
    pub has_inputs : 0 < psbt.psbt_input_count
    pub has_outputs : (0 < psbt.psbt_output_count) × (psbt.psbt_output_count ≤ policy.max_outputs)
    pub signed : verify_basic crypto a.quorum_certificate ≡ ok tt

  verify_authorization-signed :
      (a : SettlementAuthorization)
      → verify_authorization crypto a ≡ ok tt
      → verify_basic crypto a.quorum_certificate ≡ ok tt
  unfolding verify_authorization
  verify_authorization-signed a h = ground arith

  verify_vault-authorized :
      (a : SettlementAuthorization) (psbt : PsbtFacts) (policy : SettlementPolicy)
      (nonces : NonceSet) (now : ℕ)
      → verify_vault crypto a psbt policy nonces now ≡ ok tt
      → verify_authorization crypto a ≡ ok tt
  unfolding verify_vault
  verify_vault-authorized a psbt policy nonces now h =
      elim (Result-cases (verify_authorization crypto a)) [
        | inl (_, v) ↦ v
        | inr (_, v) ↦ ground (arith, v)
      ]

  verify_vault-nonce :
      (a : SettlementAuthorization) (psbt : PsbtFacts) (policy : SettlementPolicy)
      (nonces : NonceSet) (now : ℕ)
      → contains_text a.nonce nonces ≡ true
      → is_ok (verify_vault crypto a psbt policy nonces now) ≡ false
  unfolding verify_vault
  verify_vault-nonce a psbt policy nonces now seen_before =
      elim (Result-cases (verify_authorization crypto a)) [
        | inl (_, v) ↦ ground (arith, v)
        | inr (_, v) ↦ ground (arith, v)
      ]

  -- A vault accepts an authorization only before it expires, under a nonce that it has not seen, for
  -- a PSBT of the hash committed to with at least one input, at least one output and no more outputs
  -- than the policy allows, and with a certificate that passes `verify_basic`. It does not mark
  -- the nonce itself; once the caller has marked it, the vault refuses every authorization under
  -- that nonce, for any PSBT, policy and time.
  pub verify_vault-IsBound :
      (a b : SettlementAuthorization) (psbt other : PsbtFacts)
      (policy other_policy : SettlementPolicy) (nonces : NonceSet) (now later : ℕ)
      → verify_vault crypto a psbt policy nonces now ≡ ok tt
      → b.nonce ≡ a.nonce
      → IsBound a psbt policy nonces now
        × (is_ok
              (verify_vault crypto b other other_policy (mark_consumed_sync a.nonce nonces) later)
            ≡ false)
  unfolding verify_vault mark_consumed_sync
  verify_vault-IsBound a b psbt other policy other_policy nonces now later h same =
      let v = verify_vault-authorized a psbt policy nonces now h in
      (
        record {
          fresh = ground (arith, v);
          in_time = ground (arith, v);
          committed_to =
              ground
                (arith, v, text_iff (compute_psbt_hash crypto psbt.psbt_bytes) a.psbt_commitment);
          has_inputs = ground (arith, v);
          has_outputs = (ground (arith, v), ground (arith, v));
          signed = verify_authorization-signed a v;
        },
        verify_vault-nonce b other other_policy (mark_consumed_sync a.nonce nonces) later
            (ground (arith, same, text_iff a.nonce a.nonce)),
      )
