-- ===== src/Ledger/Machine/Intents.antt =====
-- The intents that `apply` of state_machine.rs has consumed.
use kerosene_node.Base.{
  Bool-cases, List, String, [], arith, false, if◌then◌else◌, inl, inr, refl, text_eq, text_iff,
  true, ◌++◌, ◌==◌, ◌∷◌, ◌≡◌, ◌⊎◌,
}
use kerosene_node.Base.Results.{Result-cases}
use kerosene_node.Ledger.Certificates.{Crypto}
use kerosene_node.Ledger.Machine.Applying.{
  apply_ledger, consume_intent_command, perform, perform_as, push_new, transfer_command,
}
use kerosene_node.Ledger.Machine.Validation.{Payloads, validate}
use kerosene_node.Ledger.Nonces.{contains_text}
use kerosene_node.Ledger.State.{
  LedgerCommand, LedgerState, LedgerCommandType, consume_intent, expire_intent,
}
use kerosene_node.Ledger.States.{}

abbrev pub AreDistinct : List String → Type 0
AreDistinct [] = Unit
AreDistinct (x ∷ xs) = (contains_text x xs ≡ false) × AreDistinct xs

contains-append :
    (x y : String) (xs : List String)
    → contains_text x (xs ++ y ∷ []) ≡ (if y == x then true else contains_text x xs)
contains-append x y [] = refl
contains-append x y (z ∷ xs) = ground (arith, contains-append x y xs)

append-AreDistinct :
    (y : String) (xs : List String)
    → contains_text y xs ≡ false
    → AreDistinct xs
    → AreDistinct (xs ++ y ∷ [])
append-AreDistinct y [] fresh h = (refl, tt)
append-AreDistinct y (x ∷ xs) fresh h =
    ground
      (arith, append-AreDistinct y xs, contains-append x y xs, text_iff x y, text_iff y x, h.0, h.1)

push_new-AreDistinct :
    (y : String) (xs : List String) → AreDistinct xs → AreDistinct (push_new y xs)
push_new-AreDistinct y xs h = elim (Bool-cases (contains_text y xs)) [
  | inl old ↦ rw (old, push_new) h
  | inr new ↦ rw (new, push_new) (append-AreDistinct y xs new h)
]

-- A history of commands, some of which may fail.
module _ (crypto : Crypto) (payloads : Payloads) where
  unfoldable pub run_ledger : List LedgerCommand → LedgerState → LedgerState
  run_ledger [] s = s
  run_ledger (c ∷ cs) s = run_ledger cs (apply_ledger crypto payloads c s).1

  -- A command may consume its intent, and changes the list in no other way.
  abbrev Consumes : LedgerCommand → LedgerState → LedgerState → Type 0
  Consumes c s t =
      (t.consumed_intents ≡ s.consumed_intents)
      ⊎ (t.consumed_intents ≡ push_new c.partition_key s.consumed_intents)

  perform_as-Consumes :
      (t : LedgerCommandType) (c : LedgerCommand) (s : LedgerState)
      → Consumes c s (perform_as crypto payloads t c s).1
  unfolding perform_as consume_intent_command transfer_command
  perform_as-Consumes consume_intent c s = inr refl
  perform_as-Consumes expire_intent c s = inr refl
  perform_as-Consumes _ c s = inl (ground arith)

  apply_ledger-Consumes :
      (c : LedgerCommand) (s : LedgerState) → Consumes c s (apply_ledger crypto payloads c s).1
  unfolding apply_ledger perform
  apply_ledger-Consumes c s = elim (Result-cases (validate payloads s c)) [
    | inl (_, v) ↦ elim (Result-cases (perform_as crypto payloads c.command_type c s).0) [
      | inl (x, e) ↦ ground (arith, v, e, perform_as-Consumes c.command_type c s)
      | inr (x, e) ↦ ground (arith, v, e, perform_as-Consumes c.command_type c s)
    ]
    | inr (_, v) ↦ inl (ground (arith, v))
  ]

  push_new-contains :
      (x y : String) (xs : List String)
      → contains_text x xs ≡ true
      → contains_text x (push_new y xs) ≡ true
  push_new-contains x y xs h = ground (arith, contains-append x y xs)

  -- Under any history of commands, failed ones included, an intent that was consumed stays consumed,
  -- and no intent is listed twice.
  pub run_ledger-intents :
      (cs : List LedgerCommand) (s : LedgerState) (intent : String)
      → AreDistinct s.consumed_intents
      → contains_text intent s.consumed_intents ≡ true
      → let t = run_ledger cs s in
        AreDistinct t.consumed_intents × (contains_text intent t.consumed_intents ≡ true)
  unfolding run_ledger
  run_ledger-intents [] s x d h = (d, h)
  run_ledger-intents (c ∷ cs) s x d h =
      let t = (apply_ledger crypto payloads c s).1 in
      elim (apply_ledger-Consumes c s) [
        | inl same ↦ run_ledger-intents cs t x (rw same d) (rw same h)
        | inr pushed ↦
            run_ledger-intents cs t x
              (rw pushed (push_new-AreDistinct c.partition_key s.consumed_intents d))
              (rw pushed (push_new-contains x c.partition_key s.consumed_intents h))
      ]
