-- ===== src/Ledger/States.antt =====
-- The states of a reservation, a withdrawal, a UTXO and a cluster node, from reservation.rs,
-- withdrawal.rs, chain.rs and membership.rs of crates/kerosene-ledger/src. Their derived equality
-- compares the positions of the variants.
use kerosene_node.Base.{Eq, arith, nat_beq, true, ℕ, ◌↔◌, ◌≡◌}

pub data ReservationState : Type 0 where
  prepared committed consumed released expired : ReservationState

abbrev pub reservation_state_code : ReservationState → ℕ
reservation_state_code prepared = 0
reservation_state_code committed = 1
reservation_state_code consumed = 2
reservation_state_code released = 3
reservation_state_code ReservationState.expired = 4

pub reservation_state_iff :
    (a b : ReservationState)
    → (nat_beq (reservation_state_code a) (reservation_state_code b) ≡ true) ↔ (a ≡ b)
reservation_state_iff a b = (λ h. ground arith, λ h. ground arith)

instance abbrev pub reservation_state_eq : Eq ReservationState
reservation_state_eq = record {
  beq = λ a b. nat_beq (reservation_state_code a) (reservation_state_code b);
  beq_iff = reservation_state_iff;
}

pub data WithdrawalStatus : Type 0 where
  reserved authorized signing broadcast : WithdrawalStatus
  confirming confirmed failed replaced : WithdrawalStatus

abbrev pub withdrawal_status_code : WithdrawalStatus → ℕ
withdrawal_status_code reserved = 0
withdrawal_status_code authorized = 1
withdrawal_status_code signing = 2
withdrawal_status_code broadcast = 3
withdrawal_status_code WithdrawalStatus.confirming = 4
withdrawal_status_code confirmed = 5
withdrawal_status_code failed = 6
withdrawal_status_code WithdrawalStatus.replaced = 7

pub withdrawal_status_iff :
    (a b : WithdrawalStatus)
    → (nat_beq (withdrawal_status_code a) (withdrawal_status_code b) ≡ true) ↔ (a ≡ b)
withdrawal_status_iff a b = (λ h. ground arith, λ h. ground arith)

instance abbrev pub withdrawal_status_eq : Eq WithdrawalStatus
withdrawal_status_eq = record {
  beq = λ a b. nat_beq (withdrawal_status_code a) (withdrawal_status_code b);
  beq_iff = withdrawal_status_iff;
}

pub data OnchainState : Type 0 where
  seen in_mempool confirming spendable : OnchainState
  finalized_by_policy replaced reorged spent : OnchainState

-- The code that `compute_utxo_root` hashes, which is the variant's position.
abbrev pub onchain_code : OnchainState → ℕ
onchain_code seen = 0
onchain_code in_mempool = 1
onchain_code OnchainState.confirming = 2
onchain_code spendable = 3
onchain_code finalized_by_policy = 4
onchain_code OnchainState.replaced = 5
onchain_code reorged = 6
onchain_code spent = 7

pub onchain_iff :
    (a b : OnchainState) → (nat_beq (onchain_code a) (onchain_code b) ≡ true) ↔ (a ≡ b)
onchain_iff a b = (λ h. ground arith, λ h. ground arith)

instance abbrev pub onchain_eq : Eq OnchainState
onchain_eq = record {
  beq = λ a b. nat_beq (onchain_code a) (onchain_code b);
  beq_iff = onchain_iff;
}

pub data NodeRole : Type 0 where
  untrusted observer learner voter : NodeRole

abbrev pub role_code : NodeRole → ℕ
role_code untrusted = 0
role_code observer = 1
role_code learner = 2
role_code voter = 3

pub role_iff : (a b : NodeRole) → (nat_beq (role_code a) (role_code b) ≡ true) ↔ (a ≡ b)
role_iff a b = (λ h. ground arith, λ h. ground arith)

instance abbrev pub role_eq : Eq NodeRole
role_eq = record { beq = λ a b. nat_beq (role_code a) (role_code b); beq_iff = role_iff }
