-- ===== src/Ledger/Reservations/Expiry.antt =====
-- What `expire_stale` and `transition` of in_memory.rs do to a store of reservations.
use mathlib.Core.Option
use kerosene_node.Base.{
  Bool-cases, List, Option-cases, String, [], arith, false, if◌then◌else◌, inl, inr, is_some,
  length, none, refl, some, suc, text_eq, text_iff, true, ℕ, ◌+◌, ◌∙◌, ◌∷◌, ◌≡◌, ◌≢◌,
}
use kerosene_node.Base.Results.{err, ok}
use kerosene_node.Base.Table.{HasDistinctKeys, insert, lookup, lookup-insert, lookup-insert_self}
use kerosene_node.Ledger.Errors.{invariant_violation, reservation_state_mismatch}
use kerosene_node.Ledger.Nonces.{contains_text}
use kerosene_node.Ledger.Reservations.{
  Reservation, Reservations, expire_ids, expire_stale, is_stale, to_expire, transition,
}
use kerosene_node.Ledger.States.{ReservationState, reservation_state_iff}

abbrev expire : Reservation → Reservation
expire r = record r { state = ReservationState.expired }

-- What one pass at time `now` makes of a reservation.
abbrev pub after_expiry : ℕ → Reservation → Reservation
after_expiry now r = if is_stale now r then expire r else r

abbrev pub stale_count : ℕ → Reservations → ℕ
stale_count now [] = 0
stale_count now ((_, r) ∷ m) = if is_stale now r then suc (stale_count now m) else stale_count now m

lookup-expire_ids :
    (ids : List String) (n : ℕ) (m : Reservations) (id : String)
    → lookup id (expire_ids ids (n, m)).1
      ≡ (if contains_text id ids then Option.map expire (lookup id m) else lookup id m)
lookup-expire_ids [] n m id = refl
lookup-expire_ids (j ∷ js) n m id = elim (Option-cases (lookup j m)) [
  | inl e ↦ ground (arith, lookup-expire_ids js n m id, text_iff j id)
  | inr (r, e) ↦ ground (
    arith,
    lookup-expire_ids js (n + 1) (insert j (expire r) m) id,
    lookup-insert j id (expire r) m,
    text_iff j id,
  )
]

contains-to_expire :
    (now : ℕ) (m : Reservations) (id : String)
    → HasDistinctKeys m
    → contains_text id (to_expire now m)
      ≡ elim (lookup id m) [ none ↦ false | some r ↦ is_stale now r ]
contains-to_expire now [] id h = refl
contains-to_expire now ((j, r) ∷ m) id h =
    ground (arith, contains-to_expire now m id h.1, text_iff j id)

-- Every listed id is in the map.
abbrev AllPresent : List String → Reservations → Type 0
AllPresent [] m = Unit
AllPresent (id ∷ ids) m = (is_some (lookup id m) ≡ true) × AllPresent ids m

AllPresent-insert :
    (ids : List String) (k : String) (r : Reservation) (m : Reservations)
    → AllPresent ids m
    → AllPresent ids (insert k r m)
AllPresent-insert [] k r m h = tt
AllPresent-insert (id ∷ ids) k r m h =
    (ground (arith, lookup-insert k id r m), AllPresent-insert ids k r m h.1)

count-expire_ids :
    (ids : List String) (n : ℕ) (m : Reservations)
    → AllPresent ids m
    → (expire_ids ids (n, m)).0 ≡ n + length ids
count-expire_ids [] n m h = omega arith
count-expire_ids (j ∷ js) n m h = elim (Option-cases (lookup j m)) [
  | inl e ↦ ground arith
  | inr (r, e) ↦ ground (
    arith,
    count-expire_ids js (n + 1) (insert j (expire r) m) (AllPresent-insert js j (expire r) m h.1),
  )
]

AllPresent-cons :
    (ids : List String) (e : String × Reservation) (m : Reservations)
    → AllPresent ids m
    → AllPresent ids (e ∷ m)
AllPresent-cons [] e m h = tt
AllPresent-cons (id ∷ ids) e m h = (ground arith, AllPresent-cons ids e m h.1)

to_expire-AllPresent : (now : ℕ) (m : Reservations) → AllPresent (to_expire now m) m
to_expire-AllPresent now [] = tt
to_expire-AllPresent now ((j, r) ∷ m) = elim (Bool-cases (is_stale now r)) [
  | inl stale ↦ rw stale (
    ground (arith, text_iff j j),
    AllPresent-cons (to_expire now m) (j, r) m (to_expire-AllPresent now m),
  )
  | inr fresh ↦ rw fresh (AllPresent-cons (to_expire now m) (j, r) m (to_expire-AllPresent now m))
]

length-to_expire : (now : ℕ) (m : Reservations) → length (to_expire now m) ≡ stale_count now m
length-to_expire now [] = refl
length-to_expire now ((j, r) ∷ m) = ground (arith, length-to_expire now m)

-- On a map, one expiry pass returns the number of the reservations that are due and not terminal,
-- turns exactly those to expired, and leaves every other reservation and every id as it was.
pub expire_stale_lem :
    (now : ℕ) (m : Reservations)
    → HasDistinctKeys m
    → let (n, m') = expire_stale now m in
      (n ≡ stale_count now m)
      × ((id : String) → lookup id m' ≡ Option.map (after_expiry now) (lookup id m))
unfolding expire_stale
expire_stale_lem now m h = (
  count-expire_ids (to_expire now m) 0 m (to_expire-AllPresent now m)
      ∙ omega (arith, length-to_expire now m),
  λ id. ground (arith, lookup-expire_ids (to_expire now m) 0 m id, contains-to_expire now m id h),
)

-- Of two transitions of one reservation out of one state, the second fails and changes nothing once
-- the first has moved the reservation to another state.
transition_race :
    (id : String) (from to to' : ReservationState) (m : Reservations)
    → to ≢ from
    → (transition id from to m).0 ≡ ok tt
    → let m' = (transition id from to m).1 in
      transition id from to' m'
      ≡ (err (invariant_violation (reservation_state_mismatch id from to)), m')
unfolding transition
transition_race id from to to' m ne h = elim (Option-cases (lookup id m)) [
  | inl missing ↦ ground arith
  | inr (r, e) ↦
      ground
        (arith, lookup-insert_self id (record r { state = to }) m, reservation_state_iff to from)
]
