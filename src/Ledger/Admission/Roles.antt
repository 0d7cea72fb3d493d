-- ===== src/Ledger/Admission/Roles.antt =====
-- The roles of crates/kerosene-ledger/src/membership.rs.
use kerosene_node.Base.{
  List, String, [], arith, if◌then◌else◌, nat_eq, some, suc, text_eq, true, ℕ, ◌+◌, ◌==◌, ◌↔◌, ◌∷◌,
  ◌≡◌, ◌≢◌, ◌≤◌, All, Bool-cases, Option-cases, inl, inr, text_iff, ◌⊎◌, ap, sym,
}
use kerosene_node.Base.Table.{lookup, lookup-insert, lookup-insert_ne, lookup-remove_key}
use kerosene_node.Ledger.Admission.{
  NodeMap, NodeMembership, VotingGate, add_node, gate_can_vote, promote_node, reason_blocked,
  remove_member, update_heartbeat, can_follow_role, validate_role_transition,
}
use kerosene_node.Ledger.Chain.{outpoint_eq}
use kerosene_node.Ledger.Chart.{account_eq}
use kerosene_node.Ledger.States.{
  NodeRole, learner, observer, onchain_eq, reservation_state_eq, role_eq, untrusted, voter,
  withdrawal_status_eq,
}

-- A node may vote exactly when no reason blocks it.
gate_can_vote-reason_blocked : (g : VotingGate) → (gate_can_vote g ≡ true) ↔ (reason_blocked g ≡ [])
unfolding gate_can_vote reason_blocked
gate_can_vote-reason_blocked g = (λ h. ground arith, λ h. ground arith)

pub data NodeOp : Type 0 where
  adding : NodeMembership → NodeOp
  promoting : String → NodeRole → NodeOp
  removing : String → NodeOp
  beating : String → ℕ → NodeOp

abbrev pub run_node_op : NodeOp → NodeMap → NodeMap
run_node_op (adding n) s = (add_node n s).1
run_node_op (promoting id target) s = (promote_node id target s).1
run_node_op (removing id) s = (remove_member id s).1
run_node_op (beating id bucket) s = (update_heartbeat id bucket s).1

abbrev pub run_node_ops : List NodeOp → NodeMap → NodeMap
run_node_ops [] s = s
run_node_ops (op ∷ ops) s = run_node_ops ops (run_node_op op s)

-- The number of promotions of one node, whatever comes of them.
abbrev pub promotions_of : String → List NodeOp → ℕ
promotions_of id [] = 0
promotions_of id (promoting j target ∷ ops) =
    if j == id then suc (promotions_of id ops) else promotions_of id ops
promotions_of id (adding n ∷ ops) = promotions_of id ops
promotions_of id (removing j ∷ ops) = promotions_of id ops
promotions_of id (beating j bucket ∷ ops) = promotions_of id ops

-- No operation adds or removes the node.
abbrev pub Stays : String → NodeOp → Type 0
Stays id (adding n) = n.node_id ≢ id
Stays id (removing j) = j ≢ id
Stays id (promoting j target) = Unit
Stays id (beating j bucket) = Unit

-- How far a role is from voting.
abbrev pub steps_to_vote : NodeRole → ℕ
steps_to_vote untrusted = 3
steps_to_vote observer = 2
steps_to_vote learner = 1
steps_to_vote voter = 0

role_step : (a b : NodeRole) → can_follow_role a b ≡ true → steps_to_vote a ≤ steps_to_vote b + 1
role_step untrusted b h = ground (arith, h)
role_step observer b h = ground (arith, h)
role_step learner b h = ground (arith, h)
role_step voter b h = omega arith

same_node :
    (id j : String) (n k : NodeMembership) (s : NodeMap)
    → lookup id s ≡ some n
    → lookup j s ≡ some k
    → j ≡ id
    → k ≡ n
same_node id j n k s h found same = cc (h, found, same)

lookup-promote_node :
    (id j : String) (target : NodeRole) (n : NodeMembership) (s : NodeMap)
    → lookup id s ≡ some n
    → ((lookup id (promote_node j target s).1 ≡ some n)
        ⊎ ((j ≡ id)
            × ((can_follow_role n.role target ≡ true)
                × (lookup id (promote_node j target s).1 ≡ some (record n { role = target })))))
unfolding promote_node validate_role_transition
lookup-promote_node id j target n s h = elim (Option-cases (lookup j s)) [
  | inl missing ↦ inl (ground (arith, h, missing))
  | inr (k, found) ↦ elim (Bool-cases (can_follow_role k.role target)) [
    | inl allowed ↦ elim (Bool-cases (j == id)) [
      | inl same ↦
          (let here = (text_iff j id).0 same in
            let kn = same_node id j n k s h found here in
            inr (
              here,
              (
                rw (sym kn) allowed,
                ground (
                  arith,
                  here,
                  found,
                  allowed,
                  same,
                  ap (λ (m : NodeMembership). some (record m { role = target })) kn,
                  lookup-insert j id (record k { role = target }) s,
                ),
              ),
            ))
      | inr other ↦ inl (
          ground (
            arith,
            h,
            found,
            allowed,
            text_iff j id,
            other,
            lookup-insert j id (record k { role = target }) s,
          ))
    ]
    | inr refused ↦ inl (ground (arith, h, found, refused))
  ]
]

promotions-cons :
    (id : String) (op : NodeOp) (ops : List NodeOp)
    → promotions_of id (op ∷ ops) ≡ promotions_of id (op ∷ []) + promotions_of id ops
promotions-cons id (adding n) ops = omega arith
promotions-cons id (promoting j target) ops = ground arith
promotions-cons id (removing j) ops = omega arith
promotions-cons id (beating j bucket) ops = omega arith

-- One operation keeps the node, and brings it at most one step nearer to voting if it promotes it.
run_node_op-role :
    (op : NodeOp) (id : String) (n : NodeMembership) (s : NodeMap)
    → Stays id op
    → lookup id s ≡ some n
    → (m : NodeMembership) × ((lookup id (run_node_op op s) ≡ some m)
        × (steps_to_vote n.role ≤ steps_to_vote m.role + promotions_of id (op ∷ [])))
unfolding add_node remove_member update_heartbeat
run_node_op-role (adding m) id n s stays h =
    (n, (ground (arith, h, lookup-insert_ne m.node_id id m s stays), omega arith))
run_node_op-role (promoting j target) id n s stays h =
    elim (lookup-promote_node id j target n s h) [
      | inl kept_same ↦ (n, (kept_same, ground arith))
      | inr (same, (allowed, found)) ↦ (
        record n { role = target },
        (found, ground (arith, same, text_iff j id, role_step n.role target allowed)),
      )
    ]
run_node_op-role (removing j) id n s stays h =
    (n, (ground (arith, h, lookup-remove_key j id s, text_iff j id, stays), omega arith))
run_node_op-role (beating j bucket) id n s stays h = elim (Option-cases (lookup j s)) [
  | inl missing ↦ (n, (ground (arith, h, missing), omega arith))
  | inr (k, found) ↦ elim (Bool-cases (j == id)) [
    | inl same ↦
        (let kn = same_node id j n k s h found ((text_iff j id).0 same) in
          (
            record k { last_heartbeat_bucket = bucket },
            (
              ground (
                arith,
                found,
                same,
                lookup-insert j id (record k { last_heartbeat_bucket = bucket }) s,
              ),
              rw kn (omega arith),
            ),
          ))
    | inr other ↦ (
      n,
      (
        ground (
          arith,
          h,
          found,
          other,
          lookup-insert j id (record k { last_heartbeat_bucket = bucket }) s,
        ),
        omega arith,
      ),
    )
  ]
]

-- Under operations that neither add nor remove it a node stays in the store, and each attempt to
-- promote it brings it at most one step nearer to voting: an untrusted node votes after no fewer than
-- three.
pub run_node_ops-voter :
    (ops : List NodeOp) (id : String) (n : NodeMembership) (s : NodeMap)
    → All (Stays id) ops
    → lookup id s ≡ some n
    → (m : NodeMembership) × ((lookup id (run_node_ops ops s) ≡ some m)
        × (steps_to_vote n.role ≤ steps_to_vote m.role + promotions_of id ops))
run_node_ops-voter [] id n s stays h = (n, (h, omega arith))
run_node_ops-voter (op ∷ ops) id n s stays h =
    let (k, (found, near)) = run_node_op-role op id n s stays.0 h in
    let (m, (last, nearer)) = run_node_ops-voter ops id k (run_node_op op s) stays.1 found in
    (m, (last, omega (arith, near, nearer, promotions-cons id op ops)))
