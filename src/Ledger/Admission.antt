-- ===== src/Ledger/Admission.antt =====
-- Node roles, the membership store and the voting gate: crates/kerosene-ledger/src/membership.rs.
pub mod Roles
use Prim.Native.String.{compare as compare_text}
use kerosene_node.Base.{
  Bool, List, Option, String, [], false, if◌then◌else◌, nat_eq, not, text_eq, true, ℕ, ◌&&◌, ◌++◌,
  ◌==◌, ◌∷◌,
}
use kerosene_node.Base.Results.{
  bind as ◌>>=◌, then_do as ◌>>◌, Handler, Result, assign, check, ok_or, reject_if, require,
}
use kerosene_node.Base.Table.{Table, contains_key, insert, lookup, remove_key}
use kerosene_node.Ledger.Chain.{outpoint_eq}
use kerosene_node.Ledger.Chart.{account_eq}
use kerosene_node.Ledger.Errors.{
  LedgerError, invalid_role_transition, invariant_violation, node_exists, node_not_found,
}
use kerosene_node.Ledger.Replication.{ReplicationStatus, SyncStatus, is_healthy}
use kerosene_node.Ledger.States.{
  NodeRole, learner, observer, onchain_eq, reservation_state_eq, role_eq, untrusted, voter,
  withdrawal_status_eq,
}
use text.Mathlib.Text.{is_le}

pub record NodeMembership : Type 0 where
  pub node_id : String
  pub role : NodeRole
  pub onion_endpoint : Option String
  pub identity_pubkey : String
  pub attested_at_bucket : ℕ
  pub joined_epoch : ℕ
  pub last_heartbeat_bucket : ℕ
  pub admission_signature : Option String

abbrev pub NodeMap : Type 0
NodeMap = Table String NodeMembership

-- The match on both roles
abbrev pub can_follow_role : NodeRole → NodeRole → Bool
can_follow_role untrusted observer = true
can_follow_role observer learner = true
can_follow_role learner voter = true
can_follow_role voter observer = true
can_follow_role _ untrusted = true
can_follow_role _ _ = false

unfoldable pub validate_role_transition : NodeRole → NodeRole → Result LedgerError (Unit {0})
validate_role_transition current target =
    require (can_follow_role current target) (invalid_role_transition current target)

unfoldable pub add_node : NodeMembership → Handler NodeMap LedgerError (Unit {0})
add_node n = do
  check λ s. reject_if (contains_key n.node_id s) (invariant_violation (node_exists n.node_id))
  assign (insert n.node_id n)

unfoldable pub get_node : String → NodeMap → Option NodeMembership
get_node id s = lookup id s

abbrev pub insert_by_id : NodeMembership → List NodeMembership → List NodeMembership
insert_by_id n [] = n ∷ []
insert_by_id n (m ∷ ms) =
    if is_le (compare_text n.node_id m.node_id) then n ∷ m ∷ ms else m ∷ insert_by_id n ms

abbrev pub sort_by_id : List NodeMembership → List NodeMembership
sort_by_id [] = []
sort_by_id (n ∷ ns) = insert_by_id n (sort_by_id ns)

abbrev pub with_role : NodeRole → NodeMap → List NodeMembership
with_role role [] = []
with_role role ((_, n) ∷ s) = if n.role == role then n ∷ with_role role s else with_role role s

unfoldable pub list_by_role : NodeRole → NodeMap → List NodeMembership
list_by_role role s = sort_by_id (with_role role s)

unfoldable pub promote_node : String → NodeRole → Handler NodeMap LedgerError (Unit {0})
unfolding validate_role_transition
promote_node id target = do
  n ← check λ s. ok_or (lookup id s) (node_not_found id)
  check λ s. validate_role_transition n.role target
  assign (insert id (record n { role = target }))

unfoldable pub remove_member : String → Handler NodeMap LedgerError (Unit {0})
remove_member id = assign (remove_key id)

unfoldable pub update_heartbeat : String → ℕ → Handler NodeMap LedgerError (Unit {0})
update_heartbeat id bucket = do
  n ← check λ s. ok_or (lookup id s) (node_not_found id)
  assign (insert id (record n { last_heartbeat_bucket = bucket }))

pub record VotingGate : Type 0 where
  pub sync_status : ReplicationStatus
  pub membership : NodeMembership

-- The texts of `reason_blocked`, with what they name
pub data BlockReason : Type 0 where
  not_voter_role : String → NodeRole → BlockReason
  not_applied : ℕ → ℕ → BlockReason
  not_in_sync : SyncStatus → BlockReason

-- `VotingGate::can_vote`
unfoldable pub gate_can_vote : VotingGate → Bool
gate_can_vote g =
    (g.membership.role == voter)
    && ((g.sync_status.applied_sequence == g.sync_status.committed_sequence)
        && is_healthy g.sync_status.sync_status)

unfoldable pub can_propose : VotingGate → Bool
unfolding gate_can_vote
can_propose g = gate_can_vote g

-- `if test { reasons.push(reason); }`
abbrev pub reason_if : {A : Type 0} → Bool → A → List A
reason_if true r = r ∷ []
reason_if false r = []

unfoldable pub reason_blocked : VotingGate → List BlockReason
reason_blocked g =
    let s = g.sync_status in
    reason_if (not (g.membership.role == voter))
      (not_voter_role g.membership.node_id g.membership.role)
    ++ (reason_if (not (s.applied_sequence == s.committed_sequence))
          (not_applied s.applied_sequence s.committed_sequence)
        ++ reason_if (not (is_healthy s.sync_status)) (not_in_sync s.sync_status))
