-- ===== src/Sync.antt =====
-- The crate kerosene-sync: crates/kerosene-sync/src/lib.rs. The file of `LifecycleStore` is the
-- parameter `LifecycleFile`.
pub mod Order
use kerosene_node.Base.{
  Bool, List, Option, String, if◌then◌else◌, nat_eq, none, some, text_eq, ℕ, ◌==◌,
}
use kerosene_node.Base.Results.{Handler, Result, err, ok, require}
use kerosene_node.Ledger.Certificates.{Crypto}
use kerosene_node.Ledger.Chain.{outpoint_eq}
use kerosene_node.Ledger.Chart.{account_eq}
use kerosene_node.Ledger.States.{onchain_eq, reservation_state_eq, role_eq, withdrawal_status_eq}

pub data LifecycleState : Type 0 where
  created identity_ready transport_ready discovering authenticated member_verified : LifecycleState
  syncing state_verified eligible active : LifecycleState

-- `LifecycleState::next`
unfoldable pub next_state : LifecycleState → Option LifecycleState
next_state created = some identity_ready
next_state identity_ready = some transport_ready
next_state transport_ready = some discovering
next_state discovering = some authenticated
next_state authenticated = some member_verified
next_state member_verified = some syncing
next_state syncing = some state_verified
next_state state_verified = some eligible
next_state eligible = some active
next_state active = none

-- The place of a state in the order of the declaration, for its derived `PartialEq`.
abbrev pub stage : LifecycleState → ℕ
stage created = 0
stage identity_ready = 1
stage transport_ready = 2
stage discovering = 3
stage authenticated = 4
stage member_verified = 5
stage syncing = 6
stage state_verified = 7
stage eligible = 8
stage active = 9

abbrev pub lifecycle_eq : LifecycleState → LifecycleState → Bool
lifecycle_eq s t = stage s == stage t

pub data SyncError : Type 0 where
  invalid_transition : LifecycleState → LifecycleState → SyncError
  snapshot_root_mismatch : SyncError
  lifecycle_io lifecycle_json synchronization_failed : String → SyncError

-- `Lifecycle::advance`, on the state that a `Lifecycle` holds
unfoldable pub advance : LifecycleState → Handler LifecycleState SyncError (Unit {0})
unfolding next_state
advance target s = elim (next_state s) [
  | none ↦ (err (invalid_transition s target), s)
  | some t ↦
      if lifecycle_eq t target then (ok tt, target) else (err (invalid_transition s target), s)
]

pub record StateSnapshot : Type 0 where
  pub epoch : ℕ
  pub bytes : List ℕ
  pub state_root : String

-- `StateSnapshot::verify`
unfoldable pub verify_state : Crypto → StateSnapshot → Result SyncError (Unit {0})
verify_state crypto n =
    require (crypto.hex_encode (crypto.sha256 n.bytes) == n.state_root) snapshot_root_mismatch

-- `LifecycleStore`: what its file holds, and how reading and writing it come out
pub record LifecycleFile : Type 1 where
  pub File : Type 0
  pub load : File → Result SyncError LifecycleState
  pub save : LifecycleState → Handler File SyncError (Unit {0})
