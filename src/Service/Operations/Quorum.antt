-- ===== src/Service/Operations/Quorum.antt =====
-- The live members that `readiness` of crates/kerosene-node/src/lib.rs counts.
use kerosene_node.Base.{
  keep, All, Bool, Bool-cases, List, String, [], arith, false, inl, inr, leb, length, nat_eq, none,
  refl, text_eq, true, ℕ, ◌+◌, ◌-◌, ◌∷◌, ◌≡◌, ◌≤◌, some, text_iff,
}
use kerosene_node.Base.Table.{
  HasDistinctKeys, Table, lookup, retain, lookup-retain, retain-HasDistinctKeys,
}
use kerosene_node.Base.Words.{saturating_sub}
use kerosene_node.Ledger.Chain.{outpoint_eq}
use kerosene_node.Ledger.Chart.{account_eq}
use kerosene_node.Ledger.Machine.Intents.{AreDistinct}
use kerosene_node.Ledger.Nonces.{contains_text}
use kerosene_node.Ledger.States.{onchain_eq, reservation_state_eq, role_eq, withdrawal_status_eq}
use kerosene_node.Membership.Quorum.{length-keep}
use kerosene_node.Membership.Verifier.{threshold_now}
use kerosene_node.Service.{
  Externals, ServiceConfig, expire_peers, has_quorum, is_authorized_id, is_local_member,
  live_members_of, readiness, readiness_of,
}
use kerosene_node.Service.Operations.{Service}

abbrev pub keys_of : Table String ℕ → List String
keys_of [] = []
keys_of ((k, _) ∷ t) = k ∷ keys_of t

keys_of-keep_absent :
    (p : String × ℕ → Bool) (k : String) (t : Table String ℕ)
    → lookup k t ≡ none
    → contains_text k (keys_of (keep p t)) ≡ false
keys_of-keep_absent p k [] h = refl
keys_of-keep_absent p k ((j, v) ∷ t) h = ground (arith, h, keys_of-keep_absent p k t)

keys_of-keep-AreDistinct :
    (p : String × ℕ → Bool) (t : Table String ℕ)
    → HasDistinctKeys t
    → AreDistinct (keys_of (keep p t))
keys_of-keep-AreDistinct p [] d = tt
keys_of-keep-AreDistinct p ((j, v) ∷ t) d =
    ground (arith, keys_of-keep-AreDistinct p t d.1, keys_of-keep_absent p j t d.0)

length-keys_of : (t : Table String ℕ) → length (keys_of t) ≡ length t
length-keys_of [] = refl
length-keys_of (_ ∷ t) = omega (arith, length-keys_of t)

-- An entry of a table that has its keys once is what a lookup of its key finds.
abbrev pub IsHeld : Table String ℕ → String × ℕ → Type 0
IsHeld t e = lookup e.0 t ≡ some e.1

IsHeld-cons :
    (k : String) (v : ℕ) (t us : Table String ℕ)
    → lookup k t ≡ none
    → All (IsHeld t) us
    → All (IsHeld ((k, v) ∷ t)) us
IsHeld-cons k v t [] fresh h = tt
IsHeld-cons k v t (u ∷ us) fresh h =
    (ground (arith, fresh, h.0, text_iff k u.0), IsHeld-cons k v t us fresh h.1)

table-IsHeld : (t : Table String ℕ) → HasDistinctKeys t → All (IsHeld t) t
table-IsHeld [] d = tt
table-IsHeld ((k, v) ∷ t) d =
    (ground (arith, text_iff k k), IsHeld-cons k v t t d.0 (table-IsHeld t d.1))

retain-IsHeld :
    (p : ℕ → Bool) (t us : Table String ℕ) → All (IsHeld t) us → All (IsHeld t) (retain p us)
retain-IsHeld p t [] h = tt
retain-IsHeld p t ((k, v) ∷ us) h = ground (arith, h.0, retain-IsHeld p t us h.1)

keep-IsHeld :
    (p : String × ℕ → Bool) (t us : Table String ℕ) → All (IsHeld t) us → All (IsHeld t) (keep p us)
keep-IsHeld p t [] h = tt
keep-IsHeld p t (u ∷ us) h = ground (arith, h.0, keep-IsHeld p t us h.1)

retain-All :
    (now window : ℕ) (t : Table String ℕ)
    → All
        (λ (e : String × ℕ). now - e.1 ≤ window)
        (retain (λ seen. leb (saturating_sub now seen) window) t)
retain-All now window [] = tt
retain-All now window ((j, v) ∷ t) = ground (arith, retain-All now window t)

All-keep :
    (P : String × ℕ → Type 0) (p : String × ℕ → Bool) (t : Table String ℕ)
    → All P t
    → All (λ e. P e × (p e ≡ true)) (keep p t)
All-keep P p [] all = tt
All-keep P p (e ∷ t) all = elim (Bool-cases (p e)) [
  | inl h ↦ rw h ((all.0, h), All-keep P p t all.1)
  | inr h ↦ rw h (All-keep P p t all.1)
]

module _ (x : Externals) (me : ServiceConfig) where
  open x use {crypto, contracts, keys, parse_url}

  -- The peers held live are listed once each, and the node itself is not among them.
  pub record HasPeers (s : Service x me) : Type 0 where
    pub distinct : HasDistinctKeys s.active_peers
    pub not_self : lookup me.identity.member_id s.active_peers ≡ none

  -- Enough members, the node itself included, that are authorized and that the service last saw, at
  -- the times that it holds for them, within the window.
  pub record IsQuorate (now : ℕ) (s : Service x me) : Type 0 where
    pub self_listed : is_local_member x me s ≡ true
    pub others : List (String × ℕ)
    pub all_distinct : AreDistinct (me.identity.member_id ∷ keys_of others)
    pub all_held : All (IsHeld s.active_peers) others
    pub all_live :
        All
          (λ (e : String × ℕ).
            (now - e.1 ≤ me.peer_live_window_ms) × (is_authorized_id x me s e ≡ true))
          others
    pub enough : threshold_now crypto contracts parse_url s.membership ≤ 1 + length others

  -- When the readiness says that there is a quorum, and the service lists its peers once and not
  -- itself, the node is itself a member and there are peers of it, all distinct, authorized by the
  -- membership and last seen within the live window by the times that the service held, that together
  -- with the node reach the threshold.
  pub readiness-IsQuorate :
      (now : ℕ) (s : Service x me)
      → HasPeers s
      → (readiness x me now s).0.quorum_ready ≡ true
      → IsQuorate now s
  unfolding readiness readiness_of has_quorum live_members_of expire_peers
  readiness-IsQuorate now s has h =
      let live =
        retain (λ seen. leb (saturating_sub now seen) me.peer_live_window_ms) s.active_peers in
      let t = expire_peers x me now s in
      let picked = keep (is_authorized_id x me t) live in
      record {
        self_listed = ground (arith, h);
        others = picked;
        all_distinct = (
          keys_of-keep_absent (is_authorized_id x me t) me.identity.member_id live (
              ground (
                arith,
                has.not_self,
                lookup-retain (λ seen. leb (saturating_sub now seen) me.peer_live_window_ms)
                    me.identity.member_id s.active_peers has.distinct,
              )),
          keys_of-keep-AreDistinct (is_authorized_id x me t) live (
              retain-HasDistinctKeys (λ seen. leb (saturating_sub now seen) me.peer_live_window_ms)
                s.active_peers has.distinct),
        );
        all_held = keep-IsHeld (is_authorized_id x me t) s.active_peers live (
            retain-IsHeld (λ seen. leb (saturating_sub now seen) me.peer_live_window_ms)
              s.active_peers s.active_peers (table-IsHeld s.active_peers has.distinct));
        all_live =
            All-keep (λ (e : String × ℕ). now - e.1 ≤ me.peer_live_window_ms)
              (is_authorized_id x me t) live (retain-All now me.peer_live_window_ms s.active_peers);
        enough = ground (arith, h, length-keep (is_authorized_id x me t) live);
      }
