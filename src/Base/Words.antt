-- ===== src/Base/Words.antt =====
-- Rust's fixed-width unsigned integers as natural numbers with their checked operations.
use Prim.Native.Nat.{ℕ, ◌+◌, ◌-◌, ◌%◌}
use mathlib.Core.Option.{Option, none, some}
use kerosene_node.Base.Tests.{ltb, leb, if◌then◌else◌}

abbrev pub u64_mod : ℕ
u64_mod = 18446744073709551616

abbrev pub u128_mod : ℕ
u128_mod = 340282366920938463463374607431768211456

-- `u64::checked_add`
abbrev pub checked_add : ℕ → ℕ → Option ℕ
checked_add a b = if ltb (a + b) u64_mod then some (a + b) else none

-- `u64::checked_sub`
abbrev pub checked_sub : ℕ → ℕ → Option ℕ
checked_sub a b = if leb b a then some (a - b) else none

-- `x += 1` on a `u64`, in a build without overflow checks
abbrev pub wrapping_succ : ℕ → ℕ
wrapping_succ a = (a + 1) % u64_mod

-- `u64::saturating_add` and `u64::saturating_sub`
abbrev pub saturating_add : ℕ → ℕ → ℕ
saturating_add a b = if ltb (a + b) u64_mod then a + b else u64_mod - 1

abbrev pub saturating_sub : ℕ → ℕ → ℕ
saturating_sub a b = a - b

-- `u128::checked_add`
abbrev pub u128_checked_add : ℕ → ℕ → Option ℕ
u128_checked_add a b = if ltb (a + b) u128_mod then some (a + b) else none
