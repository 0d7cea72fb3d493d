-- ===== src/Base/Int.antt =====
-- Signed integers over the native numbers, and Rust's `i128`.
use Prim.Native.Nat.{ℕ, suc, ◌+◌, ◌-◌}
use mathlib.Core.Bool.{Bool, true, false}
use mathlib.Core.Option.{Option, none, some}
use kerosene_node.Base.Tests.{ltb, leb, if◌then◌else◌}
use kerosene_node.Base.Words.{u128_mod}

-- `negsuc n` is -(n + 1).
pub data ℤ : Type 0 where
  pos : ℕ → ℤ
  negsuc : ℕ → ℤ

abbrev pub pos_part : ℤ → ℕ
pos_part (pos n) = n
pos_part (negsuc _) = 0

abbrev pub neg_part : ℤ → ℕ
neg_part (pos _) = 0
neg_part (negsuc n) = suc n

-- a - b, as an integer
abbrev pub sub_ℕ : ℕ → ℕ → ℤ
sub_ℕ a b = if leb b a then pos (a - b) else negsuc (b - a - 1)

abbrev pub is_negative : ℤ → Bool
is_negative (pos _) = false
is_negative (negsuc _) = true

abbrev pub is_positive : ℤ → Bool
is_positive (pos n) = ltb 0 n
is_positive (negsuc _) = false

abbrev pub i128_min_abs : ℕ
i128_min_abs = 170141183460469231731687303715884105728

-- `n as i128` for a `u128`: the same bits in two's complement
abbrev pub as_i128 : ℕ → ℤ
as_i128 n = if ltb n i128_min_abs then pos n else negsuc (u128_mod - n - 1)

-- `i128::checked_sub`
abbrev pub i128_checked_sub : ℤ → ℤ → Option ℤ
i128_checked_sub a b =
    let d = sub_ℕ (pos_part a + neg_part b) (neg_part a + pos_part b) in
    if ltb (pos_part d) i128_min_abs
    then (if leb (neg_part d) i128_min_abs then some d else none)
    else none
