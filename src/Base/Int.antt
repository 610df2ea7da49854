-- ===== src/Base/Int.antt =====
-- Signed integers over the native numbers, and the machine integers that stand for them.
use Prim.Native.Nat.{ℕ, ◌+◌, ◌-◌, ◌<◌, compare, Ordering}
use mathlib.Core.Path.{◌≡◌}
use native.Mathlib.Omega.{arith}
use seek_storm.Base.Tests.{ltb, if◌then◌else◌}

-- `negsuc n` is -(n + 1).
pub data ℤ : Type 0 where
  pos : ℕ → ℤ
  negsuc : ℕ → ℤ

-- Rust's `cmp` on signed integers.
abbrev pub compare_ℤ : ℤ → ℤ → Ordering
compare_ℤ (pos a) (pos b) = compare a b
compare_ℤ (pos a) (negsuc b) = Ordering.gt
compare_ℤ (negsuc a) (pos b) = Ordering.lt
compare_ℤ (negsuc a) (negsuc b) = compare b a

-- The integer that a bit pattern below `2 * half` stands for, and the pattern of an integer.
abbrev pub to_signed : ℕ → ℕ → ℤ
to_signed half w = if ltb w half then pos w else negsuc (half + half - w - 1)

abbrev pub from_signed : ℕ → ℤ → ℕ
from_signed half (pos n) = n
from_signed half (negsuc n) = half + half - n - 1

-- The integer fits: -half ≤ z < half.
abbrev pub IsSigned : ℕ → ℤ → Type 0
IsSigned half (pos n) = n < half
IsSigned half (negsuc n) = n < half

pub to_signed-from_signed :
    (half : ℕ) (z : ℤ) → IsSigned half z → to_signed half (from_signed half z) ≡ z
to_signed-from_signed half (pos n) h = ground arith
to_signed-from_signed half (negsuc n) h = ground arith

pub from_signed-lt : (half : ℕ) (z : ℤ) → IsSigned half z → from_signed half z < half + half
from_signed-lt half (pos n) h = omega arith
from_signed-lt half (negsuc n) h = omega arith
