-- ===== src/Base/Int.antt =====
-- Go's signed integers, where the code can meet a negative one. `negsuc n` is -(n + 1).
use Prim.Native.Nat.{ℕ, suc, ◌+◌, ◌-◌, ◌*◌, ◌%◌, ◌^◌, ◌≤◌}
use mathlib.Core.Path.{◌≡◌}
use mathlib.Core.Bool.{Bool, true, false}
use native.Mathlib.Omega.{arith}
use onesilo_node.Base.Tests.{ltb, leb, if◌then◌else◌}

pub data ℤ : Type 0 where
  pos : ℕ → ℤ
  negsuc : ℕ → ℤ

-- The difference of two numbers.
unfoldable pub difference : ℕ → ℕ → ℤ
difference a b = if leb b a then pos (a - b) else negsuc (b - a - 1)

infixl 60 ◌+ℤ◌
unfoldable pub ◌+ℤ◌ : ℤ → ℤ → ℤ
pos a +ℤ pos b = pos (a + b)
pos a +ℤ negsuc b = difference a (suc b)
negsuc a +ℤ pos b = difference b (suc a)
negsuc a +ℤ negsuc b = negsuc (suc (a + b))

unfoldable pub is_less : ℤ → ℤ → Bool
is_less (pos a) (pos b) = ltb a b
is_less (pos a) (negsuc b) = false
is_less (negsuc a) (pos b) = true
is_less (negsuc a) (negsuc b) = ltb b a

-- What int64 keeps of a number that is not negative.
unfoldable pub wrap_int64 : ℕ → ℤ
wrap_int64 n = let r = n % 2 ^ 64 in if ltb r (2 ^ 63) then pos r else negsuc (2 ^ 64 - 1 - r)

-- A second, in nanoseconds.
abbrev pub second : ℕ
second = 1000000000

-- A number of seconds as a time.Duration, in nanoseconds.
unfoldable pub duration : (seconds : ℕ) → ℤ
duration seconds = wrap_int64 (seconds * second)

-- The most seconds that a time.Duration holds.
abbrev pub max_seconds : ℕ
max_seconds = 9223372036

pub duration_small : (n : ℕ) → n ≤ max_seconds → duration n ≡ pos (n * second)
unfolding duration wrap_int64
duration_small n h = ground arith
