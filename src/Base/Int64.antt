-- ===== src/Base/Int64.antt =====
-- Go's `int64`, as the number of its 64 bits: its operations wrap around.
use Prim.Native.Nat.{ℕ, ◌+◌, ◌-◌, ◌*◌, ◌%◌, ◌^◌, ◌<◌}
use mathlib.Core.Path.{◌≡◌}
use native.Mathlib.Omega.{arith}
use csi_runtime.Base.Int.{ℤ, pos, negsuc}
use csi_runtime.Base.Tests.{ltb, if◌then◌else◌}

abbrev pub mul64 : ℕ → ℕ → ℕ
mul64 a b = a * b % 2 ^ 64

-- of two numbers below `2 ^ 64`
abbrev pub sub64 : ℕ → ℕ → ℕ
sub64 a b = (a + (2 ^ 64 - b)) % 2 ^ 64

-- The bits of a value.
abbrev pub bits64 : ℤ → ℕ
bits64 (pos n) = n % 2 ^ 64
bits64 (negsuc n) = 2 ^ 64 - n % 2 ^ 64 - 1

-- The value.
abbrev pub signed : ℕ → ℤ
signed a = if ltb a (2 ^ 63) then pos a else negsuc (2 ^ 64 - a - 1)

pub signed-small : (a : ℕ) → a < 2 ^ 63 → signed a ≡ pos a
signed-small a small = ground arith
