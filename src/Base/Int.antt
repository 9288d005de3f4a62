-- ===== src/Base/Int.antt =====
-- The signed machine integers of the source where a negative value has a meaning of its own.
use Prim.Native.Nat.{ℕ, zero, suc, ◌-◌}
use mathlib.Core.Bool.{Bool, true, false}
use libstpool.Base.Tests.{ltb, leb, if◌then◌else◌}

-- `negsuc n` is -(n + 1).
pub data ℤ : Type 0 where
  pos : ℕ → ℤ
  negsuc : ℕ → ℤ

-- a - b, as an integer.
abbrev pub sub_ℕ : ℕ → ℕ → ℤ
sub_ℕ a b = if leb b a then pos (a - b) else negsuc (b - a - 1)

-- k < n, k < 0 and n < k, for an integer k and a counter n.
abbrev pub below : ℤ → ℕ → Bool
below (pos k) n = ltb k n
below (negsuc k) n = true

abbrev pub is_negative : ℤ → Bool
is_negative (pos k) = false
is_negative (negsuc k) = true

abbrev pub above : ℤ → ℕ → Bool
above (pos k) n = ltb n k
above (negsuc k) n = false

abbrev pub is_zero : ℤ → Bool
is_zero (pos k) = elim k [ zero ↦ true | suc j ↦ false ]
is_zero (negsuc k) = false

-- The value of an integer that is known not to be negative.
abbrev pub magnitude : ℤ → ℕ
magnitude (pos k) = k
magnitude (negsuc k) = 0
