-- ===== src/Prelude/Numbers.antt =====
-- JavaScript numbers as the guards see them: an amount in whole thousandths, or one of the values
-- that `Number.isFinite` refuses.
use Prim.Native.Nat.{ℕ}
use mathlib.Core.Bool.{Bool, true, false}
use webmcp_security_lab.Prelude.Tests.{ltb}

pub data Number : Type 0 where
  thousandths : ℕ → Number
  -- `negative n` is -(n + 1) thousandths.
  negative : ℕ → Number
  infinite not_a_number : Number

abbrev pub is_finite : Number → Bool
is_finite (thousandths n) = true
is_finite (negative n) = true
is_finite _ = false

-- `value <= 0`, false of NaN; the infinity is the positive one.
abbrev pub is_not_positive : Number → Bool
is_not_positive (thousandths n) = ltb n 1
is_not_positive (negative n) = true
is_not_positive _ = false
