-- ===== src/Prelude/Int.antt =====
-- Signed numbers, as the model's clients report them.
use Prim.Native.Nat.{ℕ}
use mathlib.Core.Bool.{Bool, true, false}
use dev_team.Prelude.Tests.{leb}

-- `negsuc n` is -(n + 1).
pub data ℤ : Type 0 where
  pos : ℕ → ℤ
  negsuc : ℕ → ℤ

-- `max(0, n)`
unfoldable pub pos_part : ℤ → ℕ
pos_part (pos n) = n
pos_part (negsuc n) = 0

-- `a <= b`
unfoldable pub le : ℤ → ℤ → Bool
le (pos a) (pos b) = leb a b
le (negsuc a) (pos b) = true
le (pos a) (negsuc b) = false
le (negsuc a) (negsuc b) = leb b a
