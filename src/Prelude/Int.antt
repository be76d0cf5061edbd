-- ===== src/Prelude/Int.antt =====
-- Python's `int`: as far as the program uses it, a sign and a native number.
use Prim.Native.Nat.{ℕ, zero, suc, ◌+◌}
use mathlib.Core.Bool.{Bool, false}
use multi_agent_workflow.Prelude.Tests.{eqb}

-- `negsuc n` is -(n + 1).
pub data ℤ : Type 0 where
  pos : ℕ → ℤ
  negsuc : ℕ → ℤ

abbrev pub neg : ℕ → ℤ
neg zero = pos 0
neg (suc n) = negsuc n

abbrev pub int_eq : ℤ → ℤ → Bool
int_eq (pos a) (pos b) = eqb a b
int_eq (negsuc a) (negsuc b) = eqb a b
int_eq (pos a) (negsuc b) = false
int_eq (negsuc a) (pos b) = false

-- The number of rounds of `range(z + 1)`.
abbrev pub rounds_after : ℤ → ℕ
rounds_after (pos n) = n + 1
rounds_after (negsuc n) = 0
