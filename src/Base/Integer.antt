-- ===== src/Base/Integer.antt =====
-- Python's integers.
use Prim.Native.Nat.{ℕ}
use mathlib.Core.Path.{ap}
use mathlib.Core.Bool.{Bool, false}
use basecradle_router.Base.Tests.{ltb}
use native.Mathlib.Decide.{ℕ_discrete}

-- `negsuc n` is the integer below zero by n + 1.
pub data ℤ : Type 0 where
  pos negsuc : ℕ → ℤ

unfoldable pub ℤ_discrete : Discrete ℤ
ℤ_discrete (pos m) (pos n) = elim (ℕ_discrete m n) [
  | yes p ↦ yes (ap pos p)
  | no q ↦ no (λ e. q (cc))
]
ℤ_discrete (pos m) (negsuc n) = no (λ e. cc)
ℤ_discrete (negsuc m) (pos n) = no (λ e. cc)
ℤ_discrete (negsuc m) (negsuc n) = elim (ℕ_discrete m n) [
  | yes p ↦ yes (ap negsuc p)
  | no q ↦ no (λ e. q (cc))
]

abbrev pub is_positive : ℤ → Bool
is_positive (pos n) = ltb 0 n
is_positive (negsuc n) = false
