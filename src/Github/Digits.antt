-- ===== src/Github/Digits.antt =====
-- The fuel of `decimal`, the `str` of a pull request's number (routes/github.py).
use Prim.Native.Nat.{◌/◌}
use basecradle_router.Base.{ℕ, zero, suc, ◌<◌, ◌≡◌, refl, inl, inr, String, arith, Bool-cases, ltb}
use basecradle_router.Github.{decimal_from}

-- Any fuel above the number gives the same digits.
decimal_from-enough :
    (f g n : ℕ) (acc : String) → n < f → n < g → decimal_from f n acc ≡ decimal_from g n acc
unfolding decimal_from
decimal_from-enough zero g n acc h k = absurd (omega (arith, h))
decimal_from-enough (suc f) zero n acc h k = absurd (omega (arith, k))
decimal_from-enough (suc f) (suc g) n acc h k = elim (Bool-cases (ltb n 10)) [
  | inl small ↦ rw small refl
  | inr large ↦
      let big : 10 < suc n = ground (arith, large) in
      rw large (decimal_from-enough f g (n / 10) _ (omega (arith, h, big)) (omega (arith, k, big)))
]
