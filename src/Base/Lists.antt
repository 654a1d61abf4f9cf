-- ===== src/Base/Lists.antt =====
-- Lists measured by native numbers, under the library's names, membership as a test, and
-- predicates by recursion.
use Prim.Native.Nat.{ℕ, suc, ◌+◌}
use mathlib.Core.Path.{◌≡◌, refl}
use mathlib.Core.Logic.{ite, if_pos, if_neg}
use mathlib.Core.Bool.{Bool, true, false, ◌||◌}
use mathlib.Core.List.{List, [], ◌∷◌, ◌++◌}
use native.Mathlib.Omega.{arith}

module _ {ℓ} {A : Type ℓ} where
  abbrev pub length : List A → ℕ
  length [] = 0
  length (x ∷ xs) = suc (length xs)

  pub length-append : (xs ys : List A) → length (xs ++ ys) ≡ length xs + length ys
  length-append [] ys = omega arith
  length-append (x ∷ xs) ys = omega (arith, length-append xs ys)

  abbrev pub All {κ} : (A → Type κ) → List A → Type κ
  All P [] = Unit
  All P (x ∷ xs) = P x × All P xs

  pub All-snoc {κ} : (P : A → Type κ) (xs : List A) {x : A} → All P xs → P x → All P (xs ++ x ∷ [])
  All-snoc P [] h p = (p, tt)
  All-snoc P (y ∷ xs) h p = (h.0, All-snoc P xs h.1 p)

  pub All-append {κ} : (P : A → Type κ) (xs ys : List A) → All P xs → All P ys → All P (xs ++ ys)
  All-append P [] ys h k = k
  All-append P (x ∷ xs) ys h k = (h.0, All-append P xs ys h.1 k)

  pub All-map {κ μ} :
      (P : A → Type κ) (Q : A → Type μ) (f : (x : A) → P x → Q x) (xs : List A)
      → All P xs
      → All Q xs
  All-map P Q f [] h = tt
  All-map P Q f (x ∷ xs) h = (f x h.0, All-map P Q f xs h.1)

module _ {ℓ} {A : Type ℓ} (dec : Discrete A) where
  -- `x in xs`
  unfoldable pub contains : A → List A → Bool
  contains x [] = false
  contains x (y ∷ ys) = ite (dec y x) true (contains x ys)

  -- `xs.discard(x)` on a set kept as a list
  unfoldable pub discard : A → List A → List A
  discard x [] = []
  discard x (y ∷ ys) = ite (dec y x) (discard x ys) (y ∷ discard x ys)

  pub contains-snoc :
      (x y : A) (xs : List A)
      → contains x (xs ++ y ∷ []) ≡ (contains x xs || ite (dec y x) true false)
  unfolding contains
  contains-snoc x y [] = refl
  contains-snoc x y (z ∷ xs) = ground (arith, contains-snoc x y xs)

  pub contains-discard :
      (x y : A) (xs : List A) → contains x (discard y xs) ≡ ite (dec y x) false (contains x xs)
  unfolding contains discard
  contains-discard x y [] = ground arith
  contains-discard x y (z ∷ xs) = elim (dec z y) [
    | yes p ↦ rw (if_pos _ p) (ground (arith, contains-discard x y xs))
    | no p ↦ rw (if_neg _ p) (ground (arith, contains-discard x y xs))
  ]
