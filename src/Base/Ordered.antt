-- ===== src/Base/Ordered.antt =====
-- An `OrderedDict` kept as a record of the most recent keys.
use Prim.Native.Nat.{ℕ, suc, ◌+◌, ◌≤◌}
use mathlib.Core.Path.{◌≡◌, refl, ap, subst, ◌∙◌}
use mathlib.Core.Logic.{ite, if_pos, if_neg}
use mathlib.Core.List.{List, [], ◌∷◌, ◌++◌}
use mathlib.Core.Option.{none, some}
use mathlib.Core.Logic.{◌⊎◌, inl, inr}
use native.Mathlib.Omega.{arith}
use basecradle_router.Base.Tests.{ltb, Bool-cases, if◌then◌else◌}
use basecradle_router.Base.Lists.{length, length-append, All, All-snoc}
use basecradle_router.Base.Maps.{Dict, get, put, del, get-put, get-del, get-snoc, del-put, All-del}

-- `while len(d) > capacity: d.popitem(last=False)`
unfoldable pub trim {ℓ} : {A : Type ℓ} → ℕ → List A → List A
trim capacity [] = []
trim capacity (e ∷ m) = if ltb capacity (length (e ∷ m)) then trim capacity m else e ∷ m

module _ {K V : Type 0} (dec : Discrete K) where
  -- `d[key] = value; d.move_to_end(key)`
  unfoldable pub put_last : K → V → Dict K V → Dict K V
  put_last k v m = del dec k (put dec k v m) ++ (k, v) ∷ []

  -- the same, within a capacity
  unfoldable pub remember : ℕ → K → V → Dict K V → Dict K V
  unfolding put_last trim
  remember capacity k v m = trim capacity (put_last k v m)

  pub get-put_last :
      (j k : K) (v : V) (m : Dict K V)
      → get dec j (put_last k v m) ≡ ite (dec k j) (some v) (get dec j m)
  unfolding put_last
  get-put_last j k v m = ground (
    arith,
    get-snoc dec j k v (del dec k (put dec k v m)),
    get-del dec j k (put dec k v m),
    get-put dec j k v m,
  )

  pub length-trim : (n : ℕ) (m : Dict K V) → length (trim n m) ≤ n
  unfolding trim
  length-trim n [] = omega arith
  length-trim n (e ∷ m) = ground (arith, length-trim n m)

  length-trim_le : (n : ℕ) (m : Dict K V) → length (trim n m) ≤ length m
  unfolding trim
  length-trim_le n [] = omega arith
  length-trim_le n (e ∷ m) = ground (arith, length-trim_le n m)

  -- No key stands twice.
  abbrev pub Unique : Dict K V → Type 0
  Unique [] = Unit
  Unique ((k, v) ∷ m) = (get dec k m ≡ none) × Unique m

  Unique-del : (k : K) (m : Dict K V) → Unique m → Unique (del dec k m)
  unfolding del
  Unique-del k [] u = tt
  Unique-del k ((j, v) ∷ m) u = elim (dec j k) [
    | yes p ↦ rw (if_pos _ p) (Unique-del k m u.1)
    | no p ↦ rw (if_neg _ p) (ground (arith, get-del dec j k m, u.0), Unique-del k m u.1)
  ]

  Unique-put : (k : K) (v : V) (m : Dict K V) → Unique m → Unique (put dec k v m)
  unfolding put get
  Unique-put k v [] u = (refl, tt)
  Unique-put k v ((j, w) ∷ m) u = elim (dec j k) [
    | yes p ↦ rw (if_pos _ p) (subst (λ i. get dec i m ≡ none) p u.0, u.1)
    | no p ↦ rw (if_neg _ p) (ground (arith, get-put dec j k v m, u.0), Unique-put k v m u.1)
  ]

  Unique-snoc :
      (k : K) (v : V) (m : Dict K V) → get dec k m ≡ none → Unique m → Unique (m ++ (k, v) ∷ [])
  unfolding get
  Unique-snoc k v [] e u = (refl, tt)
  Unique-snoc k v ((j, w) ∷ m) e u =
      (ground (arith, get-snoc dec j k v m, u.0, e), Unique-snoc k v m (ground (arith, e)) u.1)

  Unique-trim : (n : ℕ) (m : Dict K V) → Unique m → Unique (trim n m)
  unfolding trim
  Unique-trim n [] u = tt
  Unique-trim n (e ∷ m) u = elim (Bool-cases (ltb n (length (e ∷ m)))) [
    | inl over ↦ rw over (Unique-trim n m u.1)
    | inr fits ↦ rw fits u
  ]

  pub Unique-remember :
      (n : ℕ) (k : K) (v : V) (m : Dict K V) → Unique m → Unique (remember n k v m)
  unfolding remember put_last
  Unique-remember n k v m u = Unique-trim n _ (
      Unique-snoc k v (del dec k (put dec k v m)) (ground (arith, get-del dec k k (put dec k v m)))
        (Unique-del k _ (Unique-put k v m u)))

  get-trim :
      (n : ℕ) (j : K) (m : Dict K V)
      → Unique m
      → (get dec j (trim n m) ≡ none) ⊎ (get dec j (trim n m) ≡ get dec j m)
  unfolding trim get
  get-trim n j [] u = inl refl
  get-trim n j ((k, v) ∷ m) u = elim (Bool-cases (ltb n (length ((k, v) ∷ m)))) [
    | inl over ↦ rw over (ground (arith, get-trim n j m u.1, u.0))
    | inr fits ↦ rw fits (inr refl)
  ]

  -- After a key is remembered, any key is found with its value, or was forgotten.
  pub get-remember :
      (n : ℕ) (j k : K) (v : V) (m : Dict K V)
      → Unique m
      → (get dec j (remember n k v m) ≡ none)
        ⊎ (get dec j (remember n k v m) ≡ ite (dec k j) (some v) (get dec j m))
  unfolding remember
  get-remember n j k v m u =
      let whole : Unique (put_last k v m) =
        unfold put_last in
        Unique-snoc k v (del dec k (put dec k v m))
          (ground (arith, get-del dec k k (put dec k v m))) (Unique-del k _ (Unique-put k v m u)) in
      elim (get-trim n j (put_last k v m) whole) [
        | inl lost ↦ inl lost
        | inr kept ↦ inr (kept ∙ get-put_last j k v m)
      ]

  get-trim_snoc :
      (n : ℕ) (k : K) (v : V) (m : Dict K V)
      → 1 ≤ n
      → get dec k m ≡ none
      → get dec k (trim n (m ++ (k, v) ∷ [])) ≡ some v
  unfolding trim get
  get-trim_snoc n k v [] h e = ground arith
  get-trim_snoc n k v ((j, w) ∷ m) h e =
      elim (Bool-cases (ltb n (length ((j, w) ∷ m ++ (k, v) ∷ [])))) [
        | inl over ↦ rw over (get-trim_snoc n k v m h (ground (arith, e)))
        | inr fits ↦ rw fits (ground (arith, e, get-snoc dec k k v m))
      ]

  -- The key itself is never forgotten.
  pub get-remember_self :
      (n : ℕ) (k : K) (v : V) (m : Dict K V) → 1 ≤ n → get dec k (remember n k v m) ≡ some v
  unfolding remember put_last
  get-remember_self n k v m h =
      get-trim_snoc n k v (del dec k (put dec k v m)) h
        (ground (arith, get-del dec k k (put dec k v m)))

  pub length-remember : (n : ℕ) (k : K) (v : V) (m : Dict K V) → length (remember n k v m) ≤ n
  unfolding remember
  length-remember n k v m = length-trim n (put_last k v m)

  trim-within : (n : ℕ) (m : Dict K V) → length m ≤ n → trim n m ≡ m
  unfolding trim
  trim-within n [] h = refl
  trim-within n (e ∷ m) h = ground (arith, h)

  length-del : (k : K) (m : Dict K V) → length (del dec k m) ≤ length m
  unfolding del
  length-del k [] = omega arith
  length-del k ((j, v) ∷ m) = elim (dec j k) [
    | yes p ↦ rw (if_pos _ p) (omega (arith, length-del k m))
    | no p ↦ rw (if_neg _ p) (omega (arith, length-del k m))
  ]

  length-put_last : (k : K) (v : V) (m : Dict K V) → length (put_last k v m) ≤ suc (length m)
  unfolding put_last
  length-put_last k v m =
      rw (del-put dec k v m)
        (omega (arith, length-append (del dec k m) ((k, v) ∷ []), length-del k m))

  -- Within the capacity, nothing is forgotten.
  pub get-remember_within :
      (n : ℕ) (j k : K) (v : V) (m : Dict K V)
      → length m + 1 ≤ n
      → get dec j (remember n k v m) ≡ ite (dec k j) (some v) (get dec j m)
  unfolding remember
  get-remember_within n j k v m h =
      ap (get dec j) (trim-within n (put_last k v m) (omega (arith, length-put_last k v m, h)))
      ∙ get-put_last j k v m

  pub length-remember_step :
      (n : ℕ) (k : K) (v : V) (m : Dict K V) → length (remember n k v m) ≤ length m + 1
  unfolding remember
  length-remember_step n k v m =
      omega (arith, length-trim_le n (put_last k v m), length-put_last k v m)

  module _ {κ} (P : K × V → Type κ) where
    All-trim : (n : ℕ) (m : Dict K V) → All P m → All P (trim n m)
    unfolding trim
    All-trim n [] h = tt
    All-trim n (e ∷ m) h = elim (Bool-cases (ltb n (length (e ∷ m)))) [
      | inl over ↦ rw over (All-trim n m h.1)
      | inr fits ↦ rw fits h
    ]

    pub All-remember :
        (n : ℕ) (k : K) (v : V) (m : Dict K V) → P (k, v) → All P m → All P (remember n k v m)
    unfolding remember put_last
    All-remember n k v m p h =
        rw (del-put dec k v m) (All-trim n _ (All-snoc P _ (All-del dec P k m h) p))
