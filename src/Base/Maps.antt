-- ===== src/Base/Maps.antt =====
-- A Python `dict` as an association list in insertion order, over keys with decidable equality.
use mathlib.Core.Path.{◌≡◌, refl, ap, subst}
use mathlib.Core.Logic.{ite, if_pos, if_neg}
use mathlib.Core.Bool.{Bool}
use mathlib.Core.List.{List, [], ◌∷◌, ◌++◌}
use mathlib.Core.Option.{Option, none, some}
use native.Mathlib.Omega.{arith}
use basecradle_router.Base.Tests.{if◌then◌else◌}
use basecradle_router.Base.Lists.{All}

abbrev pub Dict {ℓ} : Type ℓ → Type ℓ → Type ℓ
Dict K V = List (K × V)

-- Equality of pairs, decided part by part.
unfoldable pub pair_discrete {ℓ} : {A B : Type ℓ} → Discrete A → Discrete B → Discrete (A × B)
pair_discrete da db (a, b) (c, d) = elim (da a c) [
  | yes p ↦ elim (db b d) [ yes q ↦ yes (λ i. (p i, q i)) | no q ↦ no (λ e. q (ap (λ x. x.1) e)) ]
  | no p ↦ no (λ e. p (ap (λ x. x.0) e))
]

-- What a sweep leaves of a looked-up value.
abbrev pub unless {ℓ} : {V : Type ℓ} → (V → Bool) → Option V → Option V
unless p none = none
unless p (some v) = if p v then none else some v

module _ {ℓ} {K V : Type ℓ} (dec : Discrete K) where
  -- `d.get(key)`
  unfoldable pub get : K → Dict K V → Option V
  get k [] = none
  get k ((j, v) ∷ m) = ite (dec j k) (some v) (get k m)

  -- `d[key] = value`: in place if the key is there, else at the end
  unfoldable pub put : K → V → Dict K V → Dict K V
  put k v [] = (k, v) ∷ []
  put k v ((j, w) ∷ m) = ite (dec j k) ((k, v) ∷ m) ((j, w) ∷ put k v m)

  -- `del d[key]`, or `d.pop(key, None)`
  unfoldable pub del : K → Dict K V → Dict K V
  del k [] = []
  del k ((j, v) ∷ m) = ite (dec j k) (del k m) ((j, v) ∷ del k m)

  -- deletes each key whose value passes the test
  unfoldable pub sweep : (V → Bool) → Dict K V → Dict K V
  unfolding del
  sweep p [] = []
  sweep p ((j, v) ∷ m) = if p v then del j (sweep p m) else (j, v) ∷ sweep p m

  pub get-put :
      (j k : K) (v : V) (m : Dict K V) → get j (put k v m) ≡ ite (dec k j) (some v) (get j m)
  unfolding get put
  get-put j k v [] = refl
  get-put j k v ((i, w) ∷ m) = ground (arith, get-put j k v m)

  pub get-del : (j k : K) (m : Dict K V) → get j (del k m) ≡ ite (dec k j) none (get j m)
  unfolding get del
  get-del j k [] = ground arith
  get-del j k ((i, w) ∷ m) = ground (arith, get-del j k m)

  pub get-sweep : (j : K) (p : V → Bool) (m : Dict K V) → get j (sweep p m) ≡ unless p (get j m)
  unfolding get sweep
  get-sweep j p [] = refl
  get-sweep j p ((i, w) ∷ m) = ground (arith, get-sweep j p m, get-del j i (sweep p m))

  pub get-snoc :
      (j k : K) (v : V) (m : Dict K V)
      → get j (m ++ (k, v) ∷ [])
        ≡ elim (get j m) [ some w ↦ some w | none ↦ ite (dec k j) (some v) none ]
  unfolding get
  get-snoc j k v [] = refl
  get-snoc j k v ((i, w) ∷ m) = ground (arith, get-snoc j k v m)

  pub get-put_self : (k : K) (v : V) (m : Dict K V) → get k (put k v m) ≡ some v
  get-put_self k v m = ground (arith, get-put k k v m)

  pub get-put_ne : (j k : K) (v : V) (m : Dict K V) → (k ≡ j → ⊥) → get j (put k v m) ≡ get j m
  get-put_ne j k v m h = ground (arith, get-put j k v m)

  pub del-put : (k : K) (v : V) (m : Dict K V) → del k (put k v m) ≡ del k m
  unfolding del put
  del-put k v [] = ground arith
  del-put k v ((i, w) ∷ m) = ground (arith, del-put k v m)

  module _ {κ} (P : K × V → Type κ) where
    pub All-del : (k : K) (m : Dict K V) → All P m → All P (del k m)
    unfolding del
    All-del k [] h = tt
    All-del k ((j, v) ∷ m) h = elim (dec j k) [
      | yes p ↦ rw (if_pos _ p) (All-del k m h.1)
      | no p ↦ rw (if_neg _ p) (h.0, All-del k m h.1)
    ]

    pub All-get : (k : K) (m : Dict K V) (v : V) → All P m → get k m ≡ some v → P (k, v)
    unfolding get
    All-get k [] v h e = cc
    All-get k ((j, w) ∷ m) v h e = elim (dec j k) [
      | yes p ↦
          let same : w ≡ v = ground (arith, p, e) in
          subst (λ (x : K × V). P x) (λ i. (p i, same i)) h.0
      | no p ↦ All-get k m v h.1 (rw (if_neg (dec j k) p) at e)
    ]
