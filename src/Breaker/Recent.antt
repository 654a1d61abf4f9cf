-- ===== src/Breaker/Recent.antt =====
-- Counting the recent entries of a rolling window (breaker.py).
use basecradle_router.Base.{
  ℕ, ◌+◌, ◌≤◌, ◌≡◌, true, List, [], ◌∷◌, ◌++◌, All, All-snoc, Bool-cases, inl, inr, length, leb,
  if◌then◌else◌, arith,
}
use basecradle_router.Breaker.{purge, all_aged}

-- How many times are younger than the window at `now`.
unfoldable pub recent : ℕ → ℕ → List ℕ → ℕ
recent window now [] = 0
recent window now (t ∷ ts) =
    if leb (t + window) now then recent window now ts else recent window now ts + 1

-- A deque whose entries do not decrease, with the last no later than `now`.
abbrev pub Sorted : List ℕ → ℕ → Type 0
Sorted [] now = Unit
Sorted (t ∷ ts) now = (t ≤ now) × All (λ u. t ≤ u) ts × Sorted ts now

module _ (window : ℕ) where
  pub recent-le-length : (n : ℕ) (ts : List ℕ) → recent window n ts ≤ length ts
  unfolding recent
  recent-le-length n [] = omega arith
  recent-le-length n (t ∷ ts) = ground (arith, recent-le-length n ts)

  pub recent_antitone : (n n' : ℕ) (ts : List ℕ) → n ≤ n' → recent window n' ts ≤ recent window n ts
  unfolding recent
  recent_antitone n n' [] h = omega arith
  recent_antitone n n' (t ∷ ts) h = ground (arith, recent_antitone n n' ts h)

  pub recent-append :
      (n : ℕ) (ts us : List ℕ)
      → recent window n (ts ++ us) ≡ recent window n ts + recent window n us
  unfolding recent
  recent-append n [] us = omega arith
  recent-append n (t ∷ ts) us = ground (arith, recent-append n ts us)

  -- What is purged was not recent, then or later.
  pub recent-purge :
      (now n : ℕ) (ts : List ℕ)
      → now ≤ n
      → recent window n (purge window now ts) ≡ recent window n ts
  unfolding recent purge
  recent-purge now n [] h = omega arith
  recent-purge now n (t ∷ ts) h = ground (arith, recent-purge now n ts h)

  -- Nothing is recent a whole window after the last entry.
  pub recent_aged :
      (last n : ℕ) (ts : List ℕ)
      → All (λ t. t ≤ last) ts
      → last + window ≤ n
      → recent window n ts ≡ 0
  unfolding recent
  recent_aged last n [] h le = omega arith
  recent_aged last n (t ∷ ts) h le = ground (arith, recent_aged last n ts h.1 le)

  -- A sorted deque whose newest entry has aged out has no recent entry.
  pub recent-all_aged :
      (now top n : ℕ) (ts : List ℕ)
      → Sorted ts top
      → all_aged window now ts ≡ true
      → now ≤ n
      → recent window n ts ≡ 0
  unfolding recent all_aged
  recent-all_aged now top n [] s a h = omega arith
  recent-all_aged now top n (t ∷ []) s a h = ground arith
  recent-all_aged now top n (t ∷ u ∷ ts) s a h =
      ground (arith, recent-all_aged now top n (u ∷ ts) s.2 a h)

pub Sorted-purge :
    (window now top : ℕ) (ts : List ℕ) → Sorted ts top → Sorted (purge window now ts) top
unfolding purge
Sorted-purge window now top [] s = tt
Sorted-purge window now top (t ∷ ts) s = elim (Bool-cases (leb (t + window) now)) [
  | inl aged ↦ rw aged (Sorted-purge window now top ts s.2)
  | inr young ↦ rw young s
]

pub Sorted-snoc :
    (ts : List ℕ) (top now : ℕ) → top ≤ now → Sorted ts top → Sorted (ts ++ now ∷ []) now
Sorted-snoc [] top now h s = omega arith
Sorted-snoc (t ∷ ts) top now h s =
    (omega arith, All-snoc (λ u. t ≤ u) ts s.1 (omega arith), Sorted-snoc ts top now h s.2)

pub Sorted-later : (ts : List ℕ) (top now : ℕ) → top ≤ now → Sorted ts top → Sorted ts now
Sorted-later [] top now h s = tt
Sorted-later (t ∷ ts) top now h s = (omega arith, s.1, Sorted-later ts top now h s.2)
