-- ===== src/Coalesce/Soundness.antt =====
-- Where the coverage found for a delivery comes from (coalesce.py).
use mathlib.Core.List.{Memᴰ}
use basecradle_router.Base.{
  ℕ, ◌<◌, ◌≡◌, refl, sym, subst, String, Option, none, some, List, [], ◌∷◌, Dict, get, All,
  All-snoc, All-map, All-del, All-get, leb, ltb, length, arith, Option-cases, Bool-cases, inl, inr,
}
use basecradle_router.Models.{Event, stream_key}
use basecradle_router.Coalesce.{Coverage, Key, key_discrete, WakeCoverage, trim, init, covering}
use basecradle_router.Coalesce.Order.{
  later_of, Wake, key_of, coverage_of, after_record, after_record_unstamped, after_record_stamped,
  after_streams, after_all, record_all, record_all-after_all,
}

-- An entry of the record is the coverage of one of these wakes, under its key.
abbrev Justified : List Wake → Key × Coverage → Type 0
Justified rs e = (r : Wake) × Memᴰ r rs × (key_of r ≡ e.0) × (coverage_of r ≡ e.1)

Justified-cons :
    (r : Wake) (older : List Wake) (m : List (Key × Coverage))
    → All (Justified older) m
    → All (Justified (r ∷ older)) m
Justified-cons r older m =
    All-map (Justified older) (Justified (r ∷ older)) (λ e (q, mem, k, c). (q, Memᴰ.tail mem, k, c))
      m

All-trim :
    (P : Key × Coverage → Type 0) (n : ℕ) (m : Dict Key Coverage) → All P m → All P (trim n m)
unfolding trim
All-trim P n [] h = tt
All-trim P n (e ∷ m) h = elim (Bool-cases (ltb n (length (e ∷ m)))) [
  | inl over ↦ rw over (All-trim P n m h.1)
  | inr fits ↦ rw fits h
]

-- The later of the known coverage and the new one is one of the two.
later_of-Justified :
    (k : Key) (o : Option Coverage) (c : Coverage) (rs : List Wake)
    → ((d : Coverage) → o ≡ some d → Justified rs (k, d))
    → Justified rs (k, c)
    → Justified rs (k, later_of o c)
later_of-Justified k none c rs old new = new
later_of-Justified k (some d) c rs old new = elim (Bool-cases (leb d.started_at c.started_at)) [
  | inl later ↦ rw later new
  | inr earlier ↦ rw earlier (old d refl)
]

after_streams-Justified :
    (r : Wake) (older : List Wake) (n : ℕ) (m : Dict Key Coverage)
    → All (Justified older) m
    → All (Justified (r ∷ older)) (after_streams r n m)
unfolding after_streams
after_streams-Justified r older n m h =
    let known = Justified-cons r older m h in
    All-trim (Justified (r ∷ older)) n _ (
      All-snoc (Justified (r ∷ older)) _
        (All-del key_discrete (Justified (r ∷ older)) (key_of r) m known)
        (later_of-Justified (key_of r) (get key_discrete (key_of r) m) (coverage_of r) (r ∷ older)
          (λ d e. All-get key_discrete (Justified (r ∷ older)) (key_of r) m d known e)
          (r, Memᴰ.head refl, refl, refl)))

after_record-Justified :
    (r : Wake) (older : List Wake) (w : WakeCoverage)
    → All (Justified older) w.streams
    → All (Justified (r ∷ older)) (after_record r w).streams
after_record-Justified r older w h = elim (Option-cases r.event.occurred_at) [
  | inl unstamped ↦ rw (after_record_unstamped r w unstamped) (Justified-cons r older w.streams h)
  | inr (t, stamped) ↦
      rw (after_record_stamped r w stamped) (after_streams-Justified r older w.capacity w.streams h)
]

after_all-Justified :
    (rs : List Wake) (w : WakeCoverage)
    → w.streams ≡ []
    → All (Justified rs) (after_all rs w).streams
after_all-Justified [] w e = rw e tt
after_all-Justified (r ∷ older) w e =
    after_record-Justified r older (after_all older w) (after_all-Justified older w e)

covering-eq-some :
    (a : String) (e : Event) (w : WakeCoverage) (c : Coverage)
    → covering a e w ≡ some c
    → (get key_discrete (a, stream_key e) w.streams ≡ some c)
      × ((t : ℕ) × (e.occurred_at ≡ some t) × (t < c.started_at))
unfolding covering
covering-eq-some a e w c h = elim (Option-cases e.occurred_at) [
  | inl unstamped ↦ ground arith
  | inr (t, stamped) ↦ (ground arith, (t, stamped, ground arith))
]

-- Whatever wakes were recorded in a new record, a delivery is covered only by one of them: a wake
-- of the same agent on the same stream, whose start and delivery the coverage names, and which
-- started strictly after the delivery's event happened.
pub covering_sound :
    (capacity : ℕ) (rs : List Wake) (a : String) (e : Event) {w w' : WakeCoverage} {c : Coverage}
    → init capacity ≡ some w
    → record_all rs w ≡ some w'
    → covering a e w' ≡ some c
    → (r : Wake) × Memᴰ r rs
      × (key_of r ≡ (a, stream_key e))
      × (coverage_of r ≡ c)
      × ((t : ℕ) × (e.occurred_at ≡ some t) × (t < r.started_at))
unfolding init
covering_sound capacity rs a e {w} {w'} {c} new all found =
    let reached : after_all rs w ≡ w' = cc (record_all-after_all rs w) in
    let (kept, (t, stamped, earlier)) = covering-eq-some a e w' c found in
    let (r, member, key, coverage) =
      All-get key_discrete (Justified rs) (a, stream_key e) w'.streams c
        (rw reached at (after_all-Justified rs w (ground arith))) kept in
    (
      r,
      member,
      key,
      coverage,
      (t, stamped, subst (λ (x : Coverage). t < x.started_at) (sym coverage) earlier),
    )
