-- ===== src/Coalesce/Eviction.antt =====
-- The bound of the coverage record, and how long a stream stays in it (coalesce.py).
use basecradle_router.Base.{
  ℕ, ◌+◌, ◌≤◌, ◌<◌, ◌≡◌, refl, String, Option, none, some, List, [], ◌∷◌, Dict, get, del, length,
  length-append, ite, if_neg, ◌≢◌, ◌∙◌, ap, ◌++◌, subst, Option-cases, inl, inr, arith,
}
use basecradle_router.Models.{Event, stream_key}
use basecradle_router.Coalesce.{Coverage, Key, key_discrete, WakeCoverage, trim, covering}
use basecradle_router.Coalesce.Order.{
  later_of, moved, get-moved, Wake, key_of, coverage_of, after_record, after_record_stamped,
  after_record_unstamped, after_streams, after_all, record_all, record_all-after_all,
}

length-trim-le : (n : ℕ) (m : Dict Key Coverage) → length (trim n m) ≤ n
unfolding trim
length-trim-le n [] = omega arith
length-trim-le n (e ∷ m) = ground (arith, length-trim-le n m)

-- How many entries stand behind a key, which are what must be evicted after it is next in turn.
behind : Key → Dict Key Coverage → Option ℕ
behind k [] = none
behind k ((j, c) ∷ m) = ite (key_discrete j k) (some (length m)) (behind k m)

-- A key that is in the record with at most `n` entries behind it, from a start of at least `s`.
record Stays (k : Key) (s n : ℕ) (m : Dict Key Coverage) : Type 0 where
  place : ℕ
  coverage : Coverage
  standing : behind k m ≡ some place
  found : get key_discrete k m ≡ some coverage
  near : place ≤ n
  fresh : s ≤ coverage.started_at

length-del-le : (k : Key) (m : Dict Key Coverage) → length (del key_discrete k m) ≤ length m
unfolding del
length-del-le k [] = omega arith
length-del-le k (e ∷ m) = ground (arith, length-del-le k m)

-- Another key's move to the end puts at most one more entry behind.
behind-moved_ne :
    (k j : Key) (c : Coverage) (m : Dict Key Coverage) (b : ℕ)
    → (j ≡ k → ⊥)
    → behind k m ≡ some b
    → (b' : ℕ) × (behind k (moved j c m) ≡ some b') × (b' ≤ b + 1)
unfolding behind del
behind-moved_ne k j c [] b h e = cc
behind-moved_ne k j c ((i, d) ∷ m) b h e = elim (key_discrete i k) [
  | yes p ↦ (
    length (del key_discrete j m) + 1,
    ground (arith, length-append {0} (del key_discrete j m) ((j, c) ∷ [])),
    ground (arith, length-del-le j m),
  )
  | no p ↦
      let (b', standing, near) =
        behind-moved_ne k j c m b h (rw (if_neg (key_discrete i k) p) at e) in
      (b', ground arith, near)
]

behind-moved_self :
    (k : Key) (c : Coverage) (m : Dict Key Coverage) → behind k (moved k c m) ≡ some 0
unfolding behind del
behind-moved_self k c [] = ground arith
behind-moved_self k c ((i, d) ∷ m) = ground (arith, behind-moved_self k c m)

-- A key with fewer entries behind it than the bound survives trimming, where it stands.
get-trim :
    (n : ℕ) (k : Key) (m : Dict Key Coverage) (b : ℕ)
    → behind k m ≡ some b
    → b < n
    → (get key_discrete k (trim n m) ≡ get key_discrete k m) × (behind k (trim n m) ≡ some b)
unfolding behind get trim
get-trim n k [] b e h = cc
get-trim n k ((i, d) ∷ m) b e h = elim (key_discrete i k) [
  | yes p ↦ (ground arith, ground arith)
  | no p ↦ ground (arith, get-trim n k m b)
]

module _ (r : Wake) (n : ℕ) (m : Dict Key Coverage) where
  abbrev c : Coverage
  c = later_of (get key_discrete (key_of r) m) (coverage_of r)

  -- The recorded stream itself stands last.
  Stays-self : (s : ℕ) → 0 < n → s ≤ c.started_at → Stays (key_of r) s 0 (after_streams r n m)
  unfolding after_streams
  Stays-self s h fresh =
      let last = behind-moved_self (key_of r) c m in
      let kept = get-trim n (key_of r) (moved (key_of r) c m) 0 last h in
      record {
        place = 0;
        coverage = c;
        standing = kept.1;
        found = ground (arith, kept.0, get-moved (key_of r) (key_of r) c m);
        near = omega arith;
        fresh = fresh;
      }

  -- Recording any wake keeps a stream that has room, one place nearer to eviction at most.
  Stays-record :
      (k : Key) (s b : ℕ) → b + 1 < n → Stays k s b m → Stays k s (b + 1) (after_streams r n m)
  unfolding after_streams
  Stays-record k s b h t = elim (key_discrete (key_of r) k) [
    | yes p ↦
        let known : get key_discrete (key_of r) m ≡ some t.coverage = rw p t.found in
        let self = Stays-self s (omega arith) (ground arith) in
        record {
          place = self.place;
          coverage = self.coverage;
          standing = rw (← p) self.standing;
          found = rw (← p) self.found;
          near = omega (arith, self.near);
          fresh = self.fresh;
        }
    | no p ↦
        let (b', standing, near) = behind-moved_ne k (key_of r) c m t.place p t.standing in
        let kept = get-trim n k (moved (key_of r) c m) b' standing (omega arith) in
        record {
          place = b';
          coverage = t.coverage;
          standing = kept.1;
          found = ground (arith, kept.0, get-moved (key_of r) k c m);
          near = omega arith;
          fresh = t.fresh;
        }
  ]

-- Histories keep the capacity.
capacity-after_all : (rs : List Wake) (w : WakeCoverage) → (after_all rs w).capacity ≡ w.capacity
unfolding after_record
capacity-after_all [] w = refl
capacity-after_all (r ∷ older) w = ground (arith, capacity-after_all older w)

Stays-after_record :
    (r : Wake) (w : WakeCoverage) (k : Key) (s b : ℕ)
    → b + 1 < w.capacity
    → Stays k s b w.streams
    → Stays k s (b + 1) (after_record r w).streams
Stays-after_record r w k s b h t = elim (Option-cases r.event.occurred_at) [
  | inl unstamped ↦ rw (after_record_unstamped r w unstamped) (record {
    place = t.place;
    coverage = t.coverage;
    standing = t.standing;
    found = t.found;
    near = omega (arith, t.near);
    fresh = t.fresh;
  })
  | inr (o, stamped) ↦
      rw (after_record_stamped r w stamped) (Stays-record r w.capacity w.streams k s b h t)
]

Stays-after_all :
    (newer : List Wake) (w : WakeCoverage) (k : Key) (s : ℕ)
    → length newer < w.capacity
    → Stays k s 0 w.streams
    → Stays k s (length newer) (after_all newer w).streams
Stays-after_all [] w k s h t = t
Stays-after_all (r ∷ newer) w k s h t =
    subst (λ b. Stays k s b (after_record r (after_all newer w)).streams) (omega arith)
      (Stays-after_record r (after_all newer w) k s (length newer)
        (omega (arith, capacity-after_all newer w)) (Stays-after_all newer w k s (omega arith) t))

later_of-le : (o : Option Coverage) (c : Coverage) → c.started_at ≤ (later_of o c).started_at
later_of-le o c = ground arith

after_all-append :
    (newer : List Wake) (r : Wake) (w : WakeCoverage)
    → after_all (newer ++ r ∷ []) w ≡ after_all newer (after_record r w)
after_all-append [] r w = refl
after_all-append (q ∷ newer) r w = ap (after_record q) (after_all-append newer r w)

after_record_bounded :
    (r : Wake) (w : WakeCoverage)
    → length w.streams ≤ w.capacity
    → length (after_record r w).streams ≤ w.capacity
unfolding after_record after_streams
after_record_bounded r w h = ground (
  arith,
  length-trim-le w.capacity (
      moved (key_of r) (later_of (get key_discrete (key_of r) w.streams) (coverage_of r))
        w.streams),
)

after_all_bounded :
    (rs : List Wake) (w : WakeCoverage)
    → length w.streams ≤ w.capacity
    → length (after_all rs w).streams ≤ w.capacity
after_all_bounded [] w h = h
after_all_bounded (r ∷ older) w h = omega (
  arith,
  capacity-after_all older w,
  after_record_bounded r (after_all older w)
      (omega (arith, capacity-after_all older w, after_all_bounded older w h)),
)

Stays-covering :
    (a : String) (e : Event) (w : WakeCoverage) {s n o : ℕ}
    → Stays (a, stream_key e) s n w.streams
    → e.occurred_at ≡ some o
    → o < s
    → covering a e w ≢ none
unfolding covering
Stays-covering a e w t happened before = ground arith

-- After a wake for a stamped event is recorded, and then fewer wakes than the capacity, every
-- event of that agent's stream that happened before that wake started is covered. The whole
-- history is recorded without a `KeyError`, and the record holds at most its capacity.
pub covering-record_all :
    (r : Wake) (newer : List Wake) (w : WakeCoverage) (e : Event) {t o : ℕ}
    → length w.streams ≤ w.capacity
    → length newer < w.capacity
    → r.event.occurred_at ≡ some t
    → stream_key e ≡ stream_key r.event
    → e.occurred_at ≡ some o
    → o < r.started_at
    → (w' : WakeCoverage) × (record_all (newer ++ r ∷ []) w ≡ some w')
      × (covering r.agent_key e w' ≢ none)
      × (length w'.streams ≤ w.capacity)
covering-record_all r newer w e bounded few stamped same happened before =
    let k : Key = key_of r in
    let first : Stays k r.started_at 0 (after_record r w).streams =
      rw (after_record_stamped r w stamped) (
        Stays-self r w.capacity w.streams r.started_at (omega arith)
          (later_of-le (get key_discrete k w.streams) (coverage_of r))) in
    let few' : length newer < (after_record r w).capacity =
      omega (arith, capacity-after_all (r ∷ []) w) in
    let last = Stays-after_all newer (after_record r w) k r.started_at few' first in
    (
      after_all newer (after_record r w),
      record_all-after_all (newer ++ r ∷ []) w ∙ ap some (after_all-append newer r w),
      Stays-covering r.agent_key e _ {n = length newer} (rw same last) happened before,
      omega (
        arith,
        capacity-after_all (r ∷ []) w,
        after_all_bounded newer (after_record r w)
            (omega (arith, capacity-after_all (r ∷ []) w, after_record_bounded r w bounded)),
      ),
    )
