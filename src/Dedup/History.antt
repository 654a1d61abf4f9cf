-- ===== src/Dedup/History.antt =====
-- The cache against the history of its calls (dedup.py).
use basecradle_router.Base.{
  ℕ, ◌+◌, ◌≤◌, ◌≡◌, refl, String, Bool, true, false, Option, none, some, List, [], ◌∷◌, get, put,
  ite, sym, zero, suc, inl, inr, Bool-cases, get-put, get-del, get-sweep, unless, leb,
  if◌then◌else◌, string_discrete, arith,
}
use basecradle_router.Dedup.{Deduper, init, seen, mark, collect}

pub data Call : Type 0 where
  seen_at : String → ℕ → Call
  mark_at : String → ℕ → Call

abbrev pub time : Call → ℕ
time (seen_at k t) = t
time (mark_at k t) = t

pub step : Deduper → Call → Deduper
step d (seen_at k t) = (seen k t d).1
step d (mark_at k t) = mark k t d

-- The cache after a history, which stands with its newest call first.
unfoldable pub run : ℕ → List Call → Deduper
unfolding step
run ttl [] = init ttl
run ttl (c ∷ older) = step (run ttl older) c

-- The clock never ran backwards, and stands at `now` or earlier.
abbrev pub Ordered : List Call → ℕ → Type 0
Ordered [] now = Unit
Ordered (c ∷ older) now = (time c ≤ now) × Ordered older (time c)

-- When a key was last marked.
abbrev pub last_mark : String → List Call → Option ℕ
last_mark k [] = none
last_mark k (seen_at j t ∷ older) = last_mark k older
last_mark k (mark_at j t ∷ older) = ite (string_discrete j k) (some t) (last_mark k older)

-- A mark younger than the lifetime.
abbrev pub is_recent : ℕ → ℕ → Option ℕ → Bool
is_recent ttl now none = false
is_recent ttl now (some marked) = if leb (marked + ttl) now then false else true

abbrev live : ℕ → ℕ → Option ℕ → Option ℕ
live ttl now = unless (λ marked. leb (marked + ttl) now)

live-live : (ttl t now : ℕ) (o : Option ℕ) → t ≤ now → live ttl now (live ttl t o) ≡ live ttl now o
live-live ttl t now none h = refl
live-live ttl t now (some m) h = ground arith

-- The map shows the same live marks as the history.
record Tracks (ttl now : ℕ) (h : List Call) (d : Deduper) : Type 0 where
  same_ttl : d.ttl ≡ ttl
  views : (k : String) → live ttl now (get string_discrete k d.woken) ≡ live ttl now (last_mark k h)

later :
    {ttl t now : ℕ} {h : List Call} {d : Deduper} → t ≤ now → Tracks ttl t h d → Tracks ttl now h d
later {ttl} {t} {now} {h} {d} le r = record {
  same_ttl = r.same_ttl;
  views = λ k. ground (
    arith,
    r.views k,
    live-live ttl t now (get string_discrete k d.woken) le,
    live-live ttl t now (last_mark k h) le,
  );
}

seen-Tracks :
    {ttl now : ℕ} {h : List Call} {d : Deduper} (j : String)
    → Tracks ttl now h d
    → Tracks ttl now (seen_at j now ∷ h) (seen j now d).1
unfolding seen
seen-Tracks {d} j r = record {
  same_ttl = ground (arith, r.same_ttl);
  views = λ k. ground (arith, r.same_ttl, r.views k, get-del string_discrete k j d.woken);
}

collect-Tracks :
    {ttl now : ℕ} {h : List Call} {d : Deduper}
    → Tracks ttl now h d
    → Tracks ttl now h (collect now d)
unfolding collect
collect-Tracks {ttl} {now} {h} {d} r = record {
  same_ttl = ground (arith, r.same_ttl);
  views = λ k. ground (
    arith,
    r.same_ttl,
    r.views k,
    get-sweep string_discrete k (λ marked. leb (marked + d.ttl) now) d.woken,
  );
}

note-Tracks :
    {ttl now : ℕ} {h : List Call} {d : Deduper} (j : String)
    → Tracks ttl now h d
    → Tracks ttl now (mark_at j now ∷ h) (record d {
      woken = put string_discrete j now d.woken;
      marks_since_gc = d.marks_since_gc + 1;
    })
note-Tracks {now = now} {d = d} j r = record {
  same_ttl = r.same_ttl;
  views = λ k. ground (arith, r.views k, get-put string_discrete k j now d.woken);
}

-- With no lifetime no mark is ever recent.
zero_not_recent :
    (h : List Call) (k : String) (now : ℕ) → Ordered h now → is_recent 0 now (last_mark k h) ≡ false
zero_not_recent [] k now o = refl
zero_not_recent (seen_at j t ∷ h) k now o =
    ground (arith, o.0, live-live 0 t now (last_mark k h), zero_not_recent h k t o.1)
zero_not_recent (mark_at j t ∷ h) k now o =
    ground (arith, o.0, live-live 0 t now (last_mark k h), zero_not_recent h k t o.1)

mark-Tracks :
    {ttl now : ℕ} {h : List Call} {d : Deduper} (j : String)
    → Ordered h now
    → Tracks ttl now h d
    → Tracks ttl now (mark_at j now ∷ h) (mark j now d)
unfolding mark
mark-Tracks {ttl} {now} {h} {d} j o r = elim (Bool-cases (leb d.ttl 0)) [
  | inl off ↦ rw off (record {
    same_ttl = r.same_ttl;
    views = λ k. ground (arith, r.same_ttl, r.views k, zero_not_recent h k now o);
  })
  | inr on ↦ rw on (collect-Tracks (note-Tracks j r))
]

run-Tracks : (ttl : ℕ) (h : List Call) (now : ℕ) → Ordered h now → Tracks ttl now h (run ttl h)
unfolding run get
run-Tracks ttl [] now o = record { same_ttl = refl; views = λ k. refl }
run-Tracks ttl (seen_at k t ∷ h) now o = later o.0 (seen-Tracks k (run-Tracks ttl h t o.1))
run-Tracks ttl (mark_at k t ∷ h) now o = later o.0 (mark-Tracks k o.1 (run-Tracks ttl h t o.1))

-- After any calls under a clock that never runs backwards, `seen` answers true exactly when the
-- key's last mark is younger than the lifetime: no lookup or collection loses or revives a mark.
pub seen-run :
    (ttl : ℕ) (h : List Call) (k : String) (now : ℕ)
    → Ordered h now
    → (seen k now (run ttl h)).0 ≡ is_recent ttl now (last_mark k h)
unfolding seen
seen-run zero h k now o = rw (run-Tracks zero h now o).same_ttl (sym (zero_not_recent h k now o))
seen-run (suc ttl) h k now o =
    ground (arith, (run-Tracks (suc ttl) h now o).views k, (run-Tracks (suc ttl) h now o).same_ttl)
