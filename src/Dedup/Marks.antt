-- ===== src/Dedup/Marks.antt =====
-- One mark, and two look-ups in a row (dedup.py).
use basecradle_router.Base.{
  ℕ, ◌+◌, ◌<◌, ◌≡◌, String, true, false, put, get-put, get-del, get-sweep, string_discrete, leb,
  arith,
}
use basecradle_router.Dedup.{Deduper, seen, mark, collect}

-- A key that was marked less than a lifetime ago is seen, and the look-up changes nothing.
pub seen-mark :
    (k : String) (t now : ℕ) (d : Deduper)
    → 0 < d.ttl
    → now < t + d.ttl
    → seen k now (mark k t d) ≡ (true, mark k t d)
unfolding seen mark collect
seen-mark k t now d positive soon = ground (
  arith,
  get-put string_discrete k k t d.woken,
  get-sweep string_discrete k (λ marked. leb (marked + d.ttl) t) (put string_discrete k t d.woken),
)

pub seen-ttl : (k : String) (t : ℕ) (d : Deduper) → (seen k t d).1.ttl ≡ d.ttl
unfolding seen
seen-ttl k t d = ground arith

-- A key that is not seen is not seen later, unless it is marked.
pub seen-twice :
    (k : String) (t now : ℕ) (d : Deduper)
    → (seen k t d).0 ≡ false
    → (seen k now (seen k t d).1).0 ≡ false
unfolding seen
seen-twice k t now d e = ground (arith, get-del string_discrete k k d.woken)
