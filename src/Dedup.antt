-- ===== src/Dedup.antt =====
-- dedup.py: the recently-woke delivery cache. Times are ticks of the monotonic clock, passed to
-- each call; the lock is not modelled, since every method runs whole under it.
pub mod History
pub mod Marks
mod Tests
use basecradle_router.Base.{
  ℕ, suc, ◌+◌, String, Bool, true, false, Option, none, some, [], Dict, get, put, del, sweep, leb,
  if◌then◌else◌, string_discrete,
}

-- `_GC_INTERVAL`
abbrev pub gc_interval : ℕ
gc_interval = 1024

pub record Deduper : Type 0 where
  pub ttl : ℕ
  pub woken : Dict String ℕ
  pub marks_since_gc : ℕ

abbrev pub init : ℕ → Deduper
init ttl = record { ttl = ttl; woken = []; marks_since_gc = 0 }

check_entry : Deduper → String → ℕ → Option ℕ → Bool × Deduper
check_entry d key now none = (false, d)
check_entry d key now (some marked) =
    if leb (marked + d.ttl) now
    then (false, record d { woken = del string_discrete key d.woken })
    else (true, d)

unfoldable pub seen : String → ℕ → Deduper → Bool × Deduper
unfolding check_entry
seen key now d =
    if leb d.ttl 0 then (false, d) else check_entry d key now (get string_discrete key d.woken)

gc : ℕ → Deduper → Deduper
gc now d = record d { woken = sweep string_discrete (λ marked. leb (marked + d.ttl) now) d.woken }

collect : ℕ → Deduper → Deduper
unfolding gc
collect now d =
    if leb gc_interval d.marks_since_gc then record (gc now d) { marks_since_gc = 0 } else d

unfoldable pub mark : String → ℕ → Deduper → Deduper
unfolding collect
mark key now d =
    if leb d.ttl 0
    then d
    else collect now (record d {
      woken = put string_discrete key now d.woken;
      marks_since_gc = d.marks_since_gc + 1;
    })
