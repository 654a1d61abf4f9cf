-- ===== src/Dedup/Tests.antt =====
-- A cache that is marked, read in time and read too late (dedup.py).
use basecradle_router.Base.{◌≡◌, List, [], ◌∷◌, arith}
use basecradle_router.Dedup.{seen}
use basecradle_router.Dedup.History.{
  Call, seen_at, mark_at, run, Ordered, last_mark, is_recent, seen-run,
}

abbrev calls : List Call
calls = seen_at "b" 12 ∷ mark_at "a" 7 ∷ seen_at "a" 6 ∷ mark_at "a" 3 ∷ []

calls-Ordered : Ordered calls 14
calls-Ordered = (omega arith, (omega arith, (omega arith, (omega arith, tt))))

seen-run_example : (seen "a" 14 (run 10 calls)).0 ≡ is_recent 10 14 (last_mark "a" calls)
seen-run_example = seen-run 10 calls "a" 14 calls-Ordered
