-- ===== src/Breaker/Tests.antt =====
-- A breaker that admits two wakes, then trips (breaker.py).
use basecradle_router.Base.{ℕ, ◌≤◌, some, List, [], ◌∷◌, arith}
use basecradle_router.Breaker.{Config, agent_key}
use basecradle_router.Breaker.Recent.{recent}
use basecradle_router.Breaker.Rate.{Call, Ordered, admitted_log, limit, rate_bound}

abbrev config : Config
config = record { max_wakes = 2; window = 10; cooldown = 10; stream_max_wakes = 0 }

abbrev call : ℕ → Call
call now = record { agent = "nova"; stream = some "timeline"; now = now }

abbrev burst : List Call
burst = call 4 ∷ call 3 ∷ call 2 ∷ call 1 ∷ []

burst-Ordered : Ordered burst 5
burst-Ordered = (omega arith, (omega arith, (omega arith, (omega arith, tt))))

rate_bound_example :
    recent config.window 5 (admitted_log config (agent_key "nova") burst)
    ≤ limit config (agent_key "nova")
rate_bound_example = rate_bound config (agent_key "nova") burst 5 (omega arith) tt burst-Ordered
