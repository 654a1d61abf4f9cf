-- ===== src/Coalesce/Tests.antt =====
-- A record of two streams, and a delivery that a wake covers (coalesce.py).
use mathlib.Core.List.{Memᴰ}
use mathlib.Core.Option
use basecradle_router.Base.{
  ℕ, ◌≤◌, ◌<◌, ◌≡◌, ◌≢◌, refl, none, some, String, [], ◌∷◌, ◌++◌, length, arith, get, put, del,
  string_discrete, pair_discrete,
}
use basecradle_router.Models.{EventKind, Event, stream_key}
use basecradle_router.Coalesce.{WakeCoverage, init, record_wake, covering, key_discrete}
use basecradle_router.Coalesce.Order.{Wake, key_of, coverage_of, record_all}
use basecradle_router.Coalesce.Soundness.{covering_sound}
use basecradle_router.Coalesce.Eviction.{covering-record_all}

abbrev event : String → ℕ → Event
event id occurred = record {
  source = "basecradle";
  kind = EventKind.platform_event;
  recipient = record { by = "recipient_uuid"; value = "nova" };
  wake_arg = "timeline";
  delivery_id = id;
  origin = none;
  occurred_at = some occurred;
  event_type = none;
}

abbrev wake : String → ℕ → Wake
wake id started = record { agent_key = "nova"; event = event id 3; started_at = started }

abbrev other : Wake
other = record { agent_key = "vega"; event = event "d9" 1; started_at = 4 }

abbrev empty : WakeCoverage
empty = record { capacity = 2; streams = [] }

abbrev covered : WakeCoverage
covered = record {
  capacity = 2;
  streams = (("nova", "timeline"), record { delivery = "d1"; started_at = 9 }) ∷ [];
}

covering_sound_example :
    (r : Wake) × Memᴰ r (wake "d1" 9 ∷ [])
    × (key_of r ≡ ("nova", stream_key (event "d2" 5)))
    × (coverage_of r ≡ record { delivery = "d1"; started_at = 9 })
    × ((t : ℕ) × ((event "d2" 5).occurred_at ≡ some t) × (t < r.started_at))
unfolding init record_all record_wake covering stream_key key_discrete get put del string_discrete
    pair_discrete Option.bind
covering_sound_example =
    covering_sound 2 (wake "d1" 9 ∷ []) "nova" (event "d2" 5) {w = empty} {w' = covered} refl refl
      refl

covering-record_all_example :
    (w : WakeCoverage) × (record_all ((other ∷ []) ++ wake "d1" 9 ∷ []) empty ≡ some w)
    × (covering "nova" (event "d2" 5) w ≢ none)
    × (length w.streams ≤ 2)
unfolding stream_key
covering-record_all_example =
    covering-record_all (wake "d1" 9) (other ∷ []) empty (event "d2" 5) (omega arith) (omega arith)
      refl refl refl (omega arith)
