-- ===== src/Pipeline/Tests.antt =====
-- A wake that succeeds on its second attempt, and one that the wake lock refuses (pipeline.py).
use basecradle_router.Base.{
  String, ◌↔◌, ℕ, ◌+◌, ◌≡◌, refl, Bool, true, false, none, some, [], ◌∷◌, ◌++◌, if◌then◌else◌, ltb,
  arith, get, put, del, string_discrete, pair_discrete,
}
use basecradle_router.Base.Result.{ok}
use basecradle_router.Models.{
  Agent, Event, WakeKind, EventKind, harness_key, synthetic, dedup_key, stream_key,
}
use basecradle_router.Dedup
use basecradle_router.Dedup.{seen, mark}
use basecradle_router.Coalesce.{record_wake, covering, key_discrete}
use basecradle_router.Breaker
use basecradle_router.Breaker.{admit}
use basecradle_router.Concurrency.{with_retry}
use basecradle_router.Pipeline.{
  lock, dedup, wake, wake_lock, ok_outcome, ignored, wake_deduped, wake_error, woke, Environment,
  World, execute,
}
use basecradle_router.Pipeline.Fate.{Fate, looked_up, execute-Fate}
use basecradle_router.Pipeline.Accept.{
  Routes, verified, signature_error, normalized, resolved, accept, handle,
}
use basecradle_router.Pipeline.Admission.{Admitted, Untouched, pending_iff, handle-Untouched}
use basecradle_router.Pipeline.Duplicates.{duplicate_collapses, failure_stays_open}

abbrev agent : Agent
agent = record {
  key = "nova";
  os_user = "nova";
  clone_path = "/home";
  wake_kind = WakeKind.claude;
  bot_slug = some "bot";
  recipient_uuid = none;
  wake_bin = none;
}

abbrev event : Event
event = record {
  source = "github";
  kind = EventKind.handoff;
  recipient = record { by = "bot_slug"; value = "bot" };
  wake_arg = "arg";
  delivery_id = "d1";
  origin = none;
  occurred_at = some 3;
  event_type = none;
}

-- The environment is its clock; the agent is busy before the tick 10.
abbrev environment : Bool → Environment ℕ
environment free = record {
  wake = λ a e t. (if ltb t 10 then wake_error "busy" else woke 0, t + 1);
  recheck = λ e t. (ok none, t);
  should_wake = λ slug t. ok free;
  now = λ t. t;
  monotonic = λ t. t;
  sleep = λ d t. t + d;
}

abbrev world : World ℕ
world = record {
  env = 9;
  deduper = Dedup.init 600;
  coverage = record { capacity = 2; streams = [] };
  rate =
      Breaker.init (record { max_wakes = 20; window = 60; cooldown = 60; stream_max_wakes = 15 });
  evidence = [];
  records = [];
  lines = [];
}

execute-Fate_example :
    Fate
      (environment true)
      agent
      event
      (looked_up (environment true) 3 agent event world)
      (execute (environment true) 3 agent event world)
execute-Fate_example = execute-Fate (environment true) 3 agent event world (omega arith)

abbrev woken : World ℕ
woken = execute (environment true) 3 agent event world

duplicate_collapses_example :
    execute (environment true) 3 agent event (record woken { env = 700 }) ≡ record woken {
      env = 700;
      records =
          woken.records
          ++ record { stage = lock; outcome = ok_outcome }
            ∷ record { stage = dedup; outcome = ignored }
            ∷ [];
      evidence =
          woken.evidence ++ wake_deduped (harness_key agent) event.source (synthetic event) ∷ [];
    }
unfolding execute synthetic dedup_key stream_key seen mark record_wake covering key_discrete
    Breaker.key_discrete admit with_retry get put del string_discrete pair_discrete
duplicate_collapses_example =
    duplicate_collapses (environment true) 3 agent agent event event world
      (record { stage = wake; outcome = ok_outcome }) 700 (omega arith) (omega arith) refl refl refl
      (omega arith)

failure_stays_open_example :
    ((seen (dedup_key event) 12 (execute (environment false) 3 agent event world).deduper).0
      ≡ false)
    × ((execute (environment false) 3 agent event world).coverage ≡ world.coverage)
unfolding execute synthetic dedup_key stream_key seen covering key_discrete get string_discrete
    pair_discrete
failure_stays_open_example =
    failure_stays_open (environment false) 3 agent event event world
      (record { stage = wake_lock; outcome = ignored }) 12 (omega arith) refl refl refl refl

-- The router knows one source; a request is the text of its signature.
abbrev routes : Routes String
routes = record {
  is_known = λ source. true;
  verify_request = λ source request. elim (string_discrete request "good") [
    | yes _ ↦ verified
    | no _ ↦ signature_error "bad"
  ];
  normalize_request = λ source request. normalized event;
  resolve_agent = λ e. resolved agent;
}

pending_iff_example :
    ((accept routes "github" "good" world).1 ≡ some (agent, event))
    ↔ Admitted routes "github" "good" agent event
pending_iff_example = pending_iff routes "github" "good" world agent event

forged : (a : Agent) (e : Event) → Admitted routes "github" "forged" a e → ⊥
unfolding string_discrete
forged a e h = let wrong = h.verified_request in cc

handle-Untouched_example :
    Untouched world (handle routes "github" "forged" (environment true) 3 world).world
handle-Untouched_example =
    handle-Untouched routes "github" "forged" world (environment true) 3 forged
