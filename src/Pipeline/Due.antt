-- ===== src/Pipeline/Due.antt =====
-- The evidence that goes with the last record of a trip through the gates (pipeline.py).
use basecradle_router.Base.{ℕ, ◌≡◌, subst, String, false, some, List, [], ◌∷◌}
use basecradle_router.Base.Result.{ok, err}
use basecradle_router.Models.{Agent, Event, harness_key, synthetic}
use basecradle_router.Pipeline.{
  Stage, dedup, coalesce, recheck, wake_lock, breaker, wake, Outcome, ok_outcome, ignored, failed,
  stopped, StageRecord, Evidence, woke, wake_error, wake_stopped, wake_raised, wake_ok, wake_failed,
  wake_refused, wake_deduped, Environment,
}

abbrev pub record_of : Stage → Outcome → StageRecord
record_of stage outcome = record { stage = stage; outcome = outcome }

-- The last record and the evidence that goes with it, for the ways a trip may end: what the guard,
-- the recheck or the waker answered, with the environment `x` that the trip ends in.
pub data Due {E : Type 0} (env : Environment E) (a : Agent) (e : Event) (x : E)
    : StageRecord → List Evidence → Type 0 where
  by_dedup :
      Due env a e x
        (record_of dedup ignored)
        (wake_deduped (harness_key a) e.source (synthetic e) ∷ [])
  by_coalesce :
      Due env a e x
        (record_of coalesce ignored)
        (wake_deduped (harness_key a) e.source (synthetic e) ∷ [])
  by_recheck :
      {y : E} {gone : String}
      → env.recheck e y ≡ (ok (some gone), x)
      → Due env a e x (record_of recheck ignored) []
  by_recheck_error :
      {y : E} {t : String} → env.recheck e y ≡ (err t, x) → Due env a e x (record_of wake failed) []
  by_wake_lock :
      env.should_wake (harness_key a) x ≡ ok false
      → Due env a e x
          (record_of wake_lock ignored)
          (wake_refused (harness_key a) e.source (synthetic e) ∷ [])
  by_guard_error :
      {t : String}
      → env.should_wake (harness_key a) x ≡ err t
      → Due env a e x (record_of wake failed) []
  by_breaker :
      Due env a e x
        (record_of breaker ignored)
        (wake_refused (harness_key a) e.source (synthetic e) ∷ [])
  by_success :
      {y : E} {exit : ℕ}
      → env.wake a e y ≡ (woke exit, x)
      → Due env a e x
          (record_of wake ok_outcome)
          (wake_ok (harness_key a) e.delivery_id e.source (synthetic e) ∷ [])
  by_stop :
      {y : E} {signal : String} {exit : ℕ}
      → env.wake a e y ≡ (wake_stopped signal exit, x)
      → Due env a e x (record_of wake stopped) []
  by_last_error :
      {y : E} {t : String}
      → env.wake a e y ≡ (wake_error t, x)
      → Due env a e x
          (record_of wake failed)
          (wake_failed (harness_key a) t e.source (synthetic e) ∷ [])
  by_other_error :
      {y : E} {t : String}
      → env.wake a e y ≡ (wake_raised t, x)
      → Due env a e x (record_of wake failed) []

-- The same holds of an environment that is equal.
pub Due-at :
    {E : Type 0} {env : Environment E} {a : Agent} {e : Event} {x y : E} {r : StageRecord}
    {told : List Evidence}
    → x ≡ y
    → Due env a e x r told
    → Due env a e y r told
Due-at {env = env} {a = a} {e = e} {r = r} {told = told} p due =
    subst (λ z. Due env a e z r told) p due
