-- ===== src/Pipeline.antt =====
-- pipeline.py: the slow half, `execute`, through its gates to the wake. The waker, the route's
-- recheck, the wake lock, the clocks and the sleep are an environment, an argument. Rendered log
-- text and durations are not modelled. One `execute` runs at a time: the gates' own state is not
-- changed by another agent in between.
mod Retry
pub mod Due
pub mod Fate
pub mod Accept
pub mod Admission
pub mod Duplicates
mod Tests
use basecradle_router.Base.{
  ℕ, String, Bool, true, false, Option, none, some, List, [], ◌∷◌, ◌++◌, if◌then◌else◌,
}
use basecradle_router.Base.Result.{Result, ok, err}
use basecradle_router.Models.{Agent, Event, harness_key, synthetic, dedup_key, stream_key}
use basecradle_router.Dedup.{Deduper, seen, mark}
use basecradle_router.Coalesce.{Coverage, WakeCoverage, record_wake, covering}
use basecradle_router.Breaker.{Breaker, BreakerOutcome, BreakerState, admit, is_admitted}
use basecradle_router.Concurrency.{
  Attempt, succeeded, transient_error, other_error, Ending, returned, raised, retry_exhausted,
  value_error, assertion_error, with_retry,
}

pub data Stage : Type 0 where
  route verify normalize resolve lock dedup coalesce recheck wake_lock breaker wake : Stage

pub data Outcome : Type 0 where
  ok_outcome ignored rejected failed stopped : Outcome

-- A record without its rendered detail.
pub record StageRecord : Type 0 where
  pub stage : Stage
  pub outcome : Outcome

-- The calls of the evidence store that the pipeline makes.
pub data Evidence : Type 0 where
  wake_ok : String → String → String → Bool → Evidence
  wake_failed : String → String → String → Bool → Evidence
  wake_refused : String → String → Bool → Evidence
  wake_deduped : String → String → Bool → Evidence
  delivery_rejected : String → String → Evidence
  delivery_accepted : String → Evidence
  delivery_decision : String → Bool → Evidence

-- The lines that bracket a wake and tell of its retries.
pub data Line : Type 0 where
  wake_start : Line
  wake_end : Outcome → Line
  wake_retry : ℕ → ℕ → Line
  wake_stopped_line : Line

-- What the waker does: it returns an exit code, or raises `WakeError`, `WakeStopped` or another error.
pub data WakeReply : Type 0 where
  woke : ℕ → WakeReply
  wake_error : String → WakeReply
  wake_stopped : String → ℕ → WakeReply
  wake_raised : String → WakeReply

pub record Environment (E : Type 0) : Type 0 where
  pub wake : Agent → Event → E → WakeReply × E
  pub recheck : Event → E → Result String (Option String) × E
  pub should_wake : String → E → Result String Bool
  pub now : E → ℕ
  pub monotonic : E → ℕ
  pub sleep : ℕ → E → E

-- The state of the pipeline and of its collaborators, with the records of the result.
pub record World (E : Type 0) : Type 0 where
  pub env : E
  pub deduper : Deduper
  pub coverage : WakeCoverage
  pub rate : Breaker
  pub evidence : List Evidence
  pub records : List StageRecord
  pub lines : List Line

-- How a part of `execute` ends: it returns, or raises.
pub data Flow (E : Type 0) : Type 0 where
  done : Bool → World E → Flow E
  raise : String → World E → Flow E

-- The errors that are neither a value nor transient: a stop by a signal, and any other.
pub data Fault : Type 0 where
  stop : Fault
  unexpected : String → Fault

-- The default `base_delay` of the retry, in milliseconds.
abbrev pub base_delay : ℕ
base_delay = 500

abbrev pub reply_of : WakeReply → Attempt ℕ Fault
reply_of (woke exit) = succeeded exit
reply_of (wake_error e) = transient_error e
reply_of (wake_stopped signal exit) = other_error stop
reply_of (wake_raised e) = other_error (unexpected e)

module _ {E : Type 0} where
  -- `_record`
  unfoldable pub note : Stage → Outcome → World E → World E
  note stage outcome w = record w {
    records = w.records ++ record { stage = stage; outcome = outcome } ∷ [];
  }

  unfoldable pub log : Line → World E → World E
  log line w = record w { lines = w.lines ++ line ∷ [] }

  -- `_bookend`: nothing for a synthetic event.
  unfoldable pub bookend : Event → Line → World E → World E
  unfolding log
  bookend e line w = if synthetic e then w else log line w

  unfoldable pub prove : Evidence → World E → World E
  prove entry w = record w { evidence = w.evidence ++ entry ∷ [] }

  abbrev pub covered_by : World E → Option WakeCoverage → Option (World E)
  covered_by w none = none
  covered_by w (some c) = some (record w { coverage = c })

  -- The coverage of a wake whose attempt started; `none` is a `KeyError`.
  unfoldable pub cover : Agent → Event → Option ℕ → World E → Option (World E)
  cover a e none w = some w
  cover a e (some started) w = covered_by w (record_wake (harness_key a) e started w.coverage)

  -- The end of a wake that is done, once its stream is covered.
  unfoldable pub conclude : Event → Outcome → World E → Option (World E) → Flow E
  unfolding note bookend
  conclude e how w none = raise "KeyError" (bookend e (wake_end failed) w)
  conclude e how w (some w') = done true (bookend e (wake_end how) (note wake how w'))

  -- What `_wake` does with the ending of the retry.
  unfoldable pub after_retry : Agent → Event → Ending ℕ Fault → Option ℕ → World E → Flow E
  unfolding note log bookend prove cover conclude
  after_retry a e (returned exit) started w =
      let w' = prove (wake_ok (harness_key a) e.delivery_id e.source (synthetic e)) w in
      conclude e ok_outcome w' (cover a e started w')
  after_retry a e (raised stop) started w =
      let w' = log wake_stopped_line w in conclude e stopped w' (cover a e started w')
  after_retry a e (raised (unexpected t)) started w = raise t (bookend e (wake_end failed) w)
  after_retry a e (retry_exhausted n t) started w = done false (
      bookend e (wake_end failed)
        (note wake failed (prove (wake_failed (harness_key a) t e.source (synthetic e)) w)))
  after_retry a e value_error started w = raise "ValueError" (bookend e (wake_end failed) w)
  after_retry a e assertion_error started w = raise "AssertionError" (bookend e (wake_end failed) w)

  unfoldable pub on_retry : ℕ → ℕ → String → World E × Option ℕ → World E × Option ℕ
  unfolding log
  on_retry n of error (w, started) = (log (wake_retry n of) w, started)

  -- The last-resort `except` of `execute`.
  unfoldable pub caught : Flow E → World E
  unfolding note
  caught (done _ w) = w
  caught (raise t w) = note wake failed w

module _ {E : Type 0} (env : Environment E) (wake_attempts : ℕ) where
  -- `attempt`, with the start of the last one beside the world.
  unfoldable pub attempt :
      Agent → Event → World E × Option ℕ → Attempt ℕ Fault × (World E × Option ℕ)
  attempt a e (w, _) =
      let (reply, x) = env.wake a e w.env in
      (reply_of reply, (record w { env = x }, some (env.now w.env)))

  unfoldable pub pause : ℕ → World E × Option ℕ → World E × Option ℕ
  pause delay (w, started) = (record w { env = env.sleep delay w.env }, started)

  -- A probe gets one attempt.
  unfoldable pub attempts_for : Event → ℕ
  attempts_for e = if synthetic e then 1 else wake_attempts

  -- `_wake`
  unfoldable pub run_wake : Agent → Event → World E → Flow E
  unfolding attempt pause on_retry attempts_for bookend after_retry
  run_wake a e w =
      let (ending, (w', started)) =
        with_retry (attempt a e) pause on_retry (attempts_for e) base_delay
          (bookend e wake_start w, none) in
      after_retry a e ending started w'

  -- The delivery is marked only if its wake is done.
  unfoldable pub mark_done : Event → Flow E → Flow E
  mark_done e (raise t w) = raise t w
  mark_done e (done false w) = done false w
  mark_done e (done true w) =
      done true (record w { deduper = mark (dedup_key e) (env.monotonic w.env) w.deduper })

  unfoldable pub breaker_gate : Agent → Event → World E → Flow E
  unfolding note prove mark_done run_wake
  breaker_gate a e w =
      let (outcome, b) = admit (harness_key a) (some (stream_key e)) (env.monotonic w.env) w.rate in
      let w' : World E = record w { rate = b } in
      if is_admitted outcome.state
      then mark_done e (run_wake a e w')
      else done false
          (note breaker ignored (prove (wake_refused (harness_key a) e.source (synthetic e)) w'))

  unfoldable pub after_guard : Agent → Event → World E → Result String Bool → Flow E
  unfolding note prove breaker_gate
  after_guard a e w (err t) = raise t w
  after_guard a e w (ok true) = breaker_gate a e w
  after_guard a e w (ok false) =
      done false
        (note wake_lock ignored (prove (wake_refused (harness_key a) e.source (synthetic e)) w))

  -- The guard is asked, and answers or raises.
  unfoldable pub wake_lock_gate : Agent → Event → World E → Flow E
  unfolding after_guard
  wake_lock_gate a e w = after_guard a e w (env.should_wake (harness_key a) w.env)

  unfoldable pub after_recheck : Agent → Event → World E → Result String (Option String) → Flow E
  unfolding note wake_lock_gate
  after_recheck a e w (err t) = raise t w
  after_recheck a e w (ok (some gone)) = done false (note recheck ignored w)
  after_recheck a e w (ok none) = wake_lock_gate a e w

  unfoldable pub recheck_gate : Agent → Event → World E → Flow E
  unfolding after_recheck
  recheck_gate a e w =
      let (answer, x) = env.recheck e w.env in after_recheck a e (record w { env = x }) answer

  unfoldable pub after_covering : Agent → Event → World E → Option Coverage → Flow E
  unfolding note prove recheck_gate
  after_covering a e w none = recheck_gate a e w
  after_covering a e w (some c) =
      done false
        (note coalesce ignored (prove (wake_deduped (harness_key a) e.source (synthetic e)) w))

  unfoldable pub coalesce_gate : Agent → Event → World E → Flow E
  unfolding after_covering
  coalesce_gate a e w = after_covering a e w (covering (harness_key a) e w.coverage)

  unfoldable pub dedup_gate : Agent → Event → World E → Flow E
  unfolding note prove coalesce_gate
  dedup_gate a e w =
      let (duplicate, d) = seen (dedup_key e) (env.monotonic w.env) w.deduper in
      let w' : World E = record w { deduper = d } in
      if duplicate
      then done false
          (note dedup ignored (prove (wake_deduped (harness_key a) e.source (synthetic e)) w'))
      else coalesce_gate a e w'

  unfoldable pub execute : Agent → Event → World E → World E
  unfolding note dedup_gate caught
  execute a e w = caught (dedup_gate a e (note lock ok_outcome w))
