-- ===== src/Pipeline/Fate.antt =====
-- What one trip through the gates leaves in each collaborator, whichever way it ends (pipeline.py).
use basecradle_router.Base.{
  ℕ, ◌≤◌, ◌≡◌, refl, sym, String, Bool, true, false, Option, none, some, List, [], ◌∷◌, ◌++◌,
  Bool-cases, inl, inr, arith,
}
use mathlib.Core.List.{append-nil}
use basecradle_router.Base.Result.{Result, ok, err}
use basecradle_router.Models.{Agent, Event, harness_key, synthetic, dedup_key, stream_key}
use basecradle_router.Dedup.{seen, mark}
use basecradle_router.Coalesce.{Coverage, WakeCoverage, covering}
use basecradle_router.Coalesce.Order.{Wake, after_record, record_wake-after_record}
use basecradle_router.Breaker.{admit, is_admitted}
use basecradle_router.Concurrency.{Ending}
use basecradle_router.Pipeline.Retry.{
  SameGates, then_same, bookend-SameGates, Settled, settles_returned, settles_raised,
  settles_exhausted, with_retry-Settled,
}
use basecradle_router.Pipeline.Due.{
  record_of, Due, Due-at, by_dedup, by_coalesce, by_recheck, by_recheck_error, by_wake_lock,
  by_guard_error, by_breaker, by_success, by_stop, by_last_error, by_other_error,
}
use basecradle_router.Pipeline.{
  Stage, lock, dedup, coalesce, recheck, wake_lock, breaker, wake, Outcome, ok_outcome, ignored,
  failed, stopped, StageRecord, Evidence, wake_ok, wake_failed, wake_refused, wake_deduped,
  wake_start, Environment, World, Fault, stop, unexpected, note, log, bookend, prove, cover,
  conclude, after_retry, attempts_for, run_wake, mark_done, breaker_gate, after_guard,
  wake_lock_gate, after_recheck, recheck_gate, after_covering, coalesce_gate, dedup_gate, caught,
  execute,
}

-- A wake that is done: it succeeded, or it was stopped.
abbrev pub is_done : StageRecord → Bool
is_done r = elim r.stage [
  | wake ↦ elim r.outcome [ ok_outcome ↦ true | stopped ↦ true | _ ↦ false ]
  | _ ↦ false
]

-- The gates before the breaker.
abbrev pub is_early : Stage → Bool
is_early dedup = true
is_early coalesce = true
is_early recheck = true
is_early wake_lock = true
is_early _ = false

-- What a part of `execute` leaves, seen from the world before it: one more record, its evidence,
-- a mark and coverage only if the wake is done, and the breaker untouched before its own gate.
pub record Fate {E : Type 0} (env : Environment E) (a : Agent) (e : Event) (w w' : World E)
    : Type 0 where
  pub last : StageRecord
  pub told : List Evidence
  pub records : w'.records ≡ w.records ++ last ∷ []
  pub evidence : w'.evidence ≡ w.evidence ++ told
  pub due : Due env a e w'.env last told
  pub kept : is_done last ≡ false → (w'.deduper ≡ w.deduper) × (w'.coverage ≡ w.coverage)
  pub marked :
      is_done last ≡ true → w'.deduper ≡ mark (dedup_key e) (env.monotonic w'.env) w.deduper
  pub spared : is_early last.stage ≡ true → w'.rate ≡ w.rate

module _ {E : Type 0} (env : Environment E) (wake_attempts : ℕ) (a : Agent) (e : Event) where
  -- Recording the coverage of a wake never raises.
  cover-some :
      (started : Option ℕ) (w : World E)
      → (c : WakeCoverage) × (cover a e started w ≡ some (record w { coverage = c }))
  unfolding cover
  cover-some none w = (w.coverage, refl)
  cover-some (some t) w =
      let r : Wake = record { agent_key = harness_key a; event = e; started_at = t } in
      (after_record r w.coverage, rw (record_wake-after_record r w.coverage) refl)

  conclude-Fate :
      (outcome : Outcome) (w v : World E) (started : Option ℕ) (told : List Evidence)
      → v.records ≡ w.records
      → v.evidence ≡ w.evidence ++ told
      → v.deduper ≡ w.deduper
      → is_done (record_of wake outcome) ≡ true
      → Due env a e v.env (record_of wake outcome) told
      → Fate env a e w
          (caught (mark_done env wake_attempts e (conclude e outcome v (cover a e started v))))
  unfolding conclude mark_done caught note bookend log
  conclude-Fate outcome w v started told records evidence deduper finished due =
      let (c, covered) = cover-some started v in
      rw covered (record {
        last = record_of wake outcome;
        told = told;
        records = ground (arith, records);
        evidence = ground (arith, evidence);
        due = Due-at (ground arith) due;
        kept = λ not_done. absurd (cc);
        marked = λ _. ground (arith, deduper);
        spared = λ early. absurd (cc);
      })

  -- A wake that is not done leaves a record and what it told, and nothing else.
  undone-Fate :
      (w v : World E) (last : StageRecord) (told : List Evidence)
      → v.records ≡ w.records ++ last ∷ []
      → v.evidence ≡ w.evidence ++ told
      → Due env a e v.env last told
      → is_done last ≡ false
      → v.deduper ≡ w.deduper
      → v.coverage ≡ w.coverage
      → (is_early last.stage ≡ true → v.rate ≡ w.rate)
      → Fate env a e w v
  undone-Fate w v last told records evidence due undone deduper coverage rate = record {
    last = last;
    told = told;
    records = records;
    evidence = evidence;
    due = due;
    kept = λ _. (deduper, coverage);
    marked = λ finished. absurd (cc);
    spared = rate;
  }

  -- What `_wake` leaves when the retry has ended, before the delivery is marked.
  after_retry-Fate :
      (w : World E) (r : Ending ℕ Fault × (World E × Option ℕ))
      → Settled env wake_attempts a e w r
      → Fate env a e w (caught (mark_done env wake_attempts e (after_retry a e r.0 r.1.1 r.1.0)))
  unfolding after_retry mark_done caught note prove log bookend
  after_retry-Fate w r (settles_returned h (x, reply)) =
      conclude-Fate ok_outcome w _ _
        (wake_ok (harness_key a) e.delivery_id e.source (synthetic e) ∷ []) h.records
        (ground (arith, h.evidence)) h.deduper refl (by_success reply)
  after_retry-Fate w r (settles_raised {x = stop} h (signal, exit, (x, reply))) =
      conclude-Fate stopped w _ _ [] (ground (arith, h.records))
        (ground (arith, h.evidence, append-nil w.evidence)) (ground (arith, h.deduper)) refl
        (by_stop reply)
  after_retry-Fate w r (settles_raised {x = unexpected t} h (x, reply)) =
      undone-Fate w _ (record_of wake failed) [] (ground (arith, h.records))
        (ground (arith, h.evidence, append-nil w.evidence))
        (Due-at (ground arith) (by_other_error reply)) refl (ground (arith, h.deduper))
        (ground (arith, h.coverage)) (λ early. absurd (cc))
  after_retry-Fate w r (settles_exhausted {t = t} h (x, reply)) =
      undone-Fate w _ (record_of wake failed)
        (wake_failed (harness_key a) t e.source (synthetic e) ∷ []) (ground (arith, h.records))
        (ground (arith, h.evidence)) (Due-at (ground arith) (by_last_error reply)) refl
        (ground (arith, h.deduper)) (ground (arith, h.coverage)) (λ early. absurd (cc))

  run_wake-Fate :
      (w v : World E)
      → SameGates w v
      → 1 ≤ wake_attempts
      → Fate env a e w (caught (mark_done env wake_attempts e (run_wake env wake_attempts a e v)))
  unfolding run_wake attempts_for
  run_wake-Fate w v same some_attempt = after_retry-Fate w _ (
      with_retry-Settled env wake_attempts a e (attempts_for env wake_attempts e) w
        (bookend e wake_start v, none) (then_same same (bookend-SameGates e wake_start v))
        (ground (arith, some_attempt)))

  breaker_gate-Fate :
      (w : World E)
      → 1 ≤ wake_attempts
      → Fate env a e w (caught (breaker_gate env wake_attempts a e w))
  unfolding breaker_gate caught note prove
  breaker_gate-Fate w some_attempt =
      let (outcome, b) = admit (harness_key a) (some (stream_key e)) (env.monotonic w.env) w.rate in
      elim (Bool-cases (is_admitted outcome.state)) [
        | inl admitted ↦ rw admitted (
            run_wake-Fate w (record w { rate = b })
              (record { deduper = refl; coverage = refl; evidence = refl; records = refl })
              some_attempt)
        | inr refused ↦ rw refused (
            undone-Fate w _ (record_of breaker ignored)
              (wake_refused (harness_key a) e.source (synthetic e) ∷ []) refl refl by_breaker refl
              refl refl (λ early. absurd (cc)))
      ]

  after_guard-Fate :
      (w : World E) (answer : Result String Bool)
      → env.should_wake (harness_key a) w.env ≡ answer
      → 1 ≤ wake_attempts
      → Fate env a e w (caught (after_guard env wake_attempts a e w answer))
  unfolding after_guard caught note prove
  after_guard-Fate w (ok true) asked some_attempt = breaker_gate-Fate w some_attempt
  after_guard-Fate w (ok false) asked some_attempt =
      undone-Fate w _ (record_of wake_lock ignored)
        (wake_refused (harness_key a) e.source (synthetic e) ∷ []) refl refl (by_wake_lock asked)
        refl refl refl (λ early. refl)
  after_guard-Fate w (err t) asked some_attempt =
      undone-Fate w _ (record_of wake failed) [] refl (sym (append-nil w.evidence))
        (by_guard_error asked) refl refl refl (λ early. refl)

  wake_lock_gate-Fate :
      (w : World E)
      → 1 ≤ wake_attempts
      → Fate env a e w (caught (wake_lock_gate env wake_attempts a e w))
  unfolding wake_lock_gate
  wake_lock_gate-Fate w some_attempt =
      after_guard-Fate w (env.should_wake (harness_key a) w.env) refl some_attempt

  after_recheck-Fate :
      (w : World E) (x : E) (answer : Result String (Option String))
      → env.recheck e x ≡ (answer, w.env)
      → 1 ≤ wake_attempts
      → Fate env a e w (caught (after_recheck env wake_attempts a e w answer))
  unfolding after_recheck caught note
  after_recheck-Fate w x (ok none) asked some_attempt = wake_lock_gate-Fate w some_attempt
  after_recheck-Fate w x (ok (some gone)) asked some_attempt =
      undone-Fate w _ (record_of recheck ignored) [] refl (sym (append-nil w.evidence))
        (by_recheck asked) refl refl refl (λ early. refl)
  after_recheck-Fate w x (err t) asked some_attempt =
      undone-Fate w _ (record_of wake failed) [] refl (sym (append-nil w.evidence))
        (by_recheck_error asked) refl refl refl (λ early. refl)

  -- A Fate does not depend on the environment it starts in.
  Fate-elsewhere :
      (w v : World E) (x : E) → Fate env a e (record w { env = x }) v → Fate env a e w v
  Fate-elsewhere w v x h = record {
    last = h.last;
    told = h.told;
    records = h.records;
    evidence = h.evidence;
    due = h.due;
    kept = h.kept;
    marked = h.marked;
    spared = h.spared;
  }

  recheck_gate-Fate :
      (w : World E)
      → 1 ≤ wake_attempts
      → Fate env a e w (caught (recheck_gate env wake_attempts a e w))
  unfolding recheck_gate
  recheck_gate-Fate w some_attempt =
      let (answer, x) = env.recheck e w.env in
      Fate-elsewhere w _ x
        (after_recheck-Fate (record w { env = x }) w.env answer refl some_attempt)

  after_covering-Fate :
      (w : World E) (c : Option Coverage)
      → 1 ≤ wake_attempts
      → Fate env a e w (caught (after_covering env wake_attempts a e w c))
  unfolding after_covering caught note prove
  after_covering-Fate w none some_attempt = recheck_gate-Fate w some_attempt
  after_covering-Fate w (some c) some_attempt =
      undone-Fate w _ (record_of coalesce ignored)
        (wake_deduped (harness_key a) e.source (synthetic e) ∷ []) refl refl by_coalesce refl refl
        refl (λ early. refl)

  -- The world once the lock is recorded and the delivery's key is looked up.
  abbrev pub looked_up : World E → World E
  looked_up w = record (note lock ok_outcome w) {
    deduper = (seen (dedup_key e) (env.monotonic w.env) w.deduper).1;
  }

  -- For a bound of at least one attempt, `execute` takes the world after its lock record and its
  -- look-up of the key to one more stage record, with exactly the evidence due to that record and to
  -- what was answered: a dedup with a record of the dedup or the coalesce gate; a refusal with one of
  -- the guard, which then refused, or of the breaker; a success with the delivery id if the waker's
  -- last reply was an exit code; a failure with the last error if it was a transient error; and none
  -- if the recheck dropped the wake or raised, if the guard raised, or if the wake was stopped or
  -- raised another error. Each entry is filed under the agent's key, the event's source and its
  -- synthetic flag.
  -- If the last record is a wake that succeeded or was stopped, the key is marked at the time of the
  -- end; if not, the dedup cache and the coverage are as they were. And if it is a refusal by a gate
  -- before the breaker, the breaker is as it was.
  pub execute-Fate :
      (w : World E)
      → 1 ≤ wake_attempts
      → Fate env a e (looked_up w) (execute env wake_attempts a e w)
  unfolding execute dedup_gate caught note prove coalesce_gate
  execute-Fate w some_attempt =
      elim (Bool-cases (seen (dedup_key e) (env.monotonic w.env) w.deduper).0) [
        | inl duplicate ↦ rw duplicate (
            undone-Fate (looked_up w) _ (record_of dedup ignored)
              (wake_deduped (harness_key a) e.source (synthetic e) ∷ []) refl refl by_dedup refl
              refl refl (λ early. refl))
        | inr new ↦
            rw new (
              after_covering-Fate (looked_up w) (covering (harness_key a) e w.coverage)
                some_attempt)
      ]
