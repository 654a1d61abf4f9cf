-- ===== src/Concurrency/Attempts.antt =====
-- How many attempts `with_retry` makes, and what it does between them (concurrency.py).
use basecradle_router.Base.{
  ℕ, zero, suc, ◌+◌, ◌-◌, ◌*◌, ◌^◌, ◌≤◌, ◌<◌, ◌≡◌, ◌⊎◌, inl, inr, refl, String, [], arith, subst,
  ge→ltb, le→leb, lt→leb,
}
use basecradle_router.Concurrency.{
  Attempt, succeeded, transient_error, other_error, Ending, returned, raised, retry_exhausted,
  range, after_attempt, retry_loop, with_retry,
}

module _ {S A X : Type 0} (operation : S → Attempt A X × S) (sleep : ℕ → S → S)
    (on_retry : ℕ → ℕ → String → S → S) (attempts base_delay : ℕ) where
  -- From one state to another by failed attempts, each told to the hook and slept off, where the
  -- first sleep is the base delay and each further one twice the one before.
  pub data Failed (s : S) : ℕ → S → Type 0 where
    none_failed : Failed s 0 s
    one_more :
        {k : ℕ} {t u : S} {e : String}
        → Failed s k t
        → operation t ≡ (transient_error e, u)
        → Failed s (k + 1) (sleep (base_delay * 2 ^ k) (on_retry (k + 1) attempts e u))

  -- How the attempt after `k` failed ones ends the retry.
  pub data Last : ℕ → S → Ending A X × S → Type 0 where
    returns : {k : ℕ} {t u : S} {a : A} → operation t ≡ (succeeded a, u) → Last k t (returned a, u)
    raises : {k : ℕ} {t u : S} {x : X} → operation t ≡ (other_error x, u) → Last k t (raised x, u)
    gives_up :
        {k : ℕ} {t u : S} {e : String}
        → k + 1 ≡ attempts
        → operation t ≡ (transient_error e, u)
        → Last k t (retry_exhausted attempts e, u)

  -- A way the retry may end: fewer than `attempts` failures, then the last attempt.
  pub record Ends (s : S) (ending : Ending A X × S) : Type 0 where
    pub failures : ℕ
    pub reached : S
    pub fewer : failures < attempts
    pub failed : Failed s failures reached
    pub last : Last failures reached ending

  -- One attempt ends the retry, or leaves it to what comes again unless it was the last.
  after_attempt-Ends :
      (k : ℕ) (s t : S) (again : S → Ending A X × S)
      → Failed s k t
      → (k + 1 ≡ attempts)
        ⊎ ((k + 1 < attempts) × ((u : S) → Failed s (k + 1) u → Ends s (again u)))
      → (o : Attempt A X × S) → operation t ≡ o
      → Ends s (after_attempt operation sleep on_retry attempts base_delay (k + 1) again o)
  unfolding after_attempt
  after_attempt-Ends k s t again failed place (succeeded a, u) done = record {
    failures = k;
    reached = t;
    fewer = ground arith;
    failed = failed;
    last = returns done;
  }
  after_attempt-Ends k s t again failed place (other_error x, u) done = record {
    failures = k;
    reached = t;
    fewer = ground arith;
    failed = failed;
    last = raises done;
  }
  after_attempt-Ends k s t again failed (inl e) (transient_error f, u) done =
      rw (le→leb attempts (k + 1) (omega arith)) (record {
        failures = k;
        reached = t;
        fewer = omega arith;
        failed = failed;
        last = gives_up e done;
      })
  after_attempt-Ends k s t again failed (inr (more, rest)) (transient_error f, u) done =
      let back : k + 1 - 1 ≡ k = omega arith in
      rw (lt→leb attempts (k + 1) more) (rest _ (rw back (one_more failed done)))

  retry_loop-Ends :
      (count k : ℕ) (s t : S)
      → k + suc count ≡ attempts
      → Failed s k t
      → Ends s
          (retry_loop operation sleep on_retry attempts base_delay (range (k + 1) (suc count)) t)
  unfolding retry_loop range
  retry_loop-Ends zero k s t e failed =
      after_attempt-Ends k s t (retry_loop operation sleep on_retry attempts base_delay []) failed
        (inl (omega arith)) (operation t) refl
  retry_loop-Ends (suc count) k s t e failed =
      after_attempt-Ends k s t
        (retry_loop operation sleep on_retry attempts base_delay (range (k + 1 + 1) (suc count)))
        failed (inr (omega arith, λ u h. retry_loop-Ends count (k + 1) s u (omega arith) h))
        (operation t) refl

  -- Ends as soon as an attempt does not fail, or with the last: for a bound of at least one, the
  -- retry makes some failed attempts, fewer than the bound, each followed by the hook and a sleep
  -- twice as long as the one before, and then one more, whose value or other error it passes on;
  -- it gives up only if that one is the last allowed and fails too.
  pub with_retry-Ends :
      (s : S) → 1 ≤ attempts → Ends s (with_retry operation sleep on_retry attempts base_delay s)
  unfolding with_retry
  with_retry-Ends s some_attempt =
      let count : suc (attempts - 1) ≡ attempts = omega arith in
      let ends = retry_loop-Ends (attempts - 1) 0 s s (omega arith) none_failed in
      rw (ge→ltb attempts 1 some_attempt) (
        subst (λ n. Ends s (retry_loop operation sleep on_retry attempts base_delay (range 1 n) s))
          count ends)
