-- ===== src/Pipeline/Retry.antt =====
-- The retry of a wake, and the state of the gates around it (pipeline.py).
use basecradle_router.Base.{ℕ, ◌≤◌, ◌≡◌, ◌∙◌, refl, sym, ap, String, Option, arith}
use basecradle_router.Models.{Agent, Event}
use basecradle_router.Concurrency.{
  Attempt, succeeded, transient_error, other_error, Ending, returned, raised, retry_exhausted,
  with_retry,
}
use basecradle_router.Concurrency.Attempts.{
  Failed, none_failed, one_more, Last, returns, raises, gives_up, Ends, with_retry-Ends,
}
use basecradle_router.Pipeline.{
  Line, Environment, World, Fault, stop, unexpected, WakeReply, woke, wake_error, wake_stopped,
  wake_raised, reply_of, base_delay, log, bookend, attempt, pause, on_retry,
}

-- The fields that the retry does not touch.
pub record SameGates {E : Type 0} (w w' : World E) : Type 0 where
  pub deduper : w'.deduper ≡ w.deduper
  pub coverage : w'.coverage ≡ w.coverage
  pub evidence : w'.evidence ≡ w.evidence
  pub records : w'.records ≡ w.records

module _ {E : Type 0} where
  -- What the retry leaves alone is left alone by another attempt, pause or hook.
  pub then_same : {w x y : World E} → SameGates w x → SameGates x y → SameGates w y
  then_same h k = record {
    deduper = k.deduper ∙ h.deduper;
    coverage = k.coverage ∙ h.coverage;
    evidence = k.evidence ∙ h.evidence;
    records = k.records ∙ h.records;
  }

  pub bookend-SameGates : (e : Event) (line : Line) (w : World E) → SameGates w (bookend e line w)
  unfolding bookend log
  bookend-SameGates e line w = record {
    deduper = ground arith;
    coverage = ground arith;
    evidence = ground arith;
    records = ground arith;
  }

module _ {E : Type 0} (env : Environment E) (wake_attempts : ℕ) (a : Agent) (e : Event) where
  attempt-SameGates :
      (s : World E × Option ℕ) {r : Attempt ℕ Fault} {u : World E × Option ℕ}
      → attempt env wake_attempts a e s ≡ (r, u)
      → SameGates s.0 u.0
  unfolding attempt
  attempt-SameGates (w, started) {r} {u} h = record {
    deduper = sym (ap (λ (x : Attempt ℕ Fault × (World E × Option ℕ)). x.1.0.deduper) h);
    coverage = sym (ap (λ (x : Attempt ℕ Fault × (World E × Option ℕ)). x.1.0.coverage) h);
    evidence = sym (ap (λ (x : Attempt ℕ Fault × (World E × Option ℕ)). x.1.0.evidence) h);
    records = sym (ap (λ (x : Attempt ℕ Fault × (World E × Option ℕ)). x.1.0.records) h);
  }

  -- An attempt is one call of the waker.
  attempt-called :
      (s : World E × Option ℕ) {r : Attempt ℕ Fault} {u : World E × Option ℕ}
      → attempt env wake_attempts a e s ≡ (r, u)
      → (reply : WakeReply) × (env.wake a e s.0.env ≡ (reply, u.0.env)) × (reply_of reply ≡ r)
  unfolding attempt
  attempt-called (w, started) {r} {u} h = (
    (env.wake a e w.env).0,
    ap (λ (x : Attempt ℕ Fault × (World E × Option ℕ)). ((env.wake a e w.env).0, x.1.0.env)) h,
    ap (λ (x : Attempt ℕ Fault × (World E × Option ℕ)). x.0) h,
  )

  -- The waker's reply that ended the retry, with the environment it left.
  abbrev pub Replied : WakeReply → World E × Option ℕ → Type 0
  Replied reply u = (x : E) × (env.wake a e x ≡ (reply, u.0.env))

  woke-Replied :
      (s : World E × Option ℕ) {exit : ℕ} {u : World E × Option ℕ}
      → attempt env wake_attempts a e s ≡ (succeeded exit, u)
      → Replied (woke exit) u
  woke-Replied s {exit} {u} h = let (reply, call, same) = attempt-called s h in go reply call same
    where
      go :
          (reply : WakeReply)
          → env.wake a e s.0.env ≡ (reply, u.0.env)
          → reply_of reply ≡ succeeded exit
          → Replied (woke exit) u
      go (woke x) call same = (s.0.env, let p : x ≡ exit = cc in rw (sym p) call)
      go (wake_error t) call same = absurd (cc)
      go (wake_stopped signal x) call same = absurd (cc)
      go (wake_raised t) call same = absurd (cc)

  error-Replied :
      (s : World E × Option ℕ) {t : String} {u : World E × Option ℕ}
      → attempt env wake_attempts a e s ≡ (transient_error t, u)
      → Replied (wake_error t) u
  error-Replied s {t} {u} h = let (reply, call, same) = attempt-called s h in go reply call same
    where
      go :
          (reply : WakeReply)
          → env.wake a e s.0.env ≡ (reply, u.0.env)
          → reply_of reply ≡ transient_error t
          → Replied (wake_error t) u
      go (woke x) call same = absurd (cc)
      go (wake_error t') call same = (s.0.env, let p : t' ≡ t = cc in rw (sym p) call)
      go (wake_stopped signal x) call same = absurd (cc)
      go (wake_raised t') call same = absurd (cc)

  -- The replies that raise an error the retry does not take for transient.
  abbrev pub Raised : Fault → World E × Option ℕ → Type 0
  Raised stop u = (signal : String) × (exit : ℕ) × Replied (wake_stopped signal exit) u
  Raised (unexpected t) u = Replied (wake_raised t) u

  raise-Raised :
      (s : World E × Option ℕ) (x : Fault) {u : World E × Option ℕ}
      → attempt env wake_attempts a e s ≡ (other_error x, u)
      → Raised x u
  raise-Raised s x {u} h = let (reply, call, same) = attempt-called s h in go x reply call same
    where
      go :
          (x : Fault) (reply : WakeReply)
          → env.wake a e s.0.env ≡ (reply, u.0.env)
          → reply_of reply ≡ other_error x
          → Raised x u
      go x (woke exit) call same = absurd (cc)
      go x (wake_error t) call same = absurd (cc)
      go stop (wake_stopped signal exit) call same = (signal, exit, (s.0.env, call))
      go (unexpected t) (wake_stopped signal exit) call same = absurd (cc)
      go stop (wake_raised t) call same = absurd (cc)
      go (unexpected t) (wake_raised t') call same =
          (s.0.env, let p : t' ≡ t = cc in rw (sym p) call)

  Failed-SameGates :
      (n : ℕ) {s t : World E × Option ℕ} {k : ℕ}
      → Failed (attempt env wake_attempts a e) (pause env wake_attempts) on_retry n base_delay s k t
      → SameGates s.0 t.0
  unfolding pause on_retry log
  Failed-SameGates n none_failed = record {
    deduper = refl;
    coverage = refl;
    evidence = refl;
    records = refl;
  }
  Failed-SameGates n (one_more {t = t} before h) = then_same (Failed-SameGates n before) (
      let one = attempt-SameGates t h in
      record {
        deduper = one.deduper;
        coverage = one.coverage;
        evidence = one.evidence;
        records = one.records;
      })

  -- How the retry of a wake may end: with the gates left alone, by the waker's last reply.
  pub data Settled (w : World E) : Ending ℕ Fault × (World E × Option ℕ) → Type 0 where
    settles_returned :
        {exit : ℕ} {u : World E × Option ℕ}
        → SameGates w u.0
        → Replied (woke exit) u
        → Settled w (returned exit, u)
    settles_raised :
        {x : Fault} {u : World E × Option ℕ}
        → SameGates w u.0
        → Raised x u
        → Settled w (raised x, u)
    settles_exhausted :
        {n : ℕ} {t : String} {u : World E × Option ℕ}
        → SameGates w u.0
        → Replied (wake_error t) u
        → Settled w (retry_exhausted n t, u)

  pub with_retry-Settled :
      (n : ℕ) (w : World E) (s : World E × Option ℕ)
      → SameGates w s.0
      → 1 ≤ n
      → Settled w (
          with_retry
            (attempt env wake_attempts a e)
            (pause env wake_attempts)
            on_retry
            n
            base_delay
            s)
  with_retry-Settled n w s start h = go ends.last
    where
      ends :
          Ends (attempt env wake_attempts a e) (pause env wake_attempts) on_retry n base_delay s (
            with_retry
              (attempt env wake_attempts a e)
              (pause env wake_attempts)
              on_retry
              n
              base_delay
              s)
      ends =
          with_retry-Ends (attempt env wake_attempts a e) (pause env wake_attempts) on_retry n
            base_delay s h

      go :
          {r : Ending ℕ Fault × (World E × Option ℕ)}
          → Last
              (attempt env wake_attempts a e)
              (pause env wake_attempts)
              on_retry
              n
              base_delay
              ends.failures
              ends.reached
              r
          → Settled w r
      go (returns h') =
          settles_returned
            (then_same (then_same start (Failed-SameGates n ends.failed))
              (attempt-SameGates ends.reached h'))
            (woke-Replied ends.reached h')
      go (raises {x = x} h') =
          settles_raised
            (then_same (then_same start (Failed-SameGates n ends.failed))
              (attempt-SameGates ends.reached h'))
            (raise-Raised ends.reached x h')
      go (gives_up e' h') =
          settles_exhausted
            (then_same (then_same start (Failed-SameGates n ends.failed))
              (attempt-SameGates ends.reached h'))
            (error-Replied ends.reached h')
