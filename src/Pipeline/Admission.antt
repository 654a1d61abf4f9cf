-- ===== src/Pipeline/Admission.antt =====
-- Which requests become a wake, and what the others leave (pipeline.py).
use basecradle_router.Base.{
  ℕ, ◌≡◌, ◌↔◌, ◌∙◌, refl, String, true, Option, none, some, List, Bool-cases, Option-cases, inl,
  inr,
}
use basecradle_router.Models.{Agent, Event}
use basecradle_router.Pipeline.{StageRecord, Evidence, Environment, World, note, prove}
use basecradle_router.Pipeline.Accept.{
  Verified, verified, signature_error, secret_error, verify_raised, Normalized, normalized,
  not_actionable, payload_error, normalize_raised, Resolved, resolved, unresolved, resolve_raised,
  Routes, Trip, after_resolve, settle_accept, after_normalize, after_verify, accept_stages, accept,
  handle_pending, handle,
}

-- Every stage answers well: the source is known, the request is verified, and it is an event whose
-- agent is registered.
pub record Admitted {Q : Type 0} (routes : Routes Q) (source : String) (request : Q) (a : Agent)
    (e : Event) : Type 0 where
  pub is_known : routes.is_known source ≡ true
  pub verified_request : routes.verify_request source request ≡ verified
  pub normalized_request : routes.normalize_request source request ≡ normalized e
  pub resolved_agent : routes.resolve_agent e ≡ resolved a

-- The parts of the world that only a wake changes.
pub record Untouched {E : Type 0} (w w' : World E) : Type 0 where
  pub env : w'.env ≡ w.env
  pub deduper : w'.deduper ≡ w.deduper
  pub coverage : w'.coverage ≡ w.coverage
  pub rate : w'.rate ≡ w.rate
  pub lines : w'.lines ≡ w.lines

unmoved :
    {E : Type 0} {w : World E} {records : List StageRecord} {evidence : List Evidence}
    → Untouched w (record w { records = records; evidence = evidence })
unmoved = record { env = refl; deduper = refl; coverage = refl; rate = refl; lines = refl }

module _ {E Q : Type 0} (routes : Routes Q) (source : String) (request : Q) (w : World E) where
  -- An intake that wakes nobody itself, and leaves only an admitted request pending.
  record Sound (result : Trip E × Option (Agent × Event)) : Type 0 where
    calm : Untouched w result.0.world
    honest : (a : Agent) (e : Event) → result.1 ≡ some (a, e) → Admitted routes source request a e

  nothing_pending : (t : Trip E) → Untouched w t.world → Sound (t, none)
  nothing_pending t h = record { calm = h; honest = λ a e found. absurd (cc) }

  still : (t : Trip E) → Untouched w t.world → (v : World E) → Untouched t.world v → Untouched w v
  still t h v k = record {
    env = k.env ∙ h.env;
    deduper = k.deduper ∙ h.deduper;
    coverage = k.coverage ∙ h.coverage;
    rate = k.rate ∙ h.rate;
    lines = k.lines ∙ h.lines;
  }

  after_resolve-Sound :
      (e : Event) (t : Trip E) (r : Resolved)
      → Untouched w t.world
      → routes.is_known source ≡ true
      → routes.verify_request source request ≡ verified
      → routes.normalize_request source request ≡ normalized e
      → routes.resolve_agent e ≡ r
      → Sound (settle_accept (after_resolve e t r))
  unfolding after_resolve settle_accept note
  after_resolve-Sound e t (unresolved m) h known trusted event answer =
      nothing_pending _ (still t h _ unmoved)
  after_resolve-Sound e t (resolve_raised m) h known trusted event answer =
      nothing_pending _ (still t h _ unmoved)
  after_resolve-Sound e t (resolved a) h known trusted event answer = record {
    calm = still t h _ unmoved;
    honest = λ b f found.
        let agents : a ≡ b = cc in
        let events : e ≡ f = cc in
        record {
          is_known = known;
          verified_request = trusted;
          normalized_request = rw (← events) event;
          resolved_agent = rw (← events, ← agents) answer;
        };
  }

  after_normalize-Sound :
      (t : Trip E) (n : Normalized)
      → Untouched w t.world
      → routes.is_known source ≡ true
      → routes.verify_request source request ≡ verified
      → routes.normalize_request source request ≡ n
      → Sound (settle_accept (after_normalize routes source request t n))
  unfolding after_normalize settle_accept note prove
  after_normalize-Sound t (payload_error m) h known trusted answer =
      nothing_pending _ (still t h _ unmoved)
  after_normalize-Sound t not_actionable h known trusted answer =
      nothing_pending _ (still t h _ unmoved)
  after_normalize-Sound t (normalize_raised m) h known trusted answer =
      nothing_pending _ (still t h _ unmoved)
  after_normalize-Sound t (normalized e) h known trusted answer =
      after_resolve-Sound e _ (routes.resolve_agent e) (still t h _ unmoved) known trusted answer
        refl

  after_verify-Sound :
      (t : Trip E) (v : Verified)
      → Untouched w t.world
      → routes.is_known source ≡ true
      → routes.verify_request source request ≡ v
      → Sound (settle_accept (after_verify routes source request t v))
  unfolding after_verify settle_accept note prove
  after_verify-Sound t (signature_error m) h known answer = nothing_pending _ (still t h _ unmoved)
  after_verify-Sound t (secret_error m) h known answer = nothing_pending _ (still t h _ unmoved)
  after_verify-Sound t (verify_raised m) h known answer = nothing_pending _ (still t h _ unmoved)
  after_verify-Sound t verified h known answer =
      after_normalize-Sound _ (routes.normalize_request source request) (still t h _ unmoved) known
        answer refl

  accept-Sound : Sound (accept routes source request w)
  unfolding accept accept_stages settle_accept note
  accept-Sound = elim (Bool-cases (routes.is_known source)) [
    | inl known ↦
        rw known (after_verify-Sound _ (routes.verify_request source request) unmoved known refl)
    | inr unknown ↦ rw unknown (nothing_pending _ unmoved)
  ]

  -- `accept` leaves a wake of an agent for an event pending exactly if the source is known, the
  -- request is verified and normalised to that event, and that agent is registered for it.
  pub pending_iff :
      (a : Agent) (e : Event)
      → ((accept routes source request w).1 ≡ some (a, e)) ↔ Admitted routes source request a e
  unfolding accept accept_stages after_verify after_normalize after_resolve settle_accept
  pending_iff a e = (
    accept-Sound.honest a e,
    λ h.
        rw (h.is_known)
          (rw (h.verified_request) (rw (h.normalized_request) (rw (h.resolved_agent) refl))),
  )

  -- If no agent and event make a request admitted, `handle` launches nothing: the environment, the
  -- dedup cache, the coverage, the breaker and the wake lines are as they were.
  pub handle-Untouched :
      (env : Environment E) (wake_attempts : ℕ)
      → ((a : Agent) (e : Event) → Admitted routes source request a e → ⊥)
      → Untouched w (handle routes source request env wake_attempts w).world
  unfolding handle handle_pending
  handle-Untouched env wake_attempts refused =
      elim (Option-cases (accept routes source request w).1) [
        | inl none_pending ↦ rw none_pending accept-Sound.calm
        | inr ((a, e), found) ↦ absurd (refused a e (accept-Sound.honest a e found))
      ]
