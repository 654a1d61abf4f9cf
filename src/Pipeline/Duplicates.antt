-- ===== src/Pipeline/Duplicates.antt =====
-- A delivery that comes twice (pipeline.py).
use basecradle_router.Base.{
  ℕ, ◌+◌, ◌≤◌, ◌<◌, ◌≡◌, ◌∙◌, sym, ap, true, false, List, [], ◌∷◌, ◌++◌, arith,
}
use mathlib.Core.List.{append_assoc}
use basecradle_router.Models.{Agent, Event, harness_key, synthetic, dedup_key}
use basecradle_router.Dedup.{Deduper, seen, mark}
use basecradle_router.Dedup.Marks.{seen-mark, seen-ttl, seen-twice}
use basecradle_router.Pipeline.{
  dedup, lock, ok_outcome, ignored, StageRecord, wake_deduped, Environment, World, note, prove,
  caught, dedup_gate, execute,
}
use basecradle_router.Pipeline.Fate.{is_done, execute-Fate}

snoc_injective : {A : Type 0} (xs : List A) (x y : A) → xs ++ x ∷ [] ≡ xs ++ y ∷ [] → x ≡ y
snoc_injective [] x y e = cc
snoc_injective (z ∷ xs) x y e = snoc_injective xs x y (cc)

-- A trip that ends at its first gate.
execute-seen :
    {E : Type 0} (env : Environment E) (wake_attempts : ℕ) (a : Agent) (e : Event) (w : World E)
    → seen (dedup_key e) (env.monotonic w.env) w.deduper ≡ (true, w.deduper)
    → execute env wake_attempts a e w ≡ record w {
      records =
          w.records
          ++ record { stage = lock; outcome = ok_outcome }
            ∷ record { stage = dedup; outcome = ignored }
            ∷ [];
      evidence = w.evidence ++ wake_deduped (harness_key a) e.source (synthetic e) ∷ [];
    }
unfolding execute dedup_gate caught note prove
execute-seen env wake_attempts a e w duplicate =
    let both =
      append_assoc w.records (record { stage = lock; outcome = ok_outcome } ∷ [])
        (record { stage = dedup; outcome = ignored } ∷ []) in
    rw duplicate (
      ap
        (λ rs. record w {
          records = rs;
          evidence = w.evidence ++ wake_deduped (harness_key a) e.source (synthetic e) ∷ [];
        })
        both)

-- A delivery whose wake is done, succeeded or stopped, is collapsed if it is executed again less
-- than a lifetime later, whatever happened to the environment since: the second trip records its
-- lock, the collapse and the evidence of a dedup, and changes nothing else, so no wake runs and no
-- breaker budget is spent.
pub duplicate_collapses :
    {E : Type 0} (env : Environment E) (wake_attempts : ℕ) (a b : Agent) (e f : Event) (w : World E)
    (last : StageRecord) (x : E)
    → 1 ≤ wake_attempts
    → 0 < w.deduper.ttl
    → (execute env wake_attempts a e w).records
      ≡ w.records ++ record { stage = lock; outcome = ok_outcome } ∷ last ∷ []
    → is_done last ≡ true
    → dedup_key f ≡ dedup_key e
    → env.monotonic x < env.monotonic (execute env wake_attempts a e w).env + w.deduper.ttl
    → execute env wake_attempts b f (record (execute env wake_attempts a e w) { env = x })
      ≡ record (execute env wake_attempts a e w) {
        env = x;
        records =
            (execute env wake_attempts a e w).records
            ++ record { stage = lock; outcome = ok_outcome }
              ∷ record { stage = dedup; outcome = ignored }
              ∷ [];
        evidence =
            (execute env wake_attempts a e w).evidence
            ++ wake_deduped (harness_key b) f.source (synthetic f) ∷ [];
      }
unfolding note
duplicate_collapses env wake_attempts a b e f w last x some_attempt positive records finished same
      soon =
    let h = execute-Fate env wake_attempts a e w some_attempt in
    let is_last : h.last ≡ last = snoc_injective _ h.last last (
      sym h.records
      ∙ records
      ∙ sym (
          append_assoc w.records (record { stage = lock; outcome = ok_outcome } ∷ [])
            (last ∷ []))) in
    let marked = h.marked (rw is_last finished) in
    let t : ℕ = env.monotonic (execute env wake_attempts a e w).env in
    let d : Deduper = (seen (dedup_key e) (env.monotonic w.env) w.deduper).1 in
    let lifetime : d.ttl ≡ w.deduper.ttl = seen-ttl (dedup_key e) (env.monotonic w.env) w.deduper in
    let there : seen (dedup_key e) (env.monotonic x) (mark (dedup_key e) t d)
        ≡ (true, mark (dedup_key e) t d) =
      seen-mark (dedup_key e) t (env.monotonic x) d (omega (arith, lifetime))
        (omega (arith, lifetime)) in
    execute-seen env wake_attempts b f _ (rw (same, marked) there)

-- If a delivery's key was not seen and its wake is not done, then after the trip the key is not seen
-- at any later time, and the coverage is as it was: whatever stopped the trip, neither the dedup
-- nor a coverage of its own stops the next one.
pub failure_stays_open :
    {E : Type 0} (env : Environment E) (wake_attempts : ℕ) (a : Agent) (e f : Event) (w : World E)
    (last : StageRecord) (x : E)
    → 1 ≤ wake_attempts
    → (seen (dedup_key e) (env.monotonic w.env) w.deduper).0 ≡ false
    → (execute env wake_attempts a e w).records
      ≡ w.records ++ record { stage = lock; outcome = ok_outcome } ∷ last ∷ []
    → is_done last ≡ false
    → dedup_key f ≡ dedup_key e
    → ((seen (dedup_key f) (env.monotonic x) (execute env wake_attempts a e w).deduper).0 ≡ false)
      × ((execute env wake_attempts a e w).coverage ≡ w.coverage)
unfolding note
failure_stays_open env wake_attempts a e f w last x some_attempt new records undone same =
    let h = execute-Fate env wake_attempts a e w some_attempt in
    let is_last : h.last ≡ last = snoc_injective _ h.last last (
      sym h.records
      ∙ records
      ∙ sym (
          append_assoc w.records (record { stage = lock; outcome = ok_outcome } ∷ [])
            (last ∷ []))) in
    let (kept, coverage) = h.kept (rw is_last undone) in
    (
      rw (same, kept)
          (seen-twice (dedup_key e) (env.monotonic w.env) (env.monotonic x) w.deduper new),
      coverage,
    )
