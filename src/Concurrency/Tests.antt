-- ===== src/Concurrency/Tests.antt =====
-- An operation that fails until it has been called enough (concurrency.py).
use basecradle_router.Base.{
  ◌≡◌, ◌↔◌, false, not, none, List, [], ◌∷◌, ℕ, ◌+◌, String, if◌then◌else◌, ltb, arith,
}
use basecradle_router.Concurrency.{Attempt, succeeded, transient_error, with_retry}
use basecradle_router.Concurrency.Attempts.{Ends, with_retry-Ends}
use basecradle_router.Concurrency.Locks.{
  Call, acquires, releases, acquire, release, run, in_use, acquire-run,
}

-- The state counts the calls and the time slept.
abbrev flaky : ℕ × ℕ → Attempt ℕ String × (ℕ × ℕ)
flaky (calls, slept) =
    (if ltb calls 2 then transient_error "busy" else succeeded calls, (calls + 1, slept))

abbrev doze : ℕ → ℕ × ℕ → ℕ × ℕ
doze delay (calls, slept) = (calls, slept + delay)

abbrev hook : ℕ → ℕ → String → ℕ × ℕ → ℕ × ℕ
hook failed attempts e s = s

with_retry-Ends_example : Ends flaky doze hook 3 5 (0, 0) (with_retry flaky doze hook 3 5 (0, 0))
with_retry-Ends_example = with_retry-Ends flaky doze hook 3 5 (0, 0) (omega arith)

abbrev calls : List Call
calls = acquires "vega" ∷ releases "nova" ∷ acquires "nova" ∷ []

acquire-run_example :
    ((acquire "nova" (run calls)).0 ≡ not (in_use "nova" calls))
    × ((release "nova" (run calls) ≡ none) ↔ (in_use "nova" calls ≡ false))
acquire-run_example = acquire-run calls "nova"
