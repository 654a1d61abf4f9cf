-- ===== src/Concurrency.antt =====
-- concurrency.py: the bounded retry around an operation that may fail. The operation, the sleep and
-- the hook are arguments that act on a state of the caller's.
pub mod Attempts
pub mod Locks
mod Tests
use basecradle_router.Base.{
  ℕ, zero, suc, ◌+◌, ◌-◌, ◌*◌, ◌^◌, String, Bool, List, [], ◌∷◌, leb, ltb, if◌then◌else◌,
}

-- What one call of the operation does: it returns, raises a `TransientError`, or raises another error.
pub data Attempt (A X : Type 0) : Type 0 where
  succeeded : A → Attempt A X
  transient_error : String → Attempt A X
  other_error : X → Attempt A X

-- How `with_retry` ends; `retry_exhausted` holds the bound and the last transient error.
pub data Ending (A X : Type 0) : Type 0 where
  returned : A → Ending A X
  raised : X → Ending A X
  retry_exhausted : ℕ → String → Ending A X
  value_error : Ending A X
  assertion_error : Ending A X

-- `range(first, first + count)`
unfoldable pub range : ℕ → ℕ → List ℕ
range first zero = []
range first (suc count) = first ∷ range (first + 1) count

module _ {S A X : Type 0} (operation : S → Attempt A X × S) (sleep : ℕ → S → S)
    (on_retry : ℕ → ℕ → String → S → S) where
  -- What follows one attempt: its result, its error, or a sleep and the attempts left.
  unfoldable pub after_attempt : ℕ → ℕ → ℕ → (S → Ending A X × S) → Attempt A X × S → Ending A X × S
  after_attempt attempts base_delay attempt again (succeeded a, s) = (returned a, s)
  after_attempt attempts base_delay attempt again (other_error x, s) = (raised x, s)
  after_attempt attempts base_delay attempt again (transient_error e, s) =
      if leb attempts attempt
      then (retry_exhausted attempts e, s)
      else again (sleep (base_delay * 2 ^ (attempt - 1)) (on_retry attempt attempts e s))

  -- The loop over the attempts; past its end stands an `AssertionError`.
  unfoldable pub retry_loop : ℕ → ℕ → List ℕ → S → Ending A X × S
  unfolding after_attempt
  retry_loop attempts base_delay [] s = (assertion_error, s)
  retry_loop attempts base_delay (attempt ∷ rest) s =
      after_attempt attempts base_delay attempt (retry_loop attempts base_delay rest) (operation s)

  unfoldable pub with_retry : ℕ → ℕ → S → Ending A X × S
  unfolding retry_loop range
  with_retry attempts base_delay s =
      if ltb attempts 1
      then (value_error, s)
      else retry_loop attempts base_delay (range 1 attempts) s
