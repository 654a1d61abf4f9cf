-- ===== src/Lib.antt =====
-- basecradle-router: the daemon that turns webhooks into wakes of the fleet's agents. A delivery is
-- normalised to an event, deduplicated, coalesced into a wake that already covers it, rate limited,
-- and run on one of a bounded number of lanes, one wake per agent at a time.
--
-- Files, and the code each is about (paths from the repository's root):
-- - Models: src/basecradle_router/models.py. `Event`, `Agent`, `IssueRef`, `Recipient` and the
--   checks of their `__post_init__`; `dedup_key`, `stream_key`, `harness_key`.
-- - Dedup: src/basecradle_router/dedup.py. `Deduper` is `DeliveryDeduper`; `seen`, `mark`, `gc`.
--   History relates it to the history of its calls.
-- - Coalesce: src/basecradle_router/coalesce.py. `WakeCoverage`; `record_wake` is `record`.
--   Order is one record on the ordered dictionary, Soundness and Eviction are about histories.
-- - Breaker: src/basecradle_router/breaker.py. `Breaker` is `WakeRateBreaker`; `admit` runs both
--   loops over the scopes. Recent, Keep, Loops and Passes lead to Rate.
-- - Concurrency: src/basecradle_router/concurrency.py. `with_retry` over an operation, a sleep and a
--   hook that act on any state; Attempts says how it may end. Locks is `AgentLocks`.
-- - Pipeline: src/basecradle_router/pipeline.py. `execute` with its gates in the code's order, over
--   the dedup, the coverage, the breaker and the retry of the files above; the waker, the route's
--   recheck, the wake lock, the clocks and the sleep are the record `Environment`. Accept is the fast
--   half with `handle`, over the answers of a route, `Routes`. Retry, Due, Fate, Duplicates
--   and Admission say what a trip leaves.
-- - WakeLock: src/basecradle_router/wakelock.py. `inspect` is that of `WakeLockGuard`, over a record
--   `Host` of what it takes from the system; Verdict says when it refuses.
-- - Scheduler: src/basecradle_router/scheduler.py. `Scheduler` is `WakeScheduler`; `submit`,
--   `finish` (the `finally` of `_run_job`) and `deliver` are its critical sections. System makes
--   them steps of any number of threads; Sound, Pump, Steps, Tickets, Delivery and Invariance keep
--   the invariant;
--   Promises and Fairness read it.
-- - Logfmt: src/basecradle_router/logfmt.py. `render_value` is `_render_value`, `log_fields`, `paint`.
--   Rendered is about one value, Reader reads a line back, Paint is about a terminal's pen.
-- - Marker: src/basecradle_router/marker.py. `nonce_of`, `is_marker`, and `MARKER_RE` by hand.
-- - Routes: src/basecradle_router/routes/base.py. The request, `verify_hmac_sha256` and the parsers,
--   over a record `Platform` of the HMAC, the JSON parser, `fromisoformat` and `str.lower`. Registry
--   is routes/registry.py.
-- - Github: src/basecradle_router/routes/github.py. The readers of a payload. Ledger is `IssueLedger`
--   and Pulls is `PullLedger`; Handlers has the `issues` and `issue_comment` handlers, OwnPulls those
--   of `pull_request` and `workflow_run`, Normalize puts them together; Listing is
--   `_read_listing`; Digits is about `decimal`. Kept and Closed are about the
--   issue ledger; Gates, Woken, Rechecked, Captain, FailedRun and Delivered
--   say what wakes.
-- - Evidence: src/basecradle_router/evidence.py. The document's records; Disk is `_atomic_write`,
--   as the changes it makes in the directory; Store has the `record_*` methods as one type of calls,
--   the flush, and `discard_stale`, which is `_discard_stale_queue_depths`; the text that a document
--   is written as is the store's field `dumps`; Legacy is `_reclassify_legacy_dedup`. Tally and
--   Durable are about histories of calls.
-- - Base: tests, integers, lists, texts, dictionaries and results that the components share.
--
-- Conventions: a time is a natural number of ticks, passed to each call; a dictionary is a list of
-- pairs in insertion order; a `KeyError` or an `IndexError` is `none`, a `ValueError` an error
-- result or `none`. Each method that holds its lock throughout is one step. The
-- body of a request is the text it decodes to, Python's integers are `ℤ` where one below zero is
-- accepted and else natural numbers, and a frozenset is a list. `decimal` writes a number n with fuel n + 1, since each digit divides it by ten;
-- `read_pages` counts down the pages as the code's `range` does.
--
-- Not modelled: the other routes behind `accept`, the warm-up of the GitHub ledgers around its
-- reads, the regex of issue references, the evidence document as JSON,
-- another agent's changes to the gates' state between two gates of one trip, log lines, threads and
-- locks below the critical sections, the HTTP server, the child process of a wake, files but the
-- evidence's, and the parts of the repository that no file above is about.
pub mod Base
pub mod Models
pub mod Logfmt
pub mod Marker
pub mod Pipeline
pub mod WakeLock
pub mod Routes
pub mod Github
pub mod Evidence
pub mod Dedup
pub mod Coalesce
pub mod Breaker
pub mod Concurrency
pub mod Scheduler
