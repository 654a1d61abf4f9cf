-- ===== src/Github/OwnPulls.antt =====
-- The handlers of `pull_request` and `workflow_run` (routes/github.py).
use Prim.Native.String
use basecradle_router.Base.Integer.{ℤ, ℤ_discrete}
use basecradle_router.Base.{
  ℕ, Bool, true, false, Option, none, some, String, List, [], ◌∷◌, map, contains, if◌then◌else◌,
}
use basecradle_router.Base.Json.{string, Fields, at, as_object, is_text, is_true}
use basecradle_router.Base.Result.{Result, ok, err, ◌>>=◌, ◌>>◌}
use basecradle_router.Models.{IssueRef}
use basecradle_router.Routes.{payload_error, parse_timestamp}
use basecradle_router.Github.{
  Raised, rejected, Route, author_login, sender_login, text_at, int_at, repo_full_name,
  named_issues, run_pull_numbers, is_captain_bot, require_trusted_login, decimal,
}
use basecradle_router.Github.Ledger.{IssueLedger, Drop, do_not_work, reason_to_drop, open_handoffs}
use basecradle_router.Github.Pulls.{PullState, PullLedger, get_pull}
use basecradle_router.Github.Handlers.{
  Reason, no_open_handoff, ambiguous_handoff, unknown_pull_request, closed_pull_request,
  ambiguous_pull_request, Outcome, ignored, parked, unmatched, build_event, handoff_trigger,
}

-- `_merge_target`
unfoldable pub named_among : List ℤ → List IssueRef → List IssueRef
named_among named [] = []
named_among named (ref ∷ refs) =
    let others = named_among named refs in
    if contains ℤ_discrete ref.number named then ref ∷ others else others

unfoldable pub chosen : List IssueRef → List ℤ → List IssueRef
unfolding named_among
chosen candidates [] = candidates
chosen candidates (n ∷ named) = named_among (n ∷ named) candidates

abbrev pub only : List IssueRef → Result Reason IssueRef
only [] = err no_open_handoff
only (ref ∷ []) = ok ref
only (ref ∷ other ∷ refs) = err ambiguous_handoff

unfoldable pub merge_target : List IssueRef → List ℤ → Result Reason IssueRef
unfolding chosen
merge_target candidates named = only (chosen candidates named)

-- `if actor is None or not self._is_captain_bot(repo, actor)`
unfoldable pub admit_actor : Route → String → Option String → Result Raised Unit
unfolding require_trusted_login
admit_actor r repo none = require_trusted_login r none
admit_actor r repo (some actor) =
    if is_captain_bot r repo actor then ok tt else require_trusted_login r (some actor)

abbrev pub is_parked : Option Drop → Bool
is_parked (some do_not_work) = true
is_parked _ = false

unfoldable pub wake_on :
    Route
    → IssueLedger
    → String
    → Option String
    → String
    → String
    → Option String
    → Option ℕ
    → Result Reason IssueRef
    → Result Raised Outcome
unfolding reason_to_drop admit_actor build_event handoff_trigger
wake_on r ledger repo actor note event_type delivery occurred_at (err reason) =
    ok (unmatched reason)
wake_on r ledger repo actor note event_type delivery occurred_at (ok target) =
    if is_parked (reason_to_drop ledger target.url) then ok (parked (string target.url)) else (do
      admit_actor r repo actor
      build_event target (String.◌++◌ (handoff_trigger target.url) note) event_type delivery
          occurred_at)

-- `_wake_on_own_pull`
unfoldable pub wake_on_own_pull :
    Route
    → IssueLedger
    → String
    → List ℤ
    → Option String
    → String
    → String
    → Option String
    → Option ℕ
    → Result Raised Outcome
unfolding wake_on merge_target open_handoffs
wake_on_own_pull r ledger repo named actor note event_type delivery occurred_at =
    wake_on r ledger repo actor note event_type delivery occurred_at
      (merge_target (open_handoffs r.platform.lower ledger repo) named)

-- `_MERGE_NOTE` and `_CI_FAILURE_NOTE`
note_of : String → ℤ → String → String
unfolding decimal
note_of ending number url =
    String.◌++◌ "\nWake reason: "
      (String.◌++◌ ending (String.◌++◌ (decimal number) (String.◌++◌ " (" url)))

unfoldable pub merge_note : ℤ → String → String
unfolding note_of
merge_note number url =
    String.◌++◌ (note_of "your pull request #" number url) ") merged; finish the issue."

unfoldable pub ci_failure_note : ℤ → String → String
unfolding note_of
ci_failure_note number url =
    String.◌++◌ (note_of "CI on your pull request #" number url) ") failed; finish the issue."

unfoldable pub own_merge :
    Route
    → IssueLedger
    → Fields
    → Option String
    → Fields
    → String
    → Option String
    → Result Raised Outcome
unfolding wake_on_own_pull merge_note named_issues sender_login at is_captain_bot
own_merge r ledger payload delivery pull repo none = ok ignored
own_merge r ledger payload delivery pull repo (some login) =
    if is_captain_bot r repo login
    then (do
      number ← int_at pull "number"
      pull_url ← text_at pull "html_url"
      wake_on_own_pull r ledger repo (named_issues r pull repo) (sender_login payload)
          (merge_note number pull_url) "pull_request" delivery
          (parse_timestamp r.platform (at pull "merged_at")))
    else ok ignored

unfoldable pub merged_in :
    Route → IssueLedger → Fields → Option String → Fields → Option String → Result Raised Outcome
unfolding own_merge author_login
merged_in r ledger payload delivery pull none = err (rejected payload_error)
merged_in r ledger payload delivery pull (some repo) =
    own_merge r ledger payload delivery pull repo (author_login pull "user")

unfoldable pub merged_pull :
    Route → IssueLedger → Fields → Option String → Option Fields → Result Raised Outcome
unfolding merged_in repo_full_name at
merged_pull r ledger payload delivery none = ok ignored
merged_pull r ledger payload delivery (some pull) =
    if is_true (at pull "merged")
    then merged_in r ledger payload delivery pull (repo_full_name payload)
    else ok ignored

-- `_normalize_pull_request`, after the pull ledger has seen the payload
unfoldable pub decide_pull_request :
    Route → IssueLedger → Fields → Option String → Result Raised Outcome
unfolding merged_pull at is_text
decide_pull_request r ledger payload delivery =
    if is_text "closed" (at payload "action")
    then merged_pull r ledger payload delivery (as_object (at payload "pull_request"))
    else ok ignored

-- Every pull request of a run, if the ledger knows them all.
abbrev pub cons_known : Option PullState → Option (List PullState) → Option (List PullState)
cons_known (some p) (some ps) = some (p ∷ ps)
cons_known _ _ = none

unfoldable pub all_known : List (Option PullState) → Option (List PullState)
all_known [] = some []
all_known (p ∷ ps) = cons_known p (all_known ps)

unfoldable pub own_pulls : Route → String → List PullState → List PullState
unfolding is_captain_bot
own_pulls r repo [] = []
own_pulls r repo (p ∷ ps) =
    let others = own_pulls r repo ps in
    if is_captain_bot r repo p.author then p ∷ others else others

unfoldable pub open_pulls : List PullState → List PullState
open_pulls [] = []
open_pulls (p ∷ ps) = let others = open_pulls ps in if p.is_open then p ∷ others else others

unfoldable pub failed_on :
    Route → IssueLedger → Fields → Option String → String → List PullState → Result Raised Outcome
unfolding wake_on_own_pull ci_failure_note author_login at
failed_on r ledger run delivery repo [] = ok (unmatched closed_pull_request)
failed_on r ledger run delivery repo (pull ∷ []) =
    wake_on_own_pull r ledger repo pull.named (author_login run "triggering_actor")
      (ci_failure_note pull.number pull.url) "workflow_run" delivery
      (parse_timestamp r.platform (at run "updated_at"))
failed_on r ledger run delivery repo (pull ∷ other ∷ pulls) = ok (unmatched ambiguous_pull_request)

unfoldable pub failed_own :
    Route → IssueLedger → Fields → Option String → String → List PullState → Result Raised Outcome
unfolding failed_on open_pulls
failed_own r ledger run delivery repo [] = ok ignored
failed_own r ledger run delivery repo (pull ∷ own) =
    failed_on r ledger run delivery repo (open_pulls (pull ∷ own))

unfoldable pub failed_known :
    Route
    → IssueLedger
    → Fields
    → Option String
    → String
    → Option (List PullState)
    → Result Raised Outcome
unfolding failed_own own_pulls
failed_known r ledger run delivery repo none = ok (unmatched unknown_pull_request)
failed_known r ledger run delivery repo (some known) =
    failed_own r ledger run delivery repo (own_pulls r repo known)

unfoldable pub failed_pulls :
    Route
    → IssueLedger
    → PullLedger
    → Fields
    → Option String
    → String
    → List ℤ
    → Result Raised Outcome
unfolding failed_known all_known get_pull
failed_pulls r ledger pulls run delivery repo [] = ok ignored
failed_pulls r ledger pulls run delivery repo (n ∷ numbers) =
    failed_known r ledger run delivery repo
      (all_known (map (get_pull r.platform.lower pulls repo) (n ∷ numbers)))

unfoldable pub failed_in :
    Route
    → IssueLedger
    → PullLedger
    → Fields
    → Option String
    → Option String
    → Result Raised Outcome
unfolding failed_pulls run_pull_numbers
failed_in r ledger pulls run delivery none = err (rejected payload_error)
failed_in r ledger pulls run delivery (some repo) =
    failed_pulls r ledger pulls run delivery repo (run_pull_numbers r run repo)

unfoldable pub failed_run :
    Route
    → IssueLedger
    → PullLedger
    → Fields
    → Option String
    → Option Fields
    → Result Raised Outcome
unfolding failed_in repo_full_name at is_text
failed_run r ledger pulls payload delivery none = ok ignored
failed_run r ledger pulls payload delivery (some run) =
    if is_text "failure" (at run "conclusion")
    then failed_in r ledger pulls run delivery (repo_full_name payload)
    else ok ignored

-- `_normalize_workflow_run`
unfoldable pub decide_workflow_run :
    Route → IssueLedger → PullLedger → Fields → Option String → Result Raised Outcome
unfolding failed_run at is_text
decide_workflow_run r ledger pulls payload delivery =
    if is_text "completed" (at payload "action")
    then failed_run r ledger pulls payload delivery (as_object (at payload "workflow_run"))
    else ok ignored
