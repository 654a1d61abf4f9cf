-- ===== src/Github/Normalize.antt =====
-- `normalize` and `recheck` of `GithubRoute` (routes/github.py).
use basecradle_router.Base.{Option, none, some, String, ite, string_discrete}
use basecradle_router.Base.Json.{Json, Fields, at}
use basecradle_router.Base.Result.{Result, ok, err}
use basecradle_router.Models.{Event}
use basecradle_router.Routes.{RouteError, InboundRequest, header, parse_json_object}
use basecradle_router.Github.{Raised, rejected, Route, repo_full_name}
use basecradle_router.Github.Ledger.{IssueLedger, observe, Drop, reason_to_drop}
use basecradle_router.Github.Pulls.{PullLedger, observe_pull}
use basecradle_router.Github.Handlers.{Outcome, ignored, decide_issues, decide_comment}
use basecradle_router.Github.OwnPulls.{decide_pull_request, decide_workflow_run}

pub record Ledgers : Type 0 where
  pub issues : IssueLedger
  pub pulls : PullLedger

-- What a delivery leaves and what it gives.
abbrev pub Handled : Type 0
Handled = Ledgers × Result Raised Outcome

unfoldable pub after_issue : Ledgers → Result Raised IssueLedger → Result Raised Outcome → Handled
after_issue ledgers (err e) outcome = (ledgers, err e)
after_issue ledgers (ok issues) outcome =
    (record { issues = issues; pulls = ledgers.pulls }, outcome)

unfoldable pub normalize_issues :
    Route → Ledgers → Option String → Result RouteError Fields → Handled
unfolding after_issue observe decide_issues
normalize_issues r ledgers delivery (err e) = (ledgers, err (rejected e))
normalize_issues r ledgers delivery (ok payload) =
    after_issue ledgers (observe r.platform ledgers.issues payload "issues")
      (decide_issues r payload delivery)

unfoldable pub normalize_comment :
    Route → Ledgers → Option String → Result RouteError Fields → Handled
unfolding after_issue observe decide_comment
normalize_comment r ledgers delivery (err e) = (ledgers, err (rejected e))
normalize_comment r ledgers delivery (ok payload) =
    after_issue ledgers (observe r.platform ledgers.issues payload "issue_comment")
      (decide_comment r payload delivery)

pulls_after : Route → PullLedger → Json → Option String → PullLedger
unfolding observe_pull
pulls_after r pulls seen none = pulls
pulls_after r pulls seen (some repo) = observe_pull r pulls repo seen

unfoldable pub normalize_pull_request :
    Route → Ledgers → Option String → Result RouteError Fields → Handled
unfolding pulls_after repo_full_name at decide_pull_request
normalize_pull_request r ledgers delivery (err e) = (ledgers, err (rejected e))
normalize_pull_request r ledgers delivery (ok payload) = (
  record {
    issues = ledgers.issues;
    pulls = pulls_after r ledgers.pulls (at payload "pull_request") (repo_full_name payload);
  },
  decide_pull_request r ledgers.issues payload delivery,
)

unfoldable pub normalize_workflow_run :
    Route → Ledgers → Option String → Result RouteError Fields → Handled
unfolding decide_workflow_run
normalize_workflow_run r ledgers delivery (err e) = (ledgers, err (rejected e))
normalize_workflow_run r ledgers delivery (ok payload) =
    (ledgers, decide_workflow_run r ledgers.issues ledgers.pulls payload delivery)

unfoldable pub normalize_typed :
    Route → Ledgers → InboundRequest → Option String → Option String → Handled
unfolding normalize_issues normalize_comment normalize_pull_request normalize_workflow_run
    parse_json_object
normalize_typed r ledgers request delivery none = (ledgers, ok ignored)
normalize_typed r ledgers request delivery (some event_type) =
    ite (string_discrete event_type "issues")
      (normalize_issues r ledgers delivery (parse_json_object r.platform request.body))
      (ite (string_discrete event_type "issue_comment")
        (normalize_comment r ledgers delivery (parse_json_object r.platform request.body))
        (ite (string_discrete event_type "pull_request")
          (normalize_pull_request r ledgers delivery (parse_json_object r.platform request.body))
          (ite (string_discrete event_type "workflow_run")
            (normalize_workflow_run r ledgers delivery (parse_json_object r.platform request.body))
            (ledgers, ok ignored))))

-- `normalize`
unfoldable pub normalize : Route → Ledgers → InboundRequest → Handled
unfolding normalize_typed header
normalize r ledgers request =
    normalize_typed r ledgers request (header r.platform "X-GitHub-Delivery" request)
      (header r.platform "X-GitHub-Event" request)

-- `recheck`
unfoldable pub recheck : IssueLedger → Event → Option Drop
unfolding reason_to_drop
recheck ledger event = elim event.origin [
  | none ↦ none
  | some origin ↦ reason_to_drop ledger origin.url
]
