-- ===== src/Github/Delivered.antt =====
-- One delivery from its request to its outcome (routes/github.py).
use basecradle_router.Base.{◌≡◌, Option, none, some, String, ite, string_discrete}
use basecradle_router.Base.Json.{Fields}
use basecradle_router.Base.Result.{Result, ok, err, ok-injective}
use basecradle_router.Models.{Event}
use basecradle_router.Routes.{RouteError, InboundRequest, header}
use basecradle_router.Github.{Raised, Route}
use basecradle_router.Github.Ledger.{IssueLedger, after_observe}
use basecradle_router.Github.Pulls.{PullLedger}
use basecradle_router.Github.Kept.{IsValid, observe-IsValid}
use basecradle_router.Github.Handlers.{Outcome, ignored, woke, decide_issues, decide_comment}
use basecradle_router.Github.OwnPulls.{decide_pull_request, decide_workflow_run}
use basecradle_router.Github.Normalize.{
  Ledgers, Handled, after_issue, normalize_issues, normalize_comment, normalize_pull_request,
  normalize_workflow_run, normalize_typed, normalize,
}
use basecradle_router.Github.Gates.{decide_comment_iff, decide_issues_iff, ignored-quiet}
use basecradle_router.Github.Woken.{HandoffFor, Built-HandoffFor, wake_event-OriginOf}
use basecradle_router.Github.Captain.{decide_pull_request-OwnWake}
use basecradle_router.Github.FailedRun.{decide_workflow_run-OnlyOpenOwn}

-- What a delivery over a valid issue ledger must leave and give.
abbrev pub Delivered : Option String → Handled → Type 0
Delivered delivery handled =
    IsValid ((handled.0).issues)
    × ((event : Event) → handled.1 ≡ ok (woke event) → HandoffFor delivery event)

after_issue-Delivered :
    (delivery : Option String) (ledgers : Ledgers) (seen : Result Raised IssueLedger)
    (outcome : Result Raised Outcome)
    → IsValid (after_observe ledgers.issues seen)
    → ((event : Event) → outcome ≡ ok (woke event) → HandoffFor delivery event)
    → Delivered delivery (after_issue ledgers seen outcome)
unfolding after_issue
after_issue-Delivered delivery ledgers (ok issues) outcome v h = (v, h)
after_issue-Delivered delivery ledgers (err e) outcome v h = (v, λ event clash. absurd (cc))

issues-HandoffFor :
    (r : Route) (payload : Fields) (delivery : Option String) (event : Event)
    → decide_issues r payload delivery ≡ ok (woke event)
    → HandoffFor delivery event
issues-HandoffFor r payload delivery event h =
    let (issue, asked, there, handed, working, trusted, made) =
      (decide_issues_iff r payload delivery event).0 h in
    let (origin, named, built) = wake_event-OriginOf payload issue "issues" delivery _ event made in
    Built-HandoffFor origin _ "issues" delivery _ event built

comment-HandoffFor :
    (r : Route) (payload : Fields) (delivery : Option String) (event : Event)
    → decide_comment r payload delivery ≡ ok (woke event)
    → HandoffFor delivery event
comment-HandoffFor r payload delivery event h =
    let (issue, created, there, reply, trusted, made) =
      (decide_comment_iff r payload delivery event).0 h in
    let (origin, named, built) =
      wake_event-OriginOf payload issue "issue_comment" delivery _ event made in
    Built-HandoffFor origin _ "issue_comment" delivery _ event built

pull_request-HandoffFor :
    (r : Route) (ledger : IssueLedger) (payload : Fields) (delivery : Option String) (event : Event)
    → IsValid ledger
    → decide_pull_request r ledger payload delivery ≡ ok (woke event)
    → HandoffFor delivery event
pull_request-HandoffFor r ledger payload delivery event v h =
    let (pull, repo, author, closed, there, merged, named, wrote, captain, own) =
      decide_pull_request-OwnWake r ledger payload delivery event v h in
    let (target, origin, held, recipient, here, fit, live, actor) = own in fit

workflow_run-HandoffFor :
    (r : Route) (ledger : IssueLedger) (pulls : PullLedger) (payload : Fields)
    (delivery : Option String) (event : Event)
    → IsValid ledger
    → decide_workflow_run r ledger pulls payload delivery ≡ ok (woke event)
    → HandoffFor delivery event
workflow_run-HandoffFor r ledger pulls payload delivery event v h =
    let (run, repo, known, completed, there, failed, named, all_there, only) =
      decide_workflow_run-OnlyOpenOwn r ledger pulls payload delivery event v h in
    let (pull, alone, mine, own) = only in
    let (target, origin, held, recipient, here, fit, live, actor) = own in fit

issues-Delivered :
    (r : Route) (ledgers : Ledgers) (delivery : Option String) (parsed : Result RouteError Fields)
    → IsValid ledgers.issues
    → Delivered delivery (normalize_issues r ledgers delivery parsed)
unfolding normalize_issues
issues-Delivered r ledgers delivery (err e) v = (v, λ event clash. absurd (cc))
issues-Delivered r ledgers delivery (ok payload) v =
    after_issue-Delivered delivery ledgers _ _
      (observe-IsValid r.platform ledgers.issues payload "issues" v)
      (issues-HandoffFor r payload delivery)

comment-Delivered :
    (r : Route) (ledgers : Ledgers) (delivery : Option String) (parsed : Result RouteError Fields)
    → IsValid ledgers.issues
    → Delivered delivery (normalize_comment r ledgers delivery parsed)
unfolding normalize_comment
comment-Delivered r ledgers delivery (err e) v = (v, λ event clash. absurd (cc))
comment-Delivered r ledgers delivery (ok payload) v =
    after_issue-Delivered delivery ledgers _ _
      (observe-IsValid r.platform ledgers.issues payload "issue_comment" v)
      (comment-HandoffFor r payload delivery)

pull_request-Delivered :
    (r : Route) (ledgers : Ledgers) (delivery : Option String) (parsed : Result RouteError Fields)
    → IsValid ledgers.issues
    → Delivered delivery (normalize_pull_request r ledgers delivery parsed)
unfolding normalize_pull_request
pull_request-Delivered r ledgers delivery (err e) v = (v, λ event clash. absurd (cc))
pull_request-Delivered r ledgers delivery (ok payload) v =
    (v, λ event. pull_request-HandoffFor r ledgers.issues payload delivery event v)

workflow_run-Delivered :
    (r : Route) (ledgers : Ledgers) (delivery : Option String) (parsed : Result RouteError Fields)
    → IsValid ledgers.issues
    → Delivered delivery (normalize_workflow_run r ledgers delivery parsed)
unfolding normalize_workflow_run
workflow_run-Delivered r ledgers delivery (err e) v = (v, λ event clash. absurd (cc))
workflow_run-Delivered r ledgers delivery (ok payload) v =
    (v, λ event. workflow_run-HandoffFor r ledgers.issues ledgers.pulls payload delivery event v)

ite-Delivered :
    {P : Type 0} (delivery : Option String) (dec : Dec P) (a b : Handled)
    → Delivered delivery a
    → Delivered delivery b
    → Delivered delivery (ite dec a b)
ite-Delivered delivery (yes p) a b h k = h
ite-Delivered delivery (no p) a b h k = k

ignored-Delivered :
    (delivery : Option String) (ledgers : Ledgers)
    → IsValid ledgers.issues
    → Delivered delivery (ledgers, ok ignored)
ignored-Delivered delivery ledgers v = (v, λ event h. absurd (ignored-quiet event (ok-injective h)))

typed-Delivered :
    (r : Route) (ledgers : Ledgers) (request : InboundRequest) (delivery event_type : Option String)
    → IsValid ledgers.issues
    → Delivered delivery (normalize_typed r ledgers request delivery event_type)
unfolding normalize_typed
typed-Delivered r ledgers request delivery none v = ignored-Delivered delivery ledgers v
typed-Delivered r ledgers request delivery (some event_type) v =
    ite-Delivered delivery (string_discrete event_type "issues") _ _
      (issues-Delivered r ledgers delivery _ v)
      (ite-Delivered delivery (string_discrete event_type "issue_comment") _ _
        (comment-Delivered r ledgers delivery _ v)
        (ite-Delivered delivery (string_discrete event_type "pull_request") _ _
          (pull_request-Delivered r ledgers delivery _ v)
          (ite-Delivered delivery (string_discrete event_type "workflow_run") _ _
            (workflow_run-Delivered r ledgers delivery _ v)
            (ignored-Delivered delivery ledgers v))))

-- Over a valid issue ledger, any request leaves a valid issue ledger, whatever its body and headers,
-- and whether it wakes, is ignored, or is refused.
pub normalize-IsValid :
    (r : Route) (ledgers : Ledgers) (request : InboundRequest)
    → IsValid ledgers.issues
    → IsValid ((normalize r ledgers request).0.issues)
unfolding normalize
normalize-IsValid r ledgers request v =
    (typed-Delivered r ledgers request (header r.platform "X-GitHub-Delivery" request)
      (header r.platform "X-GitHub-Event" request) v).0

-- If a request wakes, over a valid issue ledger, its event is a well-formed GitHub handoff of one
-- issue, for that issue's repo, with the id of the delivery header.
pub normalize-HandoffFor :
    (r : Route) (ledgers : Ledgers) (request : InboundRequest) (event : Event)
    → IsValid ledgers.issues
    → (normalize r ledgers request).1 ≡ ok (woke event)
    → HandoffFor (header r.platform "X-GitHub-Delivery" request) event
unfolding normalize
normalize-HandoffFor r ledgers request event v h =
    (typed-Delivered r ledgers request (header r.platform "X-GitHub-Delivery" request)
        (header r.platform "X-GitHub-Event" request) v).1
      event h
