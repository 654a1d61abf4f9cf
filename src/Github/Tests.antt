-- ===== src/Github/Tests.antt =====
-- A handoff issue, a reply on it, and the captain's pull request, under a stand-in for the platform.
use Prim.Native.String
use basecradle_router.Base.Integer.{pos}
use basecradle_router.Base.{
  ℕ, ◌≡◌, ◌↔◌, refl, Bool, true, false, Option, none, some, String, List, [], ◌∷◌, map, length,
  arith, if◌then◌else◌,
}
use basecradle_router.Base.Json.{
  Json, null, boolean, integer, string, array, object, at, as_object, is_text, is_true, Items,
  no_items, item, Fields, no_fields, member,
}
use basecradle_router.Base.Result.{ok}
use basecradle_router.Models.{Event, IssueRef}
use basecradle_router.Routes.{Platform, InboundRequest, header, aware}
use basecradle_router.Github.{
  Route, repo_full_name, author_login, sender_login, is_captain_bot, run_pull_numbers,
}
use basecradle_router.Github.Ledger.{
  IssueState, IssueLedger, Shown, observe_all, reason_to_drop, issue_closed,
}
use basecradle_router.Github.Kept.{IsValid, observe_all-IsValid}
use basecradle_router.Github.Closed.{reason_to_drop-observe_all}
use basecradle_router.Github.Handlers.{
  woke, event_for, decide_issues, decide_comment, handoff_trigger, trusted_text,
}
use basecradle_router.Github.Woken.{HandoffFor, OriginOf, Built, wake_event-OriginOf}
use basecradle_router.Github.Pulls.{PullState, PullLedger, get_pull}
use basecradle_router.Github.OwnPulls.{
  decide_pull_request, decide_workflow_run, merge_note, ci_failure_note, all_known,
}
use basecradle_router.Github.Captain.{OwnWake, decide_pull_request-OwnWake}
use basecradle_router.Github.FailedRun.{OnlyOpenOwn, decide_workflow_run-OnlyOpenOwn}
use basecradle_router.Github.Normalize.{Ledgers, normalize}
use basecradle_router.Github.Delivered.{normalize-IsValid, normalize-HandoffFor}
use basecradle_router.Github.Listing.{Network, Bounded, read_listing, read_listing-Bounded}
use basecradle_router.Github.Gates.{decide_comment_iff, decide_issues_iff}

-- Timestamps stand for their lengths.
abbrev platform : Platform
platform = record {
  lower = λ s. s;
  loads = λ s. none;
  fromisoformat = λ s. some (aware (length s));
  hmac_sha256_hex = λ k b. b;
}

abbrev route : Route
route = record {
  platform = platform;
  find_references = λ s. [];
  trusted_actors = "founder" ∷ [];
  bot_login_for_repo = λ repo. some "captain[bot]";
}

abbrev empty_ledger : IssueLedger
empty_ledger = record { capacity = 8; issues = [] }

abbrev labels : String → Items
labels name = item (object (member "name" (string name) no_fields)) no_items

abbrev issue_at : String → String → Fields
issue_at state time = member "html_url" (string "u1") (
    member "state" (string state) (
      member "labels" (array (labels "handoff")) (
        member "updated_at" (string time)
          (member "number" (integer (pos 7)) (member "title" (string "t") no_fields)))))

abbrev repository : Fields
repository = member "full_name" (string "o/n") no_fields

abbrev delivery_of : String → String → String → String → Fields
delivery_of action login state time = member "action" (string action) (
    member "issue" (object (issue_at state time)) (
      member "repository" (object repository)
        (member "sender" (object (member "login" (string login) no_fields)) no_fields)))

abbrev empty-IsValid : IsValid empty_ledger
empty-IsValid = (tt, omega arith, tt)

abbrev shown_closed : Shown
shown_closed = record {
  issue = issue_at "closed" "12";
  url = "u1";
  is_open = false;
  names = "handoff" ∷ [];
  updated_at = 2;
}

abbrev closing : Fields
closing = delivery_of "closed" "captain[bot]" "closed" "12"

abbrev late_comment : Fields × String
late_comment = (delivery_of "created" "captain[bot]" "open" "12", "issue_comment")

observe_all-IsValid_example :
    IsValid (observe_all platform empty_ledger ((closing, "issues") ∷ late_comment ∷ []))
observe_all-IsValid_example =
    observe_all-IsValid platform ((closing, "issues") ∷ late_comment ∷ []) empty_ledger
      empty-IsValid

reason_to_drop-observe_all_example :
    reason_to_drop
      (observe_all platform empty_ledger ((closing, "issues") ∷ late_comment ∷ []))
      "u1"
    ≡ some issue_closed
unfolding basecradle_router.Github.Ledger.shown_in basecradle_router.Base.string_discrete
    basecradle_router.Routes.parse_timestamp basecradle_router.Models.is_empty
    basecradle_router.Base.contains basecradle_router.Base.get basecradle_router.Github.Closed.late
reason_to_drop-observe_all_example =
    reason_to_drop-observe_all platform empty_ledger closing shown_closed (late_comment ∷ []) refl
      refl refl refl refl (omega arith) (refl, tt)

abbrev reply : Fields
reply = delivery_of "created" "founder" "open" "123"

abbrev opened : Fields
opened = delivery_of "opened" "founder" "open" "123"

abbrev handed : Event
handed =
    event_for (record { repo = "o/n"; number = pos 7; url = "u1"; title = "t" })
      (handoff_trigger "u1") "issues" "d" none

abbrev replied : Event
replied =
    event_for (record { repo = "o/n"; number = pos 7; url = "u1"; title = "t" })
      (handoff_trigger "u1") "issue_comment" "d" none

decide_issues_iff_example : decide_issues route opened (some "d") ≡ ok (woke handed)
unfolding basecradle_router.Github.in_set at basecradle_router.Base.string_discrete
    basecradle_router.Github.is_handoff basecradle_router.Base.Json.any_item sender_login
    basecradle_router.Models.is_empty basecradle_router.Base.contains
    basecradle_router.Github.Handlers.wake_event basecradle_router.Models.IssueRef_post_init
    basecradle_router.Models.Recipient_post_init basecradle_router.Models.Event_post_init
    basecradle_router.Routes.parse_timestamp
decide_issues_iff_example =
    (decide_issues_iff route opened (some "d") handed).1
      (issue_at "open" "123", refl, refl, refl, refl, ("founder", refl, refl), refl)

decide_comment_iff_example : decide_comment route reply (some "d") ≡ ok (woke replied)
unfolding is_text at basecradle_router.Base.string_discrete basecradle_router.Github.has_label
    basecradle_router.Base.Json.any_item basecradle_router.Github.sender_is_captain_bot
    repo_full_name basecradle_router.Models.is_empty sender_login basecradle_router.Base.contains
    basecradle_router.Github.Handlers.wake_event basecradle_router.Models.IssueRef_post_init
    basecradle_router.Models.Recipient_post_init basecradle_router.Models.Event_post_init
    basecradle_router.Routes.parse_timestamp
decide_comment_iff_example =
    (decide_comment_iff route reply (some "d") replied).1
      (issue_at "open" "123", refl, refl, (refl, refl, refl, refl), ("founder", refl, refl), refl)

wake_event-OriginOf_example :
    (origin : IssueRef) × OriginOf opened (issue_at "open" "123") origin
    × Built origin
        (String.◌++◌ "Cross-repo handoff: work " (String.◌++◌ origin.url trusted_text))
        "issues"
        (some "d")
        none
        handed
unfolding basecradle_router.Github.Handlers.wake_event basecradle_router.Base.string_discrete
    basecradle_router.Models.IssueRef_post_init basecradle_router.Models.Recipient_post_init
    basecradle_router.Models.Event_post_init
wake_event-OriginOf_example =
    wake_event-OriginOf opened (issue_at "open" "123") "issues" (some "d") none handed refl

-- A ledger that holds the issue, and the captain's merge.
abbrev ledger : IssueLedger
ledger = record {
  capacity = 8;
  issues =
      (
        "u1",
        record {
          updated_at = 2;
          is_open = true;
          labels = "handoff" ∷ [];
          state_first_hand = true;
          labels_first_hand = true;
          ref = some (record { repo = "o/n"; number = pos 7; url = "u1"; title = "t" });
        },
      )
      ∷ [];
}

ledger-IsValid : IsValid ledger
unfolding basecradle_router.Base.get basecradle_router.Models.IssueRef_post_init
ledger-IsValid = ((refl, tt), omega arith, ((refl, refl), tt))

abbrev captain : Json
captain = object (member "login" (string "captain[bot]") no_fields)

abbrev merged : Fields
merged = member "action" (string "closed") (
    member "pull_request"
      (object (
        member "merged" (boolean true) (
          member "user" captain
            (member "number" (integer (pos 9)) (member "html_url" (string "p9") no_fields)))))
      (member "repository" (object repository) (member "sender" captain no_fields)))

abbrev target : IssueRef
target = record { repo = "o/n"; number = pos 7; url = "u1"; title = "t" }

abbrev merge_event : Event
merge_event =
    event_for target (String.◌++◌ (handoff_trigger "u1") (merge_note (pos 9) "p9")) "pull_request"
      "d" none

decide_pull_request-OwnWake_example :
    (pull : Fields) × (repo : String) × (author : String) × (is_text "closed" (at merged "action")
      ≡ true)
    × (as_object (at merged "pull_request") ≡ some pull)
    × (is_true (at pull "merged") ≡ true)
    × (repo_full_name merged ≡ some repo)
    × (author_login pull "user" ≡ some author)
    × (is_captain_bot route repo author ≡ true)
    × OwnWake route ledger repo (sender_login merged) (some "d") merge_event
unfolding decide_pull_request basecradle_router.Base.string_discrete
    basecradle_router.Models.is_empty basecradle_router.Base.contains
    basecradle_router.Models.Recipient_post_init basecradle_router.Models.Event_post_init
    basecradle_router.Routes.parse_timestamp
decide_pull_request-OwnWake_example =
    decide_pull_request-OwnWake route ledger merged (some "d") merge_event ledger-IsValid refl

abbrev pulls : PullLedger
pulls = record {
  capacity = 8;
  pulls =
      (
        ("o/n", pos 9),
        record {
          updated_at = 2;
          is_open = true;
          author = "captain[bot]";
          number = pos 9;
          url = "p9";
          named = pos 7 ∷ [];
        },
      )
      ∷ [];
}

abbrev failed : Fields
failed = member "action" (string "completed") (
    member "workflow_run"
      (object (
        member "conclusion" (string "failure") (
          member "triggering_actor" captain (
            member "pull_requests"
              (array (
                item
                  (object (
                    member "number" (integer (pos 9)) (
                      member "base"
                        (object (
                          member "repo"
                            (object
                              (member "url" (string "https://api.github.com/repos/o/n") no_fields))
                            no_fields))
                        no_fields)))
                  no_items))
              no_fields))))
      (member "repository" (object repository) no_fields))

abbrev failed_event : Event
failed_event =
    event_for target (String.◌++◌ (handoff_trigger "u1") (ci_failure_note (pos 9) "p9"))
      "workflow_run" "d" none

decide_workflow_run-OnlyOpenOwn_example :
    (run : Fields) × (repo : String) × (known : List PullState) × (is_text "completed"
        (at failed "action")
      ≡ true)
    × (as_object (at failed "workflow_run") ≡ some run)
    × (is_text "failure" (at run "conclusion") ≡ true)
    × (repo_full_name failed ≡ some repo)
    × (all_known (map (get_pull (λ s. s) pulls repo) (run_pull_numbers route run repo))
        ≡ some known)
    × OnlyOpenOwn route ledger run (some "d") repo known failed_event
unfolding decide_workflow_run basecradle_router.Base.string_discrete
    basecradle_router.Models.is_empty basecradle_router.Github.Pulls.key_discrete
    basecradle_router.Base.ℕ_discrete basecradle_router.Base.contains
    basecradle_router.Models.Recipient_post_init basecradle_router.Models.Event_post_init
    basecradle_router.Routes.parse_timestamp basecradle_router.Base.Integer.ℤ_discrete
decide_workflow_run-OnlyOpenOwn_example =
    decide_workflow_run-OnlyOpenOwn route ledger pulls failed (some "d") failed_event ledger-IsValid
      refl

-- The opened issue as a request.
abbrev reading : Route
reading = record route { platform = record platform { loads = λ s. some (object opened) } }

abbrev request : InboundRequest
request = record {
  headers = ("X-GitHub-Event", "issues") ∷ ("X-GitHub-Delivery", "d") ∷ [];
  body = "{}";
}

abbrev ledgers : Ledgers
ledgers = record { issues = empty_ledger; pulls = pulls }

normalize-IsValid_example : IsValid ((normalize reading ledgers request).0.issues)
normalize-IsValid_example = normalize-IsValid reading ledgers request empty-IsValid

normalize-HandoffFor_example :
    HandoffFor (header reading.platform "X-GitHub-Delivery" request) handed
unfolding normalize basecradle_router.Base.string_discrete basecradle_router.Routes.parse_timestamp
    basecradle_router.Models.is_empty basecradle_router.Base.Json.any_item
    basecradle_router.Base.contains basecradle_router.Models.IssueRef_post_init
    basecradle_router.Models.Recipient_post_init basecradle_router.Models.Event_post_init
normalize-HandoffFor_example =
    normalize-HandoffFor reading ledgers request handed empty-IsValid refl

-- Every page links to itself.
abbrev looping : Network
looping = record {
  clock = λ i. i;
  fetch = λ url time. some (array no_items, some "next");
  find_next = λ link. some "https://api.github.com/more";
  quote = λ repo. repo;
}

read_listing-Bounded_example : Bounded 10 (read_listing looping "o/n" "issues" 30)
read_listing-Bounded_example = read_listing-Bounded looping "o/n" "issues" 30
