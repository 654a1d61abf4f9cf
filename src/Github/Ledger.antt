-- ===== src/Github/Ledger.antt =====
-- `IssueLedger` (routes/github.py). A frozenset of label names is the list of them.
use basecradle_router.Base.Integer.{ℤ}
use basecradle_router.Base.{
  ℕ, Bool, true, false, not, ◌&&◌, ◌||◌, Option, none, some, String, List, [], ◌∷◌, ◌++◌, Dict, get,
  ltb, ◌==◌, ite, if◌then◌else◌, codes, string_discrete,
}
use basecradle_router.Base.Json.{
  Json, null, Items, Fields, at, at_object, as_object, as_list, as_text, as_integer, is_null,
  is_text, collect_items,
}
use basecradle_router.Base.Ordered.{remember}
use basecradle_router.Base.Result.{Result, ok, err, ◌>>=◌}
use basecradle_router.Models.{is_empty, IssueRef, IssueRef_post_init, Error}
use basecradle_router.Routes.{Platform, parse_timestamp}
use basecradle_router.Github.{Raised, in_set, among, repo_full_name}

-- `_IssueState`
pub record IssueState : Type 0 where
  pub updated_at : ℕ
  pub is_open : Bool
  pub labels : List String
  pub state_first_hand : Bool
  pub labels_first_hand : Bool
  pub ref : Option IssueRef

pub record IssueLedger : Type 0 where
  pub capacity : ℕ
  pub issues : Dict String IssueState

abbrev pub if_ok : IssueRef → Result Error Unit → Option IssueRef
if_ok ref (ok _) = some ref
if_ok ref (err _) = none

unfoldable pub make_ref : String → Option String → Option ℤ → Option String → Option IssueRef
make_ref url (some repo) (some number) (some title) =
    let ref : IssueRef = record { repo = repo; number = number; url = url; title = title } in
    if_ok ref (IssueRef_post_init ref)
make_ref url _ _ _ = none

-- `_issue_ref`
unfoldable pub issue_ref : Fields → Fields → String → Option IssueRef
unfolding at repo_full_name make_ref
issue_ref payload issue url =
    make_ref url (repo_full_name payload) (as_integer (at issue "number"))
      (as_text (at issue "title"))

-- What a payload must show to be a report.
pub record Shown : Type 0 where
  pub issue : Fields
  pub url : String
  pub is_open : Bool
  pub names : List String
  pub updated_at : ℕ

abbrev label_name : Json → Option String
label_name label = as_text (at_object (as_object label) "name")

-- `state`, if it is one of the two
unfoldable pub open_state : Json → Option Bool
unfolding is_text
open_state state =
    if is_text "open" state then some true else if is_text "closed" state then some false else none

unfoldable pub shown_parts :
    Fields → Option String → Option Bool → Option Items → Option ℕ → Option Shown
unfolding collect_items
shown_parts issue (some url) (some is_open) (some labels) (some t) =
    if is_empty (codes url)
    then none
    else some (record {
      issue = issue;
      url = url;
      is_open = is_open;
      names = collect_items label_name labels;
      updated_at = t;
    })
shown_parts issue _ _ _ _ = none

unfoldable pub shown_in : Platform → Option Fields → Option Shown
unfolding at open_state shown_parts
shown_in p none = none
shown_in p (some issue) =
    if is_null (at issue "pull_request")
    then shown_parts issue (as_text (at issue "html_url")) (open_state (at issue "state"))
        (as_list (at issue "labels")) (parse_timestamp p (at issue "updated_at"))
    else none

abbrev pub action_of : Fields → String → Json
action_of payload event_type = ite (string_discrete event_type "issues") (at payload "action") null

-- `_STATE_ACTIONS` and `_LABEL_ACTIONS`
abbrev pub state_actions : List String
state_actions = "opened" ∷ "closed" ∷ "reopened" ∷ []

abbrev pub label_actions : List String
label_actions = "opened" ∷ "labeled" ∷ "unlabeled" ∷ []

-- `_settle_tie`
abbrev pub or_else : Option IssueRef → Option IssueRef → Option IssueRef
or_else none other = other
or_else (some r) other = some r

unfoldable pub settle_tie : IssueState → IssueState → IssueState
settle_tie known report = record {
  updated_at = report.updated_at;
  is_open =
      if known.state_first_hand && not report.state_first_hand
      then known.is_open
      else report.is_open;
  labels =
      if known.labels_first_hand && not report.labels_first_hand
      then known.labels
      else report.labels;
  state_first_hand = known.state_first_hand || report.state_first_hand;
  labels_first_hand = known.labels_first_hand || report.labels_first_hand;
  ref = or_else report.ref known.ref;
}

-- What is to be recorded for a report, given what is known.
unfoldable pub admitted : Option IssueState → IssueState → Option IssueState
unfolding settle_tie
admitted none report = if among report.labels "handoff" then some report else none
admitted (some known) report =
    if ltb report.updated_at known.updated_at
    then none
    else some (if report.updated_at == known.updated_at then settle_tie known report else report)

abbrev pub write_issue : IssueLedger → String → Option IssueState → IssueLedger
write_issue ledger url none = ledger
write_issue ledger url (some state) = record {
  capacity = ledger.capacity;
  issues = remember string_discrete ledger.capacity url state ledger.issues;
}

-- The part of `observe` under the lock.
unfoldable pub take_report : IssueLedger → String → IssueState → IssueLedger
unfolding admitted
take_report ledger url report =
    write_issue ledger url (admitted (get string_discrete url ledger.issues) report)

unfoldable pub observe_shown :
    IssueLedger → Fields → String → Option Shown → Result Raised IssueLedger
unfolding in_set take_report issue_ref
observe_shown ledger payload event_type none = ok ledger
observe_shown ledger payload event_type (some s) = do
  state_first_hand ← in_set state_actions (action_of payload event_type)
  labels_first_hand ← in_set label_actions (action_of payload event_type)
  ok (
      take_report ledger s.url (record {
        updated_at = s.updated_at;
        is_open = s.is_open;
        labels = s.names;
        state_first_hand = state_first_hand;
        labels_first_hand = labels_first_hand;
        ref = issue_ref payload s.issue s.url;
      }))

-- `observe`
unfoldable pub observe : Platform → IssueLedger → Fields → String → Result Raised IssueLedger
unfolding observe_shown shown_in at
observe p ledger payload event_type =
    observe_shown ledger payload event_type (shown_in p (as_object (at payload "issue")))

pub data Drop : Type 0 where
  issue_closed do_not_work handoff_removed : Drop

unfoldable pub drop_of : Option IssueState → Option Drop
drop_of none = none
drop_of (some known) =
    if known.is_open
    then if among known.labels "Do Not Work"
      then some do_not_work
      else if among known.labels "handoff"
      then none
      else some handoff_removed
    else some issue_closed

-- `reason_to_drop`
unfoldable pub reason_to_drop : IssueLedger → String → Option Drop
unfolding drop_of get
reason_to_drop ledger url = drop_of (get string_discrete url ledger.issues)

unfoldable pub wanted_ref :
    (String → String) → String → IssueState → Option IssueRef → List IssueRef
wanted_ref lower wanted state none = []
wanted_ref lower wanted state (some ref) =
    if ite (string_discrete (lower ref.repo) wanted) true false
      && state.is_open
      && among state.labels "handoff"
    then ref ∷ []
    else []

unfoldable pub refs_of : (String → String) → String → Dict String IssueState → List IssueRef
unfolding wanted_ref
refs_of lower wanted [] = []
refs_of lower wanted ((url, state) ∷ rest) =
    wanted_ref lower wanted state state.ref ++ refs_of lower wanted rest

-- `open_handoffs`
unfoldable pub open_handoffs : (String → String) → IssueLedger → String → List IssueRef
unfolding refs_of
open_handoffs lower ledger repo = refs_of lower (lower repo) ledger.issues

-- The ledger after deliveries in order. One that raises leaves it as it was.
abbrev pub after_observe : IssueLedger → Result Raised IssueLedger → IssueLedger
after_observe ledger (ok next) = next
after_observe ledger (err _) = ledger

unfoldable pub observe_all : Platform → IssueLedger → List (Fields × String) → IssueLedger
unfolding observe
observe_all p ledger [] = ledger
observe_all p ledger ((payload, event_type) ∷ rest) =
    observe_all p (after_observe ledger (observe p ledger payload event_type)) rest
