-- ===== src/Github.antt =====
-- routes/github.py: what the handlers read of a payload, and the trigger's text. The regex of issue
-- references and the registry's bot logins are fields of `Route`.
mod Ledger
mod Pulls
mod Handlers
mod Kept
mod Closed
mod Gates
mod OwnPulls
mod Normalize
mod Rechecked
mod Woken
mod Captain
mod FailedRun
mod Delivered
mod Listing
mod Digits
mod Tests
use Prim.Native.Nat.{◌/◌, ◌%◌}
use Prim.Native.String
use basecradle_router.Base.Integer.{ℤ, pos, negsuc, ℤ_discrete, is_positive}
use basecradle_router.Base.{
  ℕ, zero, suc, Bool, true, false, not, ◌&&◌, ◌||◌, Option, none, some, String, List, [], ◌∷◌, map,
  ltb, ◌==◌, ite, if◌then◌else◌, codes, string_discrete, contains,
}
use basecradle_router.Base.Json.{
  Json, null, boolean, integer, string, array, object, Items, Fields, at, at_object, as_object,
  as_list, as_text, as_integer, is_null, is_true, is_text, is_one_of, collect_items, any_item,
}
use basecradle_router.Base.Result.{Result, ok, err}
use basecradle_router.Models.{is_empty}
use basecradle_router.Routes.{
  Platform, RouteError, payload_error, untrusted_sender_error, parse_timestamp,
}

-- What a handler raises: a rejection of the route, or the TypeError of a set asked for a list or a dict.
pub data Raised : Type 0 where
  rejected : RouteError → Raised
  type_error : Raised

-- A match of `_ISSUE_REFERENCE`: the repo it names, if any, and the number.
pub record Reference : Type 0 where
  pub where_repo : Option String
  pub number : ℕ

-- `GithubRoute`'s configuration
pub record Route : Type 0 where
  pub platform : Platform
  pub find_references : String → List Reference
  pub trusted_actors : List String
  pub bot_login_for_repo : String → Option String

-- `value in frozenset`
unfoldable pub in_set : List String → Json → Result Raised Bool
unfolding is_one_of is_text
in_set names (array items) = err type_error
in_set names (object members) = err type_error
in_set names value = ok (is_one_of names value)

-- Membership in a set of names.
abbrev pub among : List String → String → Bool
among names name = contains string_discrete name names

-- A text, unless it is empty.
unfoldable pub non_empty : Option String → Option String
non_empty none = none
non_empty (some s) = if is_empty (codes s) then none else some s

abbrev pub nested_at : Fields → String → String → Json
nested_at payload outer inner = at_object (as_object (at payload outer)) inner

-- `_repo_full_name`
unfoldable pub repo_full_name : Fields → Option String
unfolding at non_empty
repo_full_name payload = non_empty (as_text (nested_at payload "repository" "full_name"))

-- `_author_login`
unfoldable pub author_login : Fields → String → Option String
unfolding at non_empty
author_login obj key = non_empty (as_text (nested_at obj key "login"))

-- `_sender_login`
unfoldable pub sender_login : Fields → Option String
unfolding author_login
sender_login payload = author_login payload "sender"

-- `_require_issue`
abbrev pub required_object : Option Fields → Result Raised Fields
required_object none = err (rejected payload_error)
required_object (some found) = ok found

unfoldable pub require_issue : Fields → Result Raised Fields
unfolding at
require_issue payload = required_object (as_object (at payload "issue"))

abbrev pub named_label : String → Json → Bool
named_label name label = is_text name (at_object (as_object label) "name")

abbrev pub any_label : String → Option Items → Bool
any_label name none = false
any_label name (some labels) = any_item (named_label name) labels

-- `_has_label`
unfoldable pub has_label : Fields → String → Bool
unfolding at
has_label issue name = any_label name (as_list (at issue "labels"))

-- `_is_handoff`, of an action that is one of the two
unfoldable pub is_handoff : Json → Fields → Fields → Bool
unfolding has_label at is_text
is_handoff action issue payload =
    if is_text "labeled" action
    then named_label "handoff" (at payload "label")
    else has_label issue "handoff"

-- `_text` and `_int`
abbrev pub required : {A : Type 0} → Option A → Result Raised A
required none = err (rejected payload_error)
required (some a) = ok a

abbrev pub text_at : Fields → String → Result Raised String
text_at obj key = required (as_text (at obj key))

abbrev pub int_at : Fields → String → Result Raised ℤ
int_at obj key = required (as_integer (at obj key))

abbrev join_space : Option String → Option String → String
join_space none none = ""
join_space (some a) none = a
join_space none (some b) = b
join_space (some a) (some b) = String.◌++◌ a (String.◌++◌ " " b)

same_repo : (String → String) → String → Option String → Bool
same_repo lower repo none = true
same_repo lower repo (some named) = ite (string_discrete (lower named) (lower repo)) true false

-- The numbers of the references to one repo.
unfoldable pub numbers_in : (String → String) → String → List Reference → List ℤ
unfolding same_repo
numbers_in lower repo [] = []
numbers_in lower repo (r ∷ rest) =
    let others = numbers_in lower repo rest in
    if same_repo lower repo r.where_repo then pos r.number ∷ others else others

-- `_named_issues`
unfoldable pub named_issues : Route → Fields → String → List ℤ
unfolding at numbers_in
named_issues r pull repo =
    numbers_in r.platform.lower repo
      (r.find_references (join_space (as_text (at pull "title")) (as_text (at pull "body"))))

-- One entry of a run's `pull_requests`: its number, if it is into this repo.
same_text : String → Option String → Bool
same_text here none = false
same_text here (some url) = ite (string_discrete url here) true false

lowered : (String → String) → Option String → Option String
lowered lower none = none
lowered lower (some s) = some (lower s)

run_pull : (String → String) → String → Option Fields → Option ℤ
run_pull lower here none = none
run_pull lower here (some pull) =
    if same_text here (
      lowered lower
        (as_text (at_object (as_object (at_object (as_object (at pull "base")) "repo")) "url")))
    then as_integer (at pull "number")
    else none

abbrev github_api : String
github_api = "https://api.github.com"

run_pulls : (String → String) → String → Option Items → List ℤ
run_pulls lower here none = []
run_pulls lower here (some pulls) =
    collect_items (λ pull. run_pull lower here (as_object pull)) pulls

-- `_run_pull_numbers`
unfoldable pub run_pull_numbers : Route → Fields → String → List ℤ
unfolding at run_pulls run_pull lowered same_text collect_items
run_pull_numbers r run repo =
    run_pulls r.platform.lower
      (r.platform.lower (String.◌++◌ github_api (String.◌++◌ "/repos/" repo)))
      (as_list (at run "pull_requests"))

-- `_is_captain_bot`
abbrev same_login : (String → String) → String → Option String → Bool
same_login lower login none = false
same_login lower login (some bot) =
    not (is_empty (codes bot)) && ite (string_discrete (lower login) (lower bot)) true false

unfoldable pub is_captain_bot : Route → String → String → Bool
is_captain_bot r repo login = same_login r.platform.lower login (r.bot_login_for_repo repo)

both_login : Route → Option String → Option String → Bool
both_login r none login = false
both_login r (some repo) none = false
both_login r (some repo) (some login) = is_captain_bot r repo login

-- `_sender_is_captain_bot`
unfoldable pub sender_is_captain_bot : Route → Fields → Bool
unfolding both_login is_captain_bot
sender_is_captain_bot r payload = both_login r (repo_full_name payload) (sender_login payload)

-- `_require_trusted_login`
unfoldable pub require_trusted_login : Route → Option String → Result Raised Unit
require_trusted_login r none = err (rejected untrusted_sender_error)
require_trusted_login r (some login) =
    if among (map r.platform.lower r.trusted_actors) (r.platform.lower login)
    then ok tt
    else err (rejected untrusted_sender_error)

-- `str(number)`
digit_in : ℕ → String → String
digit_in n String.[] = ""
digit_in zero (String.◌∷◌ c s) = String.◌∷◌ c ""
digit_in (suc n) (String.◌∷◌ c s) = digit_in n s

unfoldable pub decimal_from : ℕ → ℕ → String → String
unfolding digit_in
decimal_from zero n acc = acc
decimal_from (suc fuel) n acc =
    let next = String.◌++◌ (digit_in (n % 10) "0123456789") acc in
    if ltb n 10 then next else decimal_from fuel (n / 10) next

unfoldable pub decimal : ℤ → String
unfolding decimal_from
decimal (pos n) = decimal_from (suc n) n ""
decimal (negsuc n) = String.◌++◌ "-" (decimal_from (suc (suc n)) (suc n) "")
