-- ===== src/Github/Pulls.antt =====
-- `PullLedger` (routes/github.py). A frozenset of issue numbers is the list of them.
use basecradle_router.Base.Integer.{ℤ, ℤ_discrete}
use basecradle_router.Base.{
  ℕ, Bool, false, not, ◌&&◌, ◌||◌, Option, none, some, String, List, Dict, get, ltb, ◌==◌,
  if◌then◌else◌, codes, string_discrete, pair_discrete,
}
use basecradle_router.Base.Json.{Json, Fields, at, as_object, as_text, as_integer}
use basecradle_router.Base.Ordered.{remember}
use basecradle_router.Models.{is_empty}
use basecradle_router.Routes.{parse_timestamp}
use basecradle_router.Github.{Route, author_login, named_issues}
use basecradle_router.Github.Ledger.{open_state}

-- `_PullState`
pub record PullState : Type 0 where
  pub updated_at : ℕ
  pub is_open : Bool
  pub author : String
  pub number : ℤ
  pub url : String
  pub named : List ℤ

pub record PullLedger : Type 0 where
  pub capacity : ℕ
  pub pulls : Dict (String × ℤ) PullState

unfoldable pub key_discrete : Discrete (String × ℤ)
unfolding pair_discrete
key_discrete = pair_discrete string_discrete ℤ_discrete

unfoldable pub pull_parts :
    Option ℤ → Option String → Option Bool → Option String → Option ℕ → List ℤ → Option PullState
pull_parts (some number) (some url) (some is_open) (some login) (some t) named =
    if is_empty (codes url)
    then none
    else some (record {
      updated_at = t;
      is_open = is_open;
      author = login;
      number = number;
      url = url;
      named = named;
    })
pull_parts _ _ _ _ _ named = none

-- The report a pull request object makes, if it is one.
unfoldable pub pull_report : Route → String → Option Fields → Option PullState
unfolding at pull_parts open_state author_login
pull_report r repo none = none
pull_report r repo (some pull) =
    pull_parts (as_integer (at pull "number")) (as_text (at pull "html_url"))
      (open_state (at pull "state")) (author_login pull "user")
      (parse_timestamp r.platform (at pull "updated_at")) (named_issues r pull repo)

-- Whether a report is older than what is known, or would reopen a closed pull request in its second.
unfoldable pub stale : Option PullState → PullState → Bool
stale none report = false
stale (some known) report =
    ltb report.updated_at known.updated_at
    || (report.updated_at == known.updated_at && not known.is_open && report.is_open)

-- The part of `observe` under the lock.
unfoldable pub take_pull : PullLedger → String × ℤ → PullState → PullLedger
unfolding stale
take_pull ledger key report =
    if stale (get key_discrete key ledger.pulls) report then ledger else record {
      capacity = ledger.capacity;
      pulls = remember key_discrete ledger.capacity key report ledger.pulls;
    }

observe_report : (String → String) → PullLedger → String → Option PullState → PullLedger
unfolding take_pull
observe_report lower ledger repo none = ledger
observe_report lower ledger repo (some report) = take_pull ledger (lower repo, report.number) report

-- `observe`
unfoldable pub observe_pull : Route → PullLedger → String → Json → PullLedger
unfolding observe_report pull_report
observe_pull r ledger repo pull =
    observe_report r.platform.lower ledger repo (pull_report r repo (as_object pull))

-- `get`
unfoldable pub get_pull : (String → String) → PullLedger → String → ℤ → Option PullState
get_pull lower ledger repo number = get key_discrete (lower repo, number) ledger.pulls
