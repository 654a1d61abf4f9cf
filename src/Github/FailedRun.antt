-- ===== src/Github/FailedRun.antt =====
-- When a failed run on the captain's pull request wakes it (routes/github.py).
use basecradle_router.Base.Integer.{ℤ}
use basecradle_router.Base.{
  ◌≡◌, refl, true, Option, none, some, String, List, [], ◌∷◌, map, Bool-cases, inl, inr, All,
}
use basecradle_router.Base.Json.{Fields, at, as_object, is_text}
use basecradle_router.Base.Result.{ok, ok-injective}
use basecradle_router.Models.{Event}
use basecradle_router.Github.{Route, author_login, repo_full_name, run_pull_numbers, is_captain_bot}
use basecradle_router.Github.Ledger.{IssueLedger}
use basecradle_router.Github.Kept.{IsValid}
use basecradle_router.Github.Pulls.{PullState, PullLedger, get_pull}
use basecradle_router.Github.Handlers.{
  closed_pull_request, ambiguous_pull_request, unknown_pull_request, ignored, woke,
}
use basecradle_router.Github.OwnPulls.{
  all_known, own_pulls, open_pulls, failed_on, failed_own, failed_known, failed_pulls, failed_in,
  failed_run, decide_workflow_run,
}
use basecradle_router.Github.Gates.{quiet-else, ignored-quiet}
use basecradle_router.Github.Captain.{OwnWake, wake_on_own_pull-OwnWake, unmatched-quiet}

-- A pull request that is open and the captain's.
abbrev pub OpenOwn : Route → String → PullState → Type 0
OpenOwn r repo pull = (pull.is_open ≡ true) × (is_captain_bot r repo pull.author ≡ true)

own_pulls-All :
    (r : Route) (repo : String) (ps : List PullState)
    → All (λ (p : PullState). is_captain_bot r repo p.author ≡ true) (own_pulls r repo ps)
unfolding own_pulls
own_pulls-All r repo [] = tt
own_pulls-All r repo (p ∷ ps) = elim (Bool-cases (is_captain_bot r repo p.author)) [
  | inl captain ↦ rw captain (captain, own_pulls-All r repo ps)
  | inr other ↦ rw other (own_pulls-All r repo ps)
]

open_pulls-All :
    (r : Route) (repo : String) (ps : List PullState)
    → All (λ (p : PullState). is_captain_bot r repo p.author ≡ true) ps
    → All (OpenOwn r repo) (open_pulls ps)
unfolding open_pulls
open_pulls-All r repo [] h = tt
open_pulls-All r repo (p ∷ ps) h = elim (Bool-cases p.is_open) [
  | inl is_open ↦ rw is_open ((refl, h.0), open_pulls-All r repo ps h.1)
  | inr closed ↦ rw closed (open_pulls-All r repo ps h.1)
]

-- The one open pull request of the captain's that a run is on.
abbrev pub OnlyOpenOwn :
    Route → IssueLedger → Fields → Option String → String → List PullState → Event → Type 0
OnlyOpenOwn r ledger run delivery repo known event =
    (pull : PullState) × (open_pulls (own_pulls r repo known) ≡ pull ∷ [])
    × OpenOwn r repo pull
    × OwnWake r ledger repo (author_login run "triggering_actor") delivery event

failed_on-OwnWake :
    (r : Route) (ledger : IssueLedger) (run : Fields) (delivery : Option String) (repo : String)
    (pulls : List PullState) (event : Event)
    → IsValid ledger
    → All (OpenOwn r repo) pulls
    → failed_on r ledger run delivery repo pulls ≡ ok (woke event)
    → (pull : PullState) × (pulls ≡ pull ∷ [])
      × OpenOwn r repo pull
      × OwnWake r ledger repo (author_login run "triggering_actor") delivery event
unfolding failed_on
failed_on-OwnWake r ledger run delivery repo [] event v own h =
    absurd (unmatched-quiet closed_pull_request event (ok-injective h))
failed_on-OwnWake r ledger run delivery repo (pull ∷ []) event v own h = (
  pull,
  refl,
  own.0,
  wake_on_own_pull-OwnWake r ledger repo pull.named _ _ "workflow_run" delivery _ event v h,
)
failed_on-OwnWake r ledger run delivery repo (pull ∷ other ∷ pulls) event v own h =
    absurd (unmatched-quiet ambiguous_pull_request event (ok-injective h))

failed_own-cases :
    (r : Route) (ledger : IssueLedger) (run : Fields) (delivery : Option String) (repo : String)
    (own : List PullState) (event : Event)
    → failed_own r ledger run delivery repo own ≡ ok (woke event)
    → failed_on r ledger run delivery repo (open_pulls own) ≡ ok (woke event)
unfolding failed_own
failed_own-cases r ledger run delivery repo [] event h =
    absurd (ignored-quiet event (ok-injective h))
failed_own-cases r ledger run delivery repo (pull ∷ own) event h = h

failed_known-cases :
    (r : Route) (ledger : IssueLedger) (run : Fields) (delivery : Option String) (repo : String)
    (known : Option (List PullState)) (event : Event)
    → failed_known r ledger run delivery repo known ≡ ok (woke event)
    → (pulls : List PullState) × (known ≡ some pulls)
      × (failed_on r ledger run delivery repo (open_pulls (own_pulls r repo pulls))
          ≡ ok (woke event))
unfolding failed_known
failed_known-cases r ledger run delivery repo none event h =
    absurd (unmatched-quiet unknown_pull_request event (ok-injective h))
failed_known-cases r ledger run delivery repo (some pulls) event h =
    (pulls, refl, failed_own-cases r ledger run delivery repo (own_pulls r repo pulls) event h)

failed_pulls-cases :
    (r : Route) (ledger : IssueLedger) (pulls : PullLedger) (run : Fields)
    (delivery : Option String) (repo : String) (numbers : List ℤ) (event : Event)
    → failed_pulls r ledger pulls run delivery repo numbers ≡ ok (woke event)
    → failed_known r ledger run delivery repo
        (all_known (map (get_pull r.platform.lower pulls repo) numbers))
      ≡ ok (woke event)
unfolding failed_pulls
failed_pulls-cases r ledger pulls run delivery repo [] event h =
    absurd (ignored-quiet event (ok-injective h))
failed_pulls-cases r ledger pulls run delivery repo (n ∷ numbers) event h = h

failed_in-cases :
    (r : Route) (ledger : IssueLedger) (pulls : PullLedger) (run : Fields)
    (delivery : Option String) (repo : Option String) (event : Event)
    → failed_in r ledger pulls run delivery repo ≡ ok (woke event)
    → (name : String) × (repo ≡ some name)
      × (failed_pulls r ledger pulls run delivery name (run_pull_numbers r run name)
          ≡ ok (woke event))
unfolding failed_in
failed_in-cases r ledger pulls run delivery none event h = absurd (cc)
failed_in-cases r ledger pulls run delivery (some name) event h = (name, refl, h)

failed_run-cases :
    (r : Route) (ledger : IssueLedger) (pulls : PullLedger) (payload : Fields)
    (delivery : Option String) (run : Option Fields) (event : Event)
    → failed_run r ledger pulls payload delivery run ≡ ok (woke event)
    → (found : Fields) × (run ≡ some found)
      × (is_text "failure" (at found "conclusion") ≡ true)
      × (failed_in r ledger pulls found delivery (repo_full_name payload) ≡ ok (woke event))
unfolding failed_run
failed_run-cases r ledger pulls payload delivery none event h =
    absurd (ignored-quiet event (ok-injective h))
failed_run-cases r ledger pulls payload delivery (some found) event h =
    let (failed, h1) = (quiet-else _ ignored _ event (ignored-quiet event)).0 h in
    (found, refl, failed, h1)

-- A `workflow_run` delivery that wakes, over a valid issue ledger, is a completed run that failed;
-- the pull ledger knows every pull request that the run lists for the repo, and exactly one of them
-- is both the captain's and open; the run's `triggering_actor` is the captain's bot or on the
-- allow-list; and the event is for an issue of the same repo, up to the case of letters, that the
-- ledger holds, open and with the handoff label, and that the event's own recheck would not drop.
pub decide_workflow_run-OnlyOpenOwn :
    (r : Route) (ledger : IssueLedger) (pulls : PullLedger) (payload : Fields)
    (delivery : Option String) (event : Event)
    → IsValid ledger
    → decide_workflow_run r ledger pulls payload delivery ≡ ok (woke event)
    → (run : Fields) × (repo : String) × (known : List PullState) × (is_text "completed"
          (at payload "action")
        ≡ true)
      × (as_object (at payload "workflow_run") ≡ some run)
      × (is_text "failure" (at run "conclusion") ≡ true)
      × (repo_full_name payload ≡ some repo)
      × (all_known (map (get_pull r.platform.lower pulls repo) (run_pull_numbers r run repo))
          ≡ some known)
      × OnlyOpenOwn r ledger run delivery repo known event
unfolding decide_workflow_run
decide_workflow_run-OnlyOpenOwn r ledger pulls payload delivery event v h =
    let (completed, h1) = (quiet-else _ ignored _ event (ignored-quiet event)).0 h in
    let (run, there, failed, h2) = failed_run-cases r ledger pulls payload delivery _ event h1 in
    let (repo, named, h3) = failed_in-cases r ledger pulls run delivery _ event h2 in
    let h4 = failed_pulls-cases r ledger pulls run delivery repo _ event h3 in
    let (known, all_there, h5) = failed_known-cases r ledger run delivery repo _ event h4 in
    let own =
      failed_on-OwnWake r ledger run delivery repo _ event v
        (open_pulls-All r repo _ (own_pulls-All r repo known)) h5 in
    (run, repo, known, completed, there, failed, named, all_there, own)
