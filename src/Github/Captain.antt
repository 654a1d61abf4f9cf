-- ===== src/Github/Captain.antt =====
-- When the captain's own pull request wakes it (routes/github.py).
use basecradle_router.Base.Integer.{ℤ}
use basecradle_router.Base.{
  ℕ, ◌≡◌, ◌⊎◌, refl, ap, inl, inr, true, false, Option, none, some, String, List, arith, Bool-cases,
  contains, string_discrete, get,
}
use basecradle_router.Base.Json.{string, Fields, at, as_object, is_true, is_text}
use basecradle_router.Base.Result.{ok, err, bind-ok_iff, ok-injective, Result-cases}
use basecradle_router.Models.{Event, IssueRef}
use basecradle_router.Github.{
  Route, author_login, sender_login, text_at, int_at, repo_full_name, is_captain_bot,
}
use basecradle_router.Github.Ledger.{
  IssueState, IssueLedger, reason_to_drop, drop_of, open_handoffs,
}
use basecradle_router.Github.Kept.{IsValid}
use basecradle_router.Github.Handlers.{Reason, ignored, parked, unmatched, woke}
use basecradle_router.Github.OwnPulls.{
  merge_target, admit_actor, is_parked, wake_on, wake_on_own_pull, own_merge, merged_in,
  merged_pull, decide_pull_request,
}
use basecradle_router.Github.Normalize.{recheck}
use basecradle_router.Github.Gates.{
  Trusted, require_trusted_login_iff, quiet-then, quiet-else, ignored-quiet, parked-quiet,
}
use basecradle_router.Github.Woken.{build_event-Built, HandoffFor, Built-HandoffFor}
use basecradle_router.Github.Rechecked.{Held, merge_target-Held}

-- Who may cause a wake on the captain's pull request: the captain itself, or a login of the allow-list.
abbrev pub Admitted : Route → String → Option String → Type 0
Admitted r repo actor =
    ((login : String) × (actor ≡ some login) × (is_captain_bot r repo login ≡ true))
    ⊎ Trusted r actor

admit_actor-Admitted :
    (r : Route) (repo : String) (actor : Option String)
    → admit_actor r repo actor ≡ ok tt
    → Admitted r repo actor
unfolding admit_actor
admit_actor-Admitted r repo none h = inr ((require_trusted_login_iff r none).0 h)
admit_actor-Admitted r repo (some login) h = elim (Bool-cases (is_captain_bot r repo login)) [
  | inl captain ↦ inl (login, refl, captain)
  | inr other ↦ inr ((require_trusted_login_iff r (some login)).0 (rw other at h))
]

drop_of-live :
    (s : IssueState)
    → s.is_open ≡ true
    → contains string_discrete "handoff" s.labels ≡ true
    → is_parked (drop_of (some s)) ≡ false
    → drop_of (some s) ≡ none
unfolding drop_of
drop_of-live s is_open labelled working = ground (arith, is_open, labelled, working)

-- What a wake on the captain's pull request comes with.
abbrev pub OwnWake : Route → IssueLedger → String → Option String → Option String → Event → Type 0
OwnWake r ledger repo actor delivery event =
    (target : IssueRef) × (event.origin ≡ some target)
    × Held r.platform.lower (r.platform.lower repo) ledger.issues target
    × (event.recipient.value ≡ target.repo)
    × (r.platform.lower target.repo ≡ r.platform.lower repo)
    × HandoffFor delivery event
    × (recheck ledger event ≡ none)
    × Admitted r repo actor

wake_on-OwnWake :
    (r : Route) (ledger : IssueLedger) (repo : String) (actor : Option String)
    (note event_type : String) (delivery : Option String) (occurred_at : Option ℕ)
    (target : IssueRef) (event : Event)
    → Held r.platform.lower (r.platform.lower repo) ledger.issues target
    → wake_on r ledger repo actor note event_type delivery occurred_at (ok target) ≡ ok (woke event)
    → OwnWake r ledger repo actor delivery event
unfolding wake_on recheck reason_to_drop
wake_on-OwnWake r ledger repo actor note event_type delivery occurred_at target event held h =
    let (working, h1) =
      (quiet-then (is_parked (reason_to_drop ledger target.url)) (parked (string target.url)) _
          event (parked-quiet _ event)).0
        h in
    let (u, admitted, h2) = (bind-ok_iff (admit_actor r repo actor) _ (woke event)).0 h1 in
    let built = build_event-Built target _ event_type delivery occurred_at event h2 in
    let (text, named, addressed, source, kind, there, filled, at_time, type, checked, valid) =
      built in
    let (state, found, is_open, labelled, here, fine) = held in
    let live : drop_of (get string_discrete target.url ledger.issues) ≡ none =
      rw found (drop_of-live state is_open labelled (rw found at working)) in
    (
      target,
      named,
      held,
      ap (λ x. x.value) addressed,
      here,
      Built-HandoffFor target _ event_type delivery occurred_at event built,
      rw named live,
      admit_actor-Admitted r repo actor admitted,
    )

pub unmatched-quiet : (reason : Reason) (e : Event) → unmatched reason ≡ woke e → ⊥
unmatched-quiet reason e h = cc

pub wake_on_own_pull-OwnWake :
    (r : Route) (ledger : IssueLedger) (repo : String) (named : List ℤ) (actor : Option String)
    (note event_type : String) (delivery : Option String) (occurred_at : Option ℕ) (event : Event)
    → IsValid ledger
    → wake_on_own_pull r ledger repo named actor note event_type delivery occurred_at
      ≡ ok (woke event)
    → OwnWake r ledger repo actor delivery event
unfolding wake_on_own_pull
wake_on_own_pull-OwnWake r ledger repo named actor note event_type delivery occurred_at event v h =
    elim (Result-cases (merge_target (open_handoffs r.platform.lower ledger repo) named)) [
      | inl (target, found) ↦
          wake_on-OwnWake r ledger repo actor note event_type delivery occurred_at target event
            (merge_target-Held r.platform.lower ledger repo named target v found) (rw found at h)
      | inr (reason, nothing) ↦
          let shown : wake_on r ledger repo actor note event_type delivery occurred_at (err reason)
              ≡ ok (woke event) =
            rw nothing at h in
          absurd (unmatched-quiet reason event (ok-injective (unfold wake_on in shown)))
    ]

own_merge-OwnWake :
    (r : Route) (ledger : IssueLedger) (payload : Fields) (delivery : Option String) (pull : Fields)
    (repo : String) (author : Option String) (event : Event)
    → IsValid ledger
    → own_merge r ledger payload delivery pull repo author ≡ ok (woke event)
    → (login : String) × (author ≡ some login)
      × (is_captain_bot r repo login ≡ true)
      × OwnWake r ledger repo (sender_login payload) delivery event
unfolding own_merge
own_merge-OwnWake r ledger payload delivery pull repo none event v h =
    absurd (ignored-quiet event (ok-injective h))
own_merge-OwnWake r ledger payload delivery pull repo (some login) event v h =
    let (captain, h1) = (quiet-else _ ignored _ event (ignored-quiet event)).0 h in
    let (number, k2, h2) = (bind-ok_iff (int_at pull "number") _ (woke event)).0 h1 in
    let (url, k3, h3) = (bind-ok_iff (text_at pull "html_url") _ (woke event)).0 h2 in
    (
      login,
      refl,
      captain,
      wake_on_own_pull-OwnWake r ledger repo _ (sender_login payload) _ "pull_request" delivery _
          event v h3,
    )

merged_in-OwnWake :
    (r : Route) (ledger : IssueLedger) (payload : Fields) (delivery : Option String) (pull : Fields)
    (repo : Option String) (event : Event)
    → IsValid ledger
    → merged_in r ledger payload delivery pull repo ≡ ok (woke event)
    → (name : String) × (repo ≡ some name)
      × (own_merge r ledger payload delivery pull name (author_login pull "user") ≡ ok (woke event))
unfolding merged_in
merged_in-OwnWake r ledger payload delivery pull none event v h = absurd (cc)
merged_in-OwnWake r ledger payload delivery pull (some name) event v h = (name, refl, h)

merged_pull-cases :
    (r : Route) (ledger : IssueLedger) (payload : Fields) (delivery : Option String)
    (pull : Option Fields) (event : Event)
    → merged_pull r ledger payload delivery pull ≡ ok (woke event)
    → (found : Fields) × (pull ≡ some found)
      × (is_true (at found "merged") ≡ true)
      × (merged_in r ledger payload delivery found (repo_full_name payload) ≡ ok (woke event))
unfolding merged_pull
merged_pull-cases r ledger payload delivery none event h =
    absurd (ignored-quiet event (ok-injective h))
merged_pull-cases r ledger payload delivery (some found) event h =
    let (merged, h1) = (quiet-else _ ignored _ event (ignored-quiet event)).0 h in
    (found, refl, merged, h1)

-- A `pull_request` delivery that wakes, over a valid issue ledger, is the merge of a pull request
-- whose author is the captain's bot of the repo; its sender is that bot or on the allow-list; and
-- the event is for an issue of the same repo, up to the case of letters, that the ledger holds
-- under its URL, open and with the handoff label, and that the event's own recheck would not drop.
-- The event is a well-formed GitHub handoff for the issue's repo, with the delivery header's id.
pub decide_pull_request-OwnWake :
    (r : Route) (ledger : IssueLedger) (payload : Fields) (delivery : Option String) (event : Event)
    → IsValid ledger
    → decide_pull_request r ledger payload delivery ≡ ok (woke event)
    → (pull : Fields) × (repo : String) × (author : String) × (is_text "closed"
          (at payload "action")
        ≡ true)
      × (as_object (at payload "pull_request") ≡ some pull)
      × (is_true (at pull "merged") ≡ true)
      × (repo_full_name payload ≡ some repo)
      × (author_login pull "user" ≡ some author)
      × (is_captain_bot r repo author ≡ true)
      × OwnWake r ledger repo (sender_login payload) delivery event
unfolding decide_pull_request
decide_pull_request-OwnWake r ledger payload delivery event v h =
    let (closed, h1) = (quiet-else _ ignored _ event (ignored-quiet event)).0 h in
    let (pull, there, merged, h2) = merged_pull-cases r ledger payload delivery _ event h1 in
    let (repo, named, h3) = merged_in-OwnWake r ledger payload delivery pull _ event v h2 in
    let (author, wrote, captain, own) =
      own_merge-OwnWake r ledger payload delivery pull repo _ event v h3 in
    (pull, repo, author, closed, there, merged, named, wrote, captain, own)
