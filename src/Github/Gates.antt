-- ===== src/Github/Gates.antt =====
-- Which `issues` and `issue_comment` deliveries wake (routes/github.py).
use mathlib.Core.Option.{some-injective}
use basecradle_router.Base.{
  ◌≡◌, ◌↔◌, ◌∙◌, refl, ap, subst, inl, inr, Bool, true, false, not, Option, none, some, String, [],
  ◌∷◌, map, contains, string_discrete, if◌then◌else◌, Bool-cases,
}
use basecradle_router.Base.Json.{Json, Fields, at, as_object, is_null, is_text}
use basecradle_router.Base.Result.{Result, ok, bind-ok_iff, ok-injective}
use basecradle_router.Models.{Event}
use basecradle_router.Routes.{parse_timestamp}
use basecradle_router.Github.{
  Raised, Route, nested_at, in_set, sender_login, require_issue, required_object, has_label,
  is_handoff, sender_is_captain_bot, require_trusted_login,
}
use basecradle_router.Github.Handlers.{
  Outcome, ignored, parked, woke, wake_event, trusted_wake, issue_gates, decide_issue,
  decide_issues, comment_gates, decide_comment,
}

-- A login of the allow-list, matched as GitHub matches logins.
abbrev pub Trusted : Route → Option String → Type 0
Trusted r actor =
    (login : String) × (actor ≡ some login)
    × (contains string_discrete (r.platform.lower login) (map r.platform.lower r.trusted_actors)
        ≡ true)

pub require_trusted_login_iff :
    (r : Route) (actor : Option String) → (require_trusted_login r actor ≡ ok tt) ↔ Trusted r actor
unfolding require_trusted_login
require_trusted_login_iff r none =
    ((λ e. absurd (cc)), (λ h. let (login, clash, member) = h in absurd (cc)))
require_trusted_login_iff r (some login) = (
  λ e.
      elim (Bool-cases (
        contains string_discrete (r.platform.lower login)
          (map r.platform.lower r.trusted_actors))) [
            | inl member ↦ (login, refl, member)
            | inr stranger ↦ absurd (let clash = rw stranger at e in cc)
          ],
  λ h.
      let (other, same, member) = h in
      let one : other ≡ login = cc in
      rw
        (subst
          (λ l.
            contains string_discrete (r.platform.lower l) (map r.platform.lower r.trusted_actors)
            ≡ true)
          one member)
        refl,
)

-- A quiet branch is never a wake.
pub quiet-then :
    (b : Bool) (x : Outcome) (k : Result Raised Outcome) (e : Event)
    → (x ≡ woke e → ⊥)
    → (Path (Result Raised Outcome) (if b then ok x else k) (ok (woke e)))
      ↔ ((b ≡ false) × (k ≡ ok (woke e)))
quiet-then true x k e q = ((λ h. absurd (q (ok-injective h))), (λ h. absurd (cc)))
quiet-then false x k e q = ((λ h. (refl, h)), (λ h. h.1))

pub quiet-else :
    (b : Bool) (x : Outcome) (k : Result Raised Outcome) (e : Event)
    → (x ≡ woke e → ⊥)
    → (Path (Result Raised Outcome) (if b then k else ok x) (ok (woke e)))
      ↔ ((b ≡ true) × (k ≡ ok (woke e)))
quiet-else false x k e q = ((λ h. absurd (q (ok-injective h))), (λ h. absurd (cc)))
quiet-else true x k e q = ((λ h. (refl, h)), (λ h. h.1))

pub ignored-quiet : (e : Event) → ignored ≡ woke e → ⊥
ignored-quiet e h = cc

pub parked-quiet : (u : Json) (e : Event) → parked u ≡ woke e → ⊥
parked-quiet u e h = cc

required_object_iff :
    (o : Option Fields) (issue : Fields) → (required_object o ≡ ok issue) ↔ (o ≡ some issue)
required_object_iff none issue = ((λ h. absurd (cc)), (λ h. absurd (cc)))
required_object_iff (some x) issue =
    ((λ h. ap some (ok-injective h)), (λ h. ap ok (some-injective _ _ h)))

trusted_wake_iff :
    (r : Route) (payload issue : Fields) (event_type : String) (delivery : Option String)
    (stamp : Json) (event : Event)
    → (trusted_wake r payload issue event_type delivery stamp ≡ ok (woke event)) ↔ (
        Trusted r (sender_login payload)
        × (wake_event payload issue event_type delivery (parse_timestamp r.platform stamp)
            ≡ ok (woke event)))
unfolding trusted_wake
trusted_wake_iff r payload issue event_type delivery stamp event = (
  λ h.
      let (u, trusted, made) =
        (bind-ok_iff (require_trusted_login r (sender_login payload)) _ (woke event)).0 h in
      ((require_trusted_login_iff r (sender_login payload)).0 trusted, made),
  λ h. rw ((require_trusted_login_iff r (sender_login payload)).1 h.0) h.1,
)

-- A comment on a handoff issue, not parked, that is not the captain's own.
abbrev pub Reply : Route → Fields → Fields → Type 0
Reply r payload issue =
    (not (is_null (at issue "pull_request")) ≡ false)
    × (not (has_label issue "handoff") ≡ false)
    × (has_label issue "Do Not Work" ≡ false)
    × (sender_is_captain_bot r payload ≡ false)

comment_gates_iff :
    (r : Route) (payload issue : Fields) (delivery : Option String) (event : Event)
    → (comment_gates r payload delivery issue ≡ ok (woke event)) ↔ (
        Reply r payload issue
        × (trusted_wake r payload issue "issue_comment" delivery
              (nested_at payload "comment" "created_at")
            ≡ ok (woke event)))
unfolding comment_gates
comment_gates_iff r payload issue delivery event = (
  λ h.
      let (on_issue, h1) = (quiet-then _ ignored _ event (ignored-quiet event)).0 h in
      let (labelled, h2) = (quiet-then _ ignored _ event (ignored-quiet event)).0 h1 in
      let (working, h3) =
        (quiet-then _ (parked (at issue "html_url")) _ event (parked-quiet _ event)).0 h2 in
      let (peer, h4) = (quiet-then _ ignored _ event (ignored-quiet event)).0 h3 in
      ((on_issue, labelled, working, peer), h4),
  λ h.
      let ((on_issue, labelled, working, peer), made) = h in
      rw (on_issue, labelled, working, peer) made,
)

-- A comment delivery gives the event `e` exactly if a comment was created, on an issue and not a pull
-- request, the issue carries `handoff` and not `Do Not Work`, the sender is not the captain's own
-- bot, the sender's login is on the allow-list in any case of letters, and the payload and the
-- delivery header make the event `e`.
pub decide_comment_iff :
    (r : Route) (payload : Fields) (delivery : Option String) (event : Event)
    → (decide_comment r payload delivery ≡ ok (woke event)) ↔ (
        (issue : Fields) × (is_text "created" (at payload "action") ≡ true)
        × (as_object (at payload "issue") ≡ some issue)
        × Reply r payload issue
        × Trusted r (sender_login payload)
        × (wake_event payload issue "issue_comment" delivery
              (parse_timestamp r.platform (nested_at payload "comment" "created_at"))
            ≡ ok (woke event)))
unfolding decide_comment require_issue
decide_comment_iff r payload delivery event = (
  λ h.
      let (created, h1) = (quiet-else _ ignored _ event (ignored-quiet event)).0 h in
      let (issue, there, h2) =
        (bind-ok_iff (required_object (as_object (at payload "issue")))
            (comment_gates r payload delivery) (woke event)).0
          h1 in
      let (reply, h3) = (comment_gates_iff r payload issue delivery event).0 h2 in
      let (trusted, made) = (trusted_wake_iff r payload issue _ delivery _ event).0 h3 in
      (issue, created, (required_object_iff _ issue).0 there, reply, trusted, made),
  λ h.
      let (issue, created, there, reply, trusted, made) = h in
      rw (created, there)
        ((comment_gates_iff r payload issue delivery event).1
          (reply, (trusted_wake_iff r payload issue _ delivery _ event).1 (trusted, made))),
)

issue_gates_iff :
    (r : Route) (payload issue : Fields) (delivery : Option String) (event : Event)
    → (issue_gates r payload delivery issue ≡ ok (woke event)) ↔ (
        (is_handoff (at payload "action") issue payload ≡ true)
        × (has_label issue "Do Not Work" ≡ false)
        × (trusted_wake r payload issue "issues" delivery (
              if is_text "opened" (at payload "action")
              then at issue "created_at"
              else at issue "updated_at")
            ≡ ok (woke event)))
unfolding issue_gates
issue_gates_iff r payload issue delivery event = (
  λ h.
      let (handed, h1) = (quiet-else _ ignored _ event (ignored-quiet event)).0 h in
      let (working, h2) =
        (quiet-then _ (parked (at issue "html_url")) _ event (parked-quiet _ event)).0 h1 in
      (handed, working, h2),
  λ h. let (handed, working, made) = h in rw (handed, working) made,
)

decide_issue_iff :
    (r : Route) (payload : Fields) (delivery : Option String) (actionable : Bool) (event : Event)
    → (decide_issue r payload delivery actionable ≡ ok (woke event)) ↔ (
        (actionable ≡ true)
        × (issue : Fields) × (as_object (at payload "issue") ≡ some issue)
        × (issue_gates r payload delivery issue ≡ ok (woke event)))
unfolding decide_issue require_issue
decide_issue_iff r payload delivery false event = ((λ h. absurd (cc)), (λ h. absurd (cc)))
decide_issue_iff r payload delivery true event = (
  λ h.
      let (issue, there, h1) =
        (bind-ok_iff (required_object (as_object (at payload "issue")))
            (issue_gates r payload delivery) (woke event)).0
          h in
      (refl, issue, (required_object_iff _ issue).0 there, h1),
  λ h. let (yes_action, issue, there, made) = h in rw there made,
)

-- An `issues` delivery gives the event `e` exactly if its action is `opened` or `labeled`, the issue
-- was opened with the label `handoff` or that label is the one just added, the issue does not carry
-- `Do Not Work`, the sender's login is on the allow-list in any case of letters, and the payload and
-- the delivery header make the event `e`, stamped with the issue's creation if it was opened and
-- with its last update if it was labeled.
pub decide_issues_iff :
    (r : Route) (payload : Fields) (delivery : Option String) (event : Event)
    → (decide_issues r payload delivery ≡ ok (woke event)) ↔ (
        (issue : Fields) × (in_set ("opened" ∷ "labeled" ∷ []) (at payload "action") ≡ ok true)
        × (as_object (at payload "issue") ≡ some issue)
        × (is_handoff (at payload "action") issue payload ≡ true)
        × (has_label issue "Do Not Work" ≡ false)
        × Trusted r (sender_login payload)
        × (wake_event payload issue "issues" delivery (
              parse_timestamp r.platform (
                if is_text "opened" (at payload "action")
                then at issue "created_at"
                else at issue "updated_at"))
            ≡ ok (woke event)))
unfolding decide_issues
decide_issues_iff r payload delivery event = (
  λ h.
      let (actionable, asked, h1) =
        (bind-ok_iff (in_set ("opened" ∷ "labeled" ∷ []) (at payload "action"))
            (decide_issue r payload delivery) (woke event)).0
          h in
      let (yes_action, issue, there, h2) =
        (decide_issue_iff r payload delivery actionable event).0 h1 in
      let (handed, working, h3) = (issue_gates_iff r payload issue delivery event).0 h2 in
      let (trusted, made) = (trusted_wake_iff r payload issue _ delivery _ event).0 h3 in
      (issue, asked ∙ ap ok yes_action, there, handed, working, trusted, made),
  λ h.
      let (issue, asked, there, handed, working, trusted, made) = h in
      rw asked (
        (decide_issue_iff r payload delivery true event).1 (
          refl,
          issue,
          there,
          (issue_gates_iff r payload issue delivery event).1 (
            handed,
            working,
            (trusted_wake_iff r payload issue _ delivery _ event).1 (trusted, made),
          ),
        )),
)
