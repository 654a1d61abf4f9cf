-- ===== src/Github/Woken.antt =====
-- The event that a wake of `GithubRoute` carries (routes/github.py).
use basecradle_router.Base.{
  ℕ, ◌≡◌, refl, ap, subst, Bool, true, false, Option, none, some, String, codes,
}
use Prim.Native.String
use basecradle_router.Base.Json.{Fields, at, as_object, as_text, as_integer}
use basecradle_router.Base.Result.{Result, ok, err, bind-ok_iff, ok-injective, raise_if}
use basecradle_router.Models.{
  handoff, is_empty, Error, Event, IssueRef, IssueRef_post_init, Recipient_post_init,
  Event_post_init,
}
use basecradle_router.Routes.{payload_error}
use basecradle_router.Github.{rejected, required, text_at, int_at}
use basecradle_router.Github.Handlers.{
  woke, well_formed, event_for, build_event, origin_of, wake_event, handoff_trigger, trusted_text,
}

raise_if-ok : {E : Type 0} (b : Bool) (e : E) → raise_if b e ≡ ok tt → b ≡ false
raise_if-ok true e h = absurd (cc)
raise_if-ok false e h = refl

well_formed-ok : (x : Result Error Unit) → well_formed x ≡ ok tt → x ≡ ok tt
well_formed-ok (ok tt) h = refl
well_formed-ok (err e) h = absurd (cc)

-- What the event of `_build_event` holds, field by field, and what was checked of it.
abbrev pub Built : IssueRef → String → String → Option String → Option ℕ → Event → Type 0
Built origin wake_arg event_type delivery occurred_at event =
    (event.wake_arg ≡ wake_arg)
    × (event.origin ≡ some origin)
    × (event.recipient ≡ record { by = "repo"; value = origin.repo })
    × (event.source ≡ "github")
    × (event.kind ≡ handoff)
    × (delivery ≡ some event.delivery_id)
    × (is_empty (codes event.delivery_id) ≡ false)
    × (event.occurred_at ≡ occurred_at)
    × (event.event_type ≡ some event_type)
    × (Recipient_post_init event.recipient ≡ ok tt)
    × (Event_post_init event ≡ ok tt)

-- A well-formed GitHub handoff of a repo's issue, under the id of its delivery.
abbrev pub HandoffFor : Option String → Event → Type 0
HandoffFor delivery event =
    (origin : IssueRef) × (event.origin ≡ some origin)
    × (event.recipient ≡ record { by = "repo"; value = origin.repo })
    × (event.source ≡ "github")
    × (event.kind ≡ handoff)
    × (delivery ≡ some event.delivery_id)
    × (Event_post_init event ≡ ok tt)

pub Built-HandoffFor :
    (origin : IssueRef) (wake_arg event_type : String) (delivery : Option String)
    (occurred_at : Option ℕ) (event : Event)
    → Built origin wake_arg event_type delivery occurred_at event
    → HandoffFor delivery event
Built-HandoffFor origin wake_arg event_type delivery occurred_at event built =
    let (text, named, addressed, source, kind, there, filled, at_time, type, checked, valid) =
      built in
    (origin, named, addressed, source, kind, there, valid)

pub build_event-Built :
    (origin : IssueRef) (wake_arg event_type : String) (delivery : Option String)
    (occurred_at : Option ℕ) (event : Event)
    → build_event origin wake_arg event_type delivery occurred_at ≡ ok (woke event)
    → Built origin wake_arg event_type delivery occurred_at event
unfolding build_event
build_event-Built origin wake_arg event_type none occurred_at event h = absurd (cc)
build_event-Built origin wake_arg event_type (some id) occurred_at event h =
    let made = event_for origin wake_arg event_type id occurred_at in
    let (u, present, h1) =
      (bind-ok_iff (raise_if (is_empty (codes id)) (rejected payload_error)) _ (woke event)).0 h in
    let (w, addressed, h2) =
      (bind-ok_iff (well_formed (Recipient_post_init made.recipient)) _ (woke event)).0 h1 in
    let (x, valid, h3) = (bind-ok_iff (well_formed (Event_post_init made)) _ (woke event)).0 h2 in
    let same : made ≡ event = cc in
    subst (λ (x : Event). Built origin wake_arg event_type (some id) occurred_at x) same
      (
        refl,
        refl,
        refl,
        refl,
        refl,
        refl,
        raise_if-ok _ _ present,
        refl,
        refl,
        well_formed-ok _ addressed,
        well_formed-ok _ valid,
      )

required-some : {A : Type 0} (o : Option A) (a : A) → required o ≡ ok a → o ≡ some a
required-some none a h = absurd (cc)
required-some (some b) a h = ap some (ok-injective h)

-- The issue that a payload names: each part is read from it, and together they are well formed.
abbrev pub OriginOf : Fields → Fields → IssueRef → Type 0
OriginOf payload issue origin =
    (repository : Fields) × (as_object (at payload "repository") ≡ some repository)
    × (as_text (at repository "full_name") ≡ some (origin.repo))
    × (as_integer (at issue "number") ≡ some (origin.number))
    × (as_text (at issue "html_url") ≡ some (origin.url))
    × (as_text (at issue "title") ≡ some (origin.title))
    × (IssueRef_post_init origin ≡ ok tt)

origin_of-OriginOf :
    (payload issue : Fields) (origin : IssueRef)
    → origin_of payload issue ≡ ok origin
    → OriginOf payload issue origin
unfolding origin_of
origin_of-OriginOf payload issue origin h =
    let (repository, k1, h1) =
      (bind-ok_iff (required (as_object (at payload "repository"))) _ origin).0 h in
    let (repo, k2, h2) = (bind-ok_iff (text_at repository "full_name") _ origin).0 h1 in
    let (number, k3, h3) = (bind-ok_iff (int_at issue "number") _ origin).0 h2 in
    let (url, k4, h4) = (bind-ok_iff (text_at issue "html_url") _ origin).0 h3 in
    let (title, k5, h5) = (bind-ok_iff (text_at issue "title") _ origin).0 h4 in
    let made : IssueRef = record { repo = repo; number = number; url = url; title = title } in
    let (x, valid, h6) = (bind-ok_iff (well_formed (IssueRef_post_init made)) _ origin).0 h5 in
    subst (λ (o : IssueRef). OriginOf payload issue o) (ok-injective h6)
      (
        repository,
        required-some _ _ k1,
        required-some _ _ k2,
        required-some _ _ k3,
        required-some _ _ k4,
        required-some _ _ k5,
        well_formed-ok _ valid,
      )

-- A handoff of an issue or a reply on one wakes the captain of the repo it stands in, on that issue:
-- if `_wake_event` gives an event, the event's issue has the repo, number, URL and title of the
-- payload and is well formed, the recipient is that repo, and the wake's text is "Cross-repo
-- handoff: work ", the issue's URL and the text on whom to trust, with nothing else. The source is
-- GitHub and the kind a handoff, the delivery id is the delivery header's and not empty, the time
-- and the event type are the ones given, and the recipient and the event are well formed.
pub wake_event-OriginOf :
    (payload issue : Fields) (event_type : String) (delivery : Option String)
    (occurred_at : Option ℕ) (event : Event)
    → wake_event payload issue event_type delivery occurred_at ≡ ok (woke event)
    → (origin : IssueRef) × OriginOf payload issue origin
      × Built origin
          (String.◌++◌ "Cross-repo handoff: work " (String.◌++◌ origin.url trusted_text))
          event_type
          delivery
          occurred_at
          event
unfolding wake_event handoff_trigger
wake_event-OriginOf payload issue event_type delivery occurred_at event h =
    let (origin, named, made) = (bind-ok_iff (origin_of payload issue) _ (woke event)).0 h in
    (
      origin,
      origin_of-OriginOf payload issue origin named,
      build_event-Built origin _ event_type delivery occurred_at event made,
    )
