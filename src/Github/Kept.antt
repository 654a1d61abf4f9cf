-- ===== src/Github/Kept.antt =====
-- What any deliveries leave of the issue ledger (routes/github.py).
use basecradle_router.Base.Integer.{ℤ}
use basecradle_router.Base.{
  ◌≡◌, ◌⊎◌, ◌≤◌, refl, sym, subst, inl, inr, Bool, Option, none, some, String, List, [], ◌∷◌, All,
  length, get, ltb, ◌==◌, string_discrete, All-get, Option-cases, Bool-cases,
}
use mathlib.Core.Option.{some-injective}
use basecradle_router.Base.Json.{
  Json, Fields, at, as_object, is_one_of, null, boolean, integer, other_number, string, array,
  object,
}
use basecradle_router.Base.Ordered.{Unique, Unique-remember, length-remember, All-remember}
use basecradle_router.Base.Result.{Result-cases, ok-injective, Result, ok, err}
use basecradle_router.Models.{IssueRef, IssueRef_post_init, Error}
use basecradle_router.Routes.{Platform}
use basecradle_router.Github.{in_set, among}
use basecradle_router.Github.Ledger.{
  IssueState, IssueLedger, Shown, if_ok, make_ref, issue_ref, shown_in, action_of, or_else,
  settle_tie, admitted, take_report, observe, observe_shown, state_actions, label_actions,
  after_observe, observe_all,
}

-- A reference in the ledger is well formed, and stands under its own URL.
abbrev pub RefOf : String → Option IssueRef → Type 0
RefOf url none = Unit
RefOf url (some ref) = (ref.url ≡ url) × (IssueRef_post_init ref ≡ ok tt)

abbrev pub EntryOf : String × IssueState → Type 0
EntryOf e = RefOf e.0 (e.1.ref)

-- One entry for each issue, within the capacity, each with a reference to the issue itself.
abbrev pub IsValid : IssueLedger → Type 0
IsValid l = Unique string_discrete l.issues × (length l.issues ≤ l.capacity) × All EntryOf l.issues

if_ok-RefOf :
    (ref : IssueRef) (x : Result Error Unit)
    → IssueRef_post_init ref ≡ x
    → RefOf ref.url (if_ok ref x)
if_ok-RefOf ref (ok _) e = (refl, e)
if_ok-RefOf ref (err _) e = tt

make_ref-RefOf :
    (url : String) (repo : Option String) (n : Option ℤ) (title : Option String)
    → RefOf url (make_ref url repo n title)
unfolding make_ref
make_ref-RefOf url (some repo) (some n) (some title) =
    if_ok-RefOf (record { repo = repo; number = n; url = url; title = title }) _ refl
make_ref-RefOf url none n title = tt
make_ref-RefOf url (some repo) none title = tt
make_ref-RefOf url (some repo) (some n) none = tt

pub issue_ref-RefOf :
    (payload issue : Fields) (url : String) → RefOf url (issue_ref payload issue url)
unfolding issue_ref
issue_ref-RefOf payload issue url = make_ref-RefOf url _ _ _

or_else-RefOf :
    (url : String) (a b : Option IssueRef) → RefOf url a → RefOf url b → RefOf url (or_else a b)
or_else-RefOf url none b h k = k
or_else-RefOf url (some r) b h k = h

settle_tie-RefOf :
    (url : String) (known report : IssueState)
    → RefOf url report.ref
    → RefOf url known.ref
    → RefOf url ((settle_tie known report).ref)
unfolding settle_tie
settle_tie-RefOf url known report h k = or_else-RefOf url report.ref known.ref h k

admitted-RefOf :
    (url : String) (known : Option IssueState) (report state : IssueState)
    → RefOf url report.ref
    → ((s : IssueState) → known ≡ some s → RefOf url s.ref)
    → admitted known report ≡ some state
    → RefOf url state.ref
unfolding admitted
admitted-RefOf url none report state h k e = elim (Bool-cases (among report.labels "handoff")) [
  | inl yes_label ↦
      subst (λ (s : IssueState). RefOf url s.ref) (some-injective _ _ (rw yes_label at e)) h
  | inr no_label ↦ absurd (let clash = rw no_label at e in cc)
]
admitted-RefOf url (some known) report state h k e =
    elim (Bool-cases (ltb report.updated_at known.updated_at)) [
      | inl older ↦ absurd (let clash = rw older at e in cc)
      | inr newer ↦ elim (Bool-cases (report.updated_at == known.updated_at)) [
        | inl tie ↦
            subst (λ (s : IssueState). RefOf url s.ref) (some-injective _ _ (rw (newer, tie) at e))
              (settle_tie-RefOf url known report h (k known refl))
        | inr later ↦
            subst (λ (s : IssueState). RefOf url s.ref)
              (some-injective _ _ (rw (newer, later) at e)) h
      ]
    ]

pub take_report-IsValid :
    (l : IssueLedger) (url : String) (report : IssueState)
    → RefOf url report.ref
    → IsValid l
    → IsValid (take_report l url report)
unfolding take_report
take_report-IsValid l url report h v =
    elim (Option-cases (admitted (get string_discrete url l.issues) report)) [
      | inl nothing ↦ rw nothing v
      | inr (state, written) ↦
          let known_ref : (s : IssueState)
              → get string_discrete url l.issues ≡ some s
              → RefOf url s.ref =
            λ s e. All-get string_discrete EntryOf url l.issues s v.2 e in
          let fits =
            admitted-RefOf url (get string_discrete url l.issues) report state h known_ref
              written in
          rw written (
            Unique-remember string_discrete l.capacity url state l.issues v.0,
            length-remember string_discrete l.capacity url state l.issues,
            All-remember string_discrete EntryOf l.capacity url state l.issues fits v.2,
          )
    ]

abbrev pub tells_state : Fields → String → Bool
tells_state payload event_type = is_one_of state_actions (action_of payload event_type)

in_set-is_one_of :
    (names : List String) (v : Json) (b : Bool) → in_set names v ≡ ok b → is_one_of names v ≡ b
unfolding in_set
in_set-is_one_of names (array items) b e = absurd (cc)
in_set-is_one_of names (object members) b e = absurd (cc)
in_set-is_one_of names null b e = ok-injective e
in_set-is_one_of names (boolean c) b e = ok-injective e
in_set-is_one_of names (integer n) b e = ok-injective e
in_set-is_one_of names other_number b e = ok-injective e
in_set-is_one_of names (string s) b e = ok-injective e

-- What an observation that does not raise has done.
pub observe_shown-cases :
    (l after : IssueLedger) (payload : Fields) (event_type : String) (shown : Option Shown)
    → observe_shown l payload event_type shown ≡ ok after
    → (after ≡ l)
      ⊎ ((s : Shown) × (report : IssueState) × (shown ≡ some s)
          × (after ≡ take_report l s.url report)
          × (report.updated_at ≡ s.updated_at)
          × (report.is_open ≡ s.is_open)
          × (report.labels ≡ s.names)
          × (report.state_first_hand ≡ tells_state payload event_type)
          × RefOf s.url report.ref)
unfolding observe_shown
observe_shown-cases l after payload event_type none e = inl (sym (ok-injective e))
observe_shown-cases l after payload event_type (some s) e =
    elim (Result-cases (in_set state_actions (action_of payload event_type))) [
      | inr (x, bad) ↦ absurd (let clash = rw bad at e in cc)
      | inl (a, good) ↦ elim (Result-cases (in_set label_actions (action_of payload event_type))) [
        | inr (x, bad) ↦ absurd (let clash = rw (good, bad) at e in cc)
        | inl (b, fine) ↦ inr (
          s,
          _,
          refl,
          sym (ok-injective (rw (good, fine) at e)),
          refl,
          refl,
          refl,
          sym (in_set-is_one_of state_actions _ a good),
          issue_ref-RefOf payload s.issue s.url,
        )
      ]
    ]

pub observe-IsValid :
    (p : Platform) (l : IssueLedger) (payload : Fields) (event_type : String)
    → IsValid l
    → IsValid (after_observe l (observe p l payload event_type))
unfolding observe
observe-IsValid p l payload event_type v =
    elim (Result-cases
      (observe_shown l payload event_type (shown_in p (as_object (at payload "issue"))))) [
        | inr (x, raised) ↦ rw raised v
        | inl (next, done) ↦ rw done (elim (observe_shown-cases l next payload event_type _ done) [
          | inl same ↦ rw same v
          | inr (s, report, shown, result, time, state, labels, first, own) ↦
              rw result (take_report-IsValid l s.url report own v)
        ])
      ]

-- Whatever deliveries arrive, well formed or not, the issue ledger keeps at most one entry for each
-- issue and no more entries than its capacity, and a reference that an entry holds is well formed
-- and has the URL that the entry stands under.
pub observe_all-IsValid :
    (p : Platform) (ds : List (Fields × String)) (l : IssueLedger)
    → IsValid l
    → IsValid (observe_all p l ds)
unfolding observe_all
observe_all-IsValid p [] l v = v
observe_all-IsValid p ((payload, event_type) ∷ ds) l v =
    observe_all-IsValid p ds _ (observe-IsValid p l payload event_type v)
