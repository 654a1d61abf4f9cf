-- ===== src/Github/Closed.antt =====
-- A close that GitHub reported, and the deliveries that come after it (routes/github.py).
use basecradle_router.Base.{
  ℕ, ◌≡◌, ◌⊎◌, ◌∙◌, ◌≤◌, ◌+◌, refl, sym, ap, subst, inl, inr, Bool, true, false, not, ◌&&◌, ◌||◌,
  Option, none, some, String, List, [], ◌∷◌, All, length, get, ltb, leb, ◌==◌, ite, if_pos, if_neg,
  string_discrete, arith, Option-cases, Bool-cases, contains,
}
use basecradle_router.Base.Json.{Fields, at, as_object, null, string, is_one_of, is_text}
use basecradle_router.Base.Ordered.{length-remember_step, get-remember_within}
use basecradle_router.Base.Result.{ok, Result-cases}
use basecradle_router.Routes.{Platform}
use basecradle_router.Github.{in_set}
use basecradle_router.Github.Ledger.{
  IssueState, IssueLedger, Shown, shown_in, action_of, settle_tie, admitted, take_report, observe,
  observe_shown, after_observe, observe_all, issue_closed, issue_ref, drop_of, reason_to_drop,
}
use basecradle_router.Github.Kept.{observe_shown-cases, tells_state}

-- Whether a delivery cannot outrank a close of an issue at an instant: it is about another issue, or
-- older, or of the same instant without having changed the state itself.
abbrev pub late_shown : String → ℕ → Bool → Option Shown → Bool
late_shown url t first none = true
late_shown url t first (some s) =
    ite (string_discrete s.url url) (ltb s.updated_at t || (s.updated_at == t && not first)) true

unfoldable pub late : Platform → String → ℕ → Fields × String → Bool
unfolding shown_in at is_one_of is_text
late p url t (payload, event_type) =
    late_shown url t (tells_state payload event_type) (shown_in p (as_object (at payload "issue")))

ClosedAt : String → ℕ → IssueLedger → Type 0
ClosedAt url t l =
    (s : IssueState) × (get string_discrete url l.issues ≡ some s)
    × (s.is_open ≡ false)
    × (s.updated_at ≡ t)
    × (s.state_first_hand ≡ true)

take_report-fits :
    (l : IssueLedger) (url : String) (report : IssueState)
    → ((take_report l url report).capacity ≡ l.capacity)
      × (length (take_report l url report).issues ≤ length l.issues + 1)
unfolding take_report
take_report-fits l url report =
    elim (Option-cases (admitted (get string_discrete url l.issues) report)) [
      | inl nothing ↦ rw nothing (refl, omega arith)
      | inr (state, written) ↦
          rw written (refl, length-remember_step string_discrete l.capacity url state l.issues)
    ]

take_report-other :
    (l : IssueLedger) (url other : String) (report : IssueState)
    → length l.issues + 1 ≤ l.capacity
    → (other ≡ url → ⊥)
    → get string_discrete url (take_report l other report).issues ≡ get string_discrete url l.issues
unfolding take_report
take_report-other l url other report h ne =
    elim (Option-cases (admitted (get string_discrete other l.issues) report)) [
      | inl nothing ↦ rw nothing refl
      | inr (state, written) ↦ rw written (
          get-remember_within string_discrete l.capacity url other state l.issues h
          ∙ if_neg (string_discrete other url) ne (some state) (get string_discrete url l.issues))
    ]

take_report-same :
    (l : IssueLedger) (url : String) (report state : IssueState)
    → length l.issues + 1 ≤ l.capacity
    → admitted (get string_discrete url l.issues) report ≡ some state
    → get string_discrete url (take_report l url report).issues ≡ some state
unfolding take_report
take_report-same l url report state h e = rw e (
    get-remember_within string_discrete l.capacity url url state l.issues h
    ∙ if_pos (string_discrete url url) refl (some state) (get string_discrete url l.issues))

admitted-late :
    (s r : IssueState)
    → s.is_open ≡ false
    → s.state_first_hand ≡ true
    → (ltb r.updated_at s.updated_at || (r.updated_at == s.updated_at && not r.state_first_hand))
      ≡ true
    → (admitted (some s) r ≡ none)
      ⊎ ((k : IssueState) × (admitted (some s) r ≡ some k)
          × (k.is_open ≡ false)
          × (k.updated_at ≡ s.updated_at)
          × (k.state_first_hand ≡ true))
unfolding admitted settle_tie
admitted-late s r closed first e = elim (Bool-cases (ltb r.updated_at s.updated_at)) [
  | inl older ↦ inl (rw older refl)
  | inr newer ↦
      let tie : (r.updated_at == s.updated_at) ≡ true = ground (arith, e, newer) in
      let passing : r.state_first_hand ≡ false = ground (arith, e, newer, tie) in
      inr (
        settle_tie s r,
        rw (newer, tie) refl,
        unfold settle_tie in rw (first, passing) closed,
        ground (arith, tie),
        rw first refl,
      )
]

take_report-ClosedAt :
    (l : IssueLedger) (url : String) (t : ℕ) (report : IssueState)
    → length l.issues + 1 ≤ l.capacity
    → (ltb report.updated_at t || (report.updated_at == t && not report.state_first_hand)) ≡ true
    → ClosedAt url t l
    → ClosedAt url t (take_report l url report)
unfolding ClosedAt
take_report-ClosedAt l url t report h e c =
    let (s, there, closed, time, first) = c in
    elim (admitted-late s report closed first (rw time e)) [
      | inl nothing ↦ unfold take_report in rw (there, nothing) (s, there, closed, time, first)
      | inr (k, written, k_closed, k_time, k_first) ↦ (
        k,
        take_report-same l url report k h (rw there written),
        k_closed,
        k_time ∙ time,
        k_first,
      )
    ]

observe-ClosedAt :
    (p : Platform) (l : IssueLedger) (url : String) (t : ℕ) (d : Fields × String)
    → length l.issues + 1 ≤ l.capacity
    → late p url t d ≡ true
    → ClosedAt url t l
    → ClosedAt url t (after_observe l (observe p l d.0 d.1))
      × ((after_observe l (observe p l d.0 d.1)).capacity ≡ l.capacity)
      × (length (after_observe l (observe p l d.0 d.1)).issues ≤ length l.issues + 1)
unfolding observe late
observe-ClosedAt p l url t (payload, event_type) h e c =
    elim (Result-cases
      (observe_shown l payload event_type (shown_in p (as_object (at payload "issue"))))) [
        | inr (x, raised) ↦ rw raised (c, refl, omega arith)
        | inl (next, done) ↦ rw done (elim (observe_shown-cases l next payload event_type _ done) [
          | inl same ↦ rw same (c, refl, omega arith)
          | inr (s, report, shown, result, time, state, labels, first, own) ↦
              let fits = take_report-fits l s.url report in
              rw result (
                elim (string_discrete s.url url) [
                  | yes mine ↦
                      let weak = rw (shown, if_pos _ mine) at e in
                      subst (λ u. ClosedAt url t (take_report l u report)) (sym mine)
                        (take_report-ClosedAt l url t report h (rw (time, first) weak) c)
                  | no other ↦
                      unfold ClosedAt in rw (take_report-other l url s.url report h other) c
                ],
                fits.0,
                fits.1,
              )
        ])
      ]

observe_all-ClosedAt :
    (p : Platform) (url : String) (t : ℕ) (ds : List (Fields × String)) (l : IssueLedger)
    → length l.issues + length ds ≤ l.capacity
    → All (λ d. late p url t d ≡ true) ds
    → ClosedAt url t l
    → ClosedAt url t (observe_all p l ds)
unfolding observe_all
observe_all-ClosedAt p url t [] l h late_all c = c
observe_all-ClosedAt p url t (d ∷ ds) l h late_all c =
    let (still, same_capacity, grown) =
      observe-ClosedAt p l url t d (omega (arith, h)) late_all.0 c in
    observe_all-ClosedAt p url t ds _ (omega (arith, h, same_capacity, grown)) late_all.1 still

-- Whether what is known of an issue is no newer than an instant.
abbrev pub no_newer : ℕ → Option IssueState → Bool
no_newer t none = true
no_newer t (some known) = leb known.updated_at t

admitted-closing :
    (known : Option IssueState) (r : IssueState)
    → no_newer r.updated_at known ≡ true
    → contains string_discrete "handoff" r.labels ≡ true
    → r.is_open ≡ false
    → r.state_first_hand ≡ true
    → (k : IssueState) × (admitted known r ≡ some k)
      × (k.is_open ≡ false)
      × (k.updated_at ≡ r.updated_at)
      × (k.state_first_hand ≡ true)
unfolding admitted
admitted-closing none r h handoff closed first = (r, rw handoff refl, closed, refl, first)
admitted-closing (some known) r h handoff closed first =
    elim (Bool-cases (r.updated_at == known.updated_at)) [
      | inl tie ↦ (
        settle_tie known r,
        ground (arith, h, tie),
        unfold settle_tie in ground (arith, first, closed),
        unfold settle_tie in refl,
        unfold settle_tie in ground (arith, first),
      )
      | inr later ↦ (r, ground (arith, h, later), closed, refl, first)
    ]

action_of-issues : (payload : Fields) → action_of payload "issues" ≡ at payload "action"
action_of-issues payload =
    if_pos (string_discrete "issues" "issues") refl (at payload "action") null

abbrev closing_report : Fields → Shown → IssueState
closing_report payload s = record {
  updated_at = s.updated_at;
  is_open = s.is_open;
  labels = s.names;
  state_first_hand = true;
  labels_first_hand = false;
  ref = issue_ref payload s.issue s.url;
}

observe-closing :
    (p : Platform) (l : IssueLedger) (payload : Fields) (s : Shown)
    → shown_in p (as_object (at payload "issue")) ≡ some s
    → at payload "action" ≡ string "closed"
    → observe p l payload "issues" ≡ ok (take_report l s.url (closing_report payload s))
unfolding observe observe_shown in_set is_one_of is_text string_discrete
observe-closing p l payload s shown action = rw (shown, action_of-issues payload, action) refl

drop_of-closed : (z : IssueState) → z.is_open ≡ false → drop_of (some z) ≡ some issue_closed
unfolding drop_of
drop_of-closed z h = rw h refl

-- Once an `issues` delivery with the action `closed` shows a handoff issue closed, and nothing newer
-- is known of the issue, a wake that waits for it is dropped with the reason `issue_closed`: after
-- any later deliveries that are about other issues, or older, or of the same second and not
-- themselves a change of state, in any order, as long as the capacity holds them all.
pub reason_to_drop-observe_all :
    (p : Platform) (l : IssueLedger) (payload : Fields) (s : Shown) (ds : List (Fields × String))
    → shown_in p (as_object (at payload "issue")) ≡ some s
    → at payload "action" ≡ string "closed"
    → s.is_open ≡ false
    → contains string_discrete "handoff" s.names ≡ true
    → no_newer s.updated_at (get string_discrete s.url l.issues) ≡ true
    → length l.issues + length ds + 1 ≤ l.capacity
    → All (λ d. late p s.url s.updated_at d ≡ true) ds
    → reason_to_drop (observe_all p l ((payload, "issues") ∷ ds)) s.url ≡ some issue_closed
unfolding observe_all reason_to_drop ClosedAt
reason_to_drop-observe_all p l payload s ds shown action closed handoff newest room late_all =
    let (k, written, k_closed, k_time, k_first) =
      admitted-closing _ (closing_report payload s) newest handoff closed refl in
    let now = take_report-same l s.url (closing_report payload s) k (omega (arith, room)) written in
    let fits = take_report-fits l s.url (closing_report payload s) in
    let closed_now : ClosedAt s.url s.updated_at (take_report l s.url (closing_report payload s)) =
      unfold ClosedAt in (k, now, k_closed, k_time, k_first) in
    let (z, there, z_closed, z_time, z_first) =
      observe_all-ClosedAt p s.url s.updated_at ds (take_report l s.url (closing_report payload s))
        (omega (arith, room, fits.0, fits.1)) late_all closed_now in
    ap (λ r. reason_to_drop (observe_all p (after_observe l r) ds) s.url)
      (observe-closing p l payload s shown action)
    ∙ ap drop_of there
    ∙ drop_of-closed z z_closed
