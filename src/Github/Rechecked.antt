-- ===== src/Github/Rechecked.antt =====
-- The issue that the captain's own pull request wakes it on (routes/github.py).
use basecradle_router.Base.Integer.{ℤ, ℤ_discrete}
use basecradle_router.Base.{
  ◌≡◌, ◌∙◌, sym, ap, subst, inl, inr, true, ◌&&◌, Option, none, some, String, List, [], ◌∷◌, Dict,
  All, All-append, All-map, and-true_iff, get, if_pos, if_neg, contains, string_discrete,
  Bool-cases,
}
use basecradle_router.Base.Ordered.{Unique}
use basecradle_router.Base.Result.{ok, ok-injective}
use basecradle_router.Models.{IssueRef, IssueRef_post_init}
use basecradle_router.Github.Ledger.{IssueState, IssueLedger, open_handoffs, refs_of, wanted_ref}
use basecradle_router.Github.Kept.{RefOf, EntryOf, IsValid}
use basecradle_router.Github.OwnPulls.{named_among, chosen, only, merge_target}

-- The ledger's entry of a reference to a repo's issue: open, and with the label.
abbrev pub Held : (String → String) → String → Dict String IssueState → IssueRef → Type 0
Held lower wanted m ref =
    (state : IssueState) × (get string_discrete ref.url m ≡ some state)
    × (state.is_open ≡ true)
    × (contains string_discrete "handoff" state.labels ≡ true)
    × (lower ref.repo ≡ wanted)
    × (IssueRef_post_init ref ≡ ok tt)

module _ (lower : String → String) (wanted : String) where
  Held-cons :
      (url : String) (state : IssueState) (m : Dict String IssueState)
      → get string_discrete url m ≡ none
      → (ref : IssueRef) → Held lower wanted m ref
      → Held lower wanted ((url, state) ∷ m) ref
  unfolding get
  Held-cons url state m new ref h =
      let (s, there, is_open, labelled, here, valid) = h in
      let found : get string_discrete ref.url ((url, state) ∷ m) ≡ some s =
        elim (string_discrete url ref.url) [
          | yes p ↦
              absurd (let clash = sym (ap (λ u. get string_discrete u m) p ∙ there) ∙ new in cc)
          | no p ↦
              if_neg (string_discrete url ref.url) p (some state) (get string_discrete ref.url m)
              ∙ there
        ] in
      (s, found, is_open, labelled, here, valid)

  wanted_ref-Held :
      (url : String) (state : IssueState) (m : Dict String IssueState) (ref : Option IssueRef)
      → RefOf url ref
      → All (Held lower wanted ((url, state) ∷ m)) (wanted_ref lower wanted state ref)
  unfolding wanted_ref get
  wanted_ref-Held url state m none own = tt
  wanted_ref-Held url state m (some ref) own = elim (string_discrete (lower ref.repo) wanted) [
    | no other ↦ rw (if_neg _ other) tt
    | yes here ↦
        elim (Bool-cases (state.is_open && contains string_discrete "handoff" state.labels)) [
          | inr gone ↦ rw (if_pos _ here, gone) tt
          | inl live ↦
              let live_parts =
                (and-true_iff state.is_open (contains string_discrete "handoff" state.labels)).0
                  live in
              rw (if_pos _ here, live)
                (
                  (
                    state,
                    if_pos (string_discrete url ref.url) (sym own.0) (some state)
                        (get string_discrete ref.url m),
                    live_parts.0,
                    live_parts.1,
                    here,
                    own.1,
                  ),
                  tt,
                )
        ]
  ]

  refs_of-Held :
      (m : Dict String IssueState)
      → Unique string_discrete m
      → All EntryOf m
      → All (Held lower wanted m) (refs_of lower wanted m)
  unfolding refs_of
  refs_of-Held [] u own = tt
  refs_of-Held ((url, state) ∷ m) u own =
      All-append (Held lower wanted ((url, state) ∷ m)) (wanted_ref lower wanted state state.ref)
        (refs_of lower wanted m) (wanted_ref-Held url state m state.ref own.0)
        (All-map (Held lower wanted m) (Held lower wanted ((url, state) ∷ m))
          (Held-cons url state m u.0) (refs_of lower wanted m) (refs_of-Held m u.1 own.1))

named_among-All :
    (P : IssueRef → Type 0) (named : List ℤ) (refs : List IssueRef)
    → All P refs
    → All P (named_among named refs)
unfolding named_among
named_among-All P named [] h = tt
named_among-All P named (ref ∷ refs) h = elim (Bool-cases (contains ℤ_discrete ref.number named)) [
  | inl yes_named ↦ rw yes_named (h.0, named_among-All P named refs h.1)
  | inr no_named ↦ rw no_named (named_among-All P named refs h.1)
]

chosen-All :
    (P : IssueRef → Type 0) (refs : List IssueRef) (named : List ℤ)
    → All P refs
    → All P (chosen refs named)
unfolding chosen
chosen-All P refs [] h = h
chosen-All P refs (n ∷ named) h = named_among-All P (n ∷ named) refs h

only-All :
    (P : IssueRef → Type 0) (refs : List IssueRef) (target : IssueRef)
    → All P refs
    → only refs ≡ ok target
    → P target
only-All P [] target h e = absurd (cc)
only-All P (ref ∷ []) target h e = subst P (ok-injective e) h.0
only-All P (ref ∷ other ∷ refs) target h e = absurd (cc)

-- The target of a pull request is an issue that the ledger holds.
pub merge_target-Held :
    (lower : String → String) (l : IssueLedger) (repo : String) (named : List ℤ) (target : IssueRef)
    → IsValid l
    → merge_target (open_handoffs lower l repo) named ≡ ok target
    → Held lower (lower repo) l.issues target
unfolding merge_target open_handoffs
merge_target-Held lower l repo named target v e =
    only-All (Held lower (lower repo) l.issues) _ target
      (chosen-All (Held lower (lower repo) l.issues) _ named
        (refs_of-Held lower (lower repo) l.issues v.0 v.2))
      e
