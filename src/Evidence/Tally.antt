-- ===== src/Evidence/Tally.antt =====
-- The counters of the document are what a history of calls says (evidence.py).
use basecradle_router.Base.{
  ℕ, ◌+◌, ◌≡◌, ◌∙◌, refl, ap, Bool, Option, none, some, String, List, [], ◌∷◌, Dict, get, get-put,
  ite, if_pos, if_neg, string_discrete, arith, Bool-cases, inl, inr,
}
use basecradle_router.Evidence.{
  RouteWake, AgentWake, Document, new_row, new_wake, or_default, update_default,
}
use basecradle_router.Evidence.Disk.{Trouble}
use basecradle_router.Evidence.Store.{
  Recording, delivery_accepted, delivery_rejected, delivery_decision, wake_ok, wake_failed,
  wake_refused, wake_deduped, queue_depth, freeze_selftest_result, ok_row, ok_wake, failed_row,
  failed_wake, refused_row, refused_wake, deduped_row, deduped_wake, change_wake, recorded, flushes,
  Store, flush, Call, change, call, call_all,
}

pub data Kind : Type 0 where
  ok_kind failed_kind refused_kind deduped_kind : Kind

abbrev pub of_wake : Kind → AgentWake → ℕ
of_wake ok_kind w = w.ok
of_wake failed_kind w = w.failed
of_wake refused_kind w = w.refused
of_wake deduped_kind w = w.deduped

abbrev pub of_row : Kind → RouteWake → ℕ
of_row ok_kind r = r.ok
of_row failed_kind r = r.failed
of_row refused_kind r = r.refused
of_row deduped_kind r = r.deduped

abbrev pub same_kind : Kind → Kind → ℕ
same_kind ok_kind ok_kind = 1
same_kind failed_kind failed_kind = 1
same_kind refused_kind refused_kind = 1
same_kind deduped_kind deduped_kind = 1
same_kind _ _ = 0

-- The agent, the route and the outcome of a wake that a call records.
abbrev pub outcome_of : Recording → Option (String × String × Kind)
outcome_of (wake_ok agent delivery route synthetic) = some (agent, route, ok_kind)
outcome_of (wake_failed agent reason route synthetic) = some (agent, route, failed_kind)
outcome_of (wake_refused agent reason route synthetic) = some (agent, route, refused_kind)
outcome_of (wake_deduped agent route synthetic) = some (agent, route, deduped_kind)
outcome_of _ = none

abbrev pub adds : Kind → String → Option (String × String × Kind) → ℕ
adds k agent none = 0
adds k agent (some (a, r, j)) = ite (string_discrete a agent) (same_kind j k) 0

abbrev pub adds_on : Kind → String → String → Option (String × String × Kind) → ℕ
adds_on k agent route none = 0
adds_on k agent route (some (a, r, j)) =
    ite (string_discrete a agent) (ite (string_discrete r route) (same_kind j k) 0) 0

-- How many calls record an outcome of an agent, and of an agent over a route.
abbrev pub tally : Kind → String → List Call → ℕ
tally k agent [] = 0
tally k agent (c ∷ cs) = adds k agent (outcome_of c.what) + tally k agent cs

abbrev pub tally_on : Kind → String → String → List Call → ℕ
tally_on k agent route [] = 0
tally_on k agent route (c ∷ cs) =
    adds_on k agent route (outcome_of c.what) + tally_on k agent route cs

-- The counter of an agent, and of an agent's row of a route; 0 where there is no entry.
abbrev pub wake_of : String → Document → AgentWake
wake_of agent d = or_default new_wake (get string_discrete agent d.agent_wakes)

abbrev pub row_of : String → AgentWake → RouteWake
row_of route w = or_default new_row (get string_discrete route w.by_route)

get-update_default :
    {V : Type 0} (default : V) (key other : String) (change : V → V) (m : Dict String V)
    → or_default default (get string_discrete other (update_default default key change m))
      ≡ ite
          (string_discrete key other)
          (change (or_default default (get string_discrete other m)))
          (or_default default (get string_discrete other m))
unfolding update_default
get-update_default default key other change m = elim (string_discrete key other) [
  | yes p ↦
      let same : get string_discrete key m ≡ get string_discrete other m =
        ap (λ j. get string_discrete j m) p in
      let found =
        get-put string_discrete other key (change (or_default default (get string_discrete key m)))
          m in
      rw (found, if_pos (string_discrete key other) p, same, if_pos (string_discrete key other) p)
        refl
  | no p ↦
      let found =
        get-put string_discrete other key (change (or_default default (get string_discrete key m)))
          m in
      rw (found, if_neg (string_discrete key other) p, if_neg (string_discrete key other) p) refl
]

ite-zero : (a b : String) → ite {C = ℕ} (string_discrete a b) 0 0 ≡ 0
ite-zero a b = elim (string_discrete a b) [
  | yes p ↦ if_pos (string_discrete a b) p 0 0
  | no p ↦ if_neg (string_discrete a b) p 0 0
]

-- What a call of one agent changes in a counter, for any agent.
change_wake-of_wake :
    (k : Kind) (key agent : String) (change : AgentWake → AgentWake) (d : Document) (n : ℕ)
    → ((w : AgentWake) → of_wake k (change w) ≡ n + of_wake k w)
    → of_wake k (wake_of agent (change_wake key change d))
      ≡ ite (string_discrete key agent) n 0 + of_wake k (wake_of agent d)
change_wake-of_wake k key agent change d n h = elim (string_discrete key agent) [
  | yes p ↦
      rw
        (
          get-update_default new_wake key agent change d.agent_wakes,
          if_pos (string_discrete key agent) p,
          if_pos (string_discrete key agent) p,
        )
        (h (wake_of agent d))
  | no p ↦
      rw
        (
          get-update_default new_wake key agent change d.agent_wakes,
          if_neg (string_discrete key agent) p,
          if_neg (string_discrete key agent) p,
        )
        (omega arith)
]

ok_wake-of_wake :
    (k : Kind) (at delivery route : String) (synthetic : Bool) (w : AgentWake)
    → of_wake k (ok_wake at delivery route synthetic w) ≡ same_kind ok_kind k + of_wake k w
ok_wake-of_wake ok_kind at delivery route synthetic w = omega arith
ok_wake-of_wake failed_kind at delivery route synthetic w = omega arith
ok_wake-of_wake refused_kind at delivery route synthetic w = omega arith
ok_wake-of_wake deduped_kind at delivery route synthetic w = omega arith

failed_wake-of_wake :
    (k : Kind) (at reason route : String) (synthetic : Bool) (w : AgentWake)
    → of_wake k (failed_wake at reason route synthetic w) ≡ same_kind failed_kind k + of_wake k w
failed_wake-of_wake ok_kind at reason route synthetic w = omega arith
failed_wake-of_wake failed_kind at reason route synthetic w = omega arith
failed_wake-of_wake refused_kind at reason route synthetic w = omega arith
failed_wake-of_wake deduped_kind at reason route synthetic w = omega arith

refused_wake-of_wake :
    (k : Kind) (at reason route : String) (synthetic : Bool) (w : AgentWake)
    → of_wake k (refused_wake at reason route synthetic w) ≡ same_kind refused_kind k + of_wake k w
refused_wake-of_wake ok_kind at reason route synthetic w = omega arith
refused_wake-of_wake failed_kind at reason route synthetic w = omega arith
refused_wake-of_wake refused_kind at reason route synthetic w = omega arith
refused_wake-of_wake deduped_kind at reason route synthetic w = omega arith

deduped_wake-of_wake :
    (k : Kind) (at route : String) (synthetic : Bool) (w : AgentWake)
    → of_wake k (deduped_wake at route synthetic w) ≡ same_kind deduped_kind k + of_wake k w
deduped_wake-of_wake ok_kind at route synthetic w = omega arith
deduped_wake-of_wake failed_kind at route synthetic w = omega arith
deduped_wake-of_wake refused_kind at route synthetic w = omega arith
deduped_wake-of_wake deduped_kind at route synthetic w = omega arith

depth-of_wake :
    (k : Kind) (n : ℕ) (w : AgentWake) → of_wake k (record w { queued = n }) ≡ 0 + of_wake k w
depth-of_wake ok_kind n w = omega arith
depth-of_wake failed_kind n w = omega arith
depth-of_wake refused_kind n w = omega arith
depth-of_wake deduped_kind n w = omega arith

recorded-of_wake :
    (k : Kind) (agent at : String) (what : Recording) (d : Document)
    → of_wake k (wake_of agent (recorded at what d))
      ≡ adds k agent (outcome_of what) + of_wake k (wake_of agent d)
unfolding recorded
recorded-of_wake k agent at (delivery_accepted route) d = omega arith
recorded-of_wake k agent at (delivery_rejected route reason) d = omega arith
recorded-of_wake k agent at (delivery_decision route woke) d = omega arith
recorded-of_wake k agent at (wake_ok a delivery route synthetic) d =
    change_wake-of_wake k a agent (ok_wake at delivery route synthetic) d (same_kind ok_kind k)
      (ok_wake-of_wake k at delivery route synthetic)
recorded-of_wake k agent at (wake_failed a reason route synthetic) d =
    change_wake-of_wake k a agent (failed_wake at reason route synthetic) d
      (same_kind failed_kind k) (failed_wake-of_wake k at reason route synthetic)
recorded-of_wake k agent at (wake_refused a reason route synthetic) d =
    change_wake-of_wake k a agent (refused_wake at reason route synthetic) d
      (same_kind refused_kind k) (refused_wake-of_wake k at reason route synthetic)
recorded-of_wake k agent at (wake_deduped a route synthetic) d =
    change_wake-of_wake k a agent (deduped_wake at route synthetic) d (same_kind deduped_kind k)
      (deduped_wake-of_wake k at route synthetic)
recorded-of_wake k agent at (queue_depth a pending) d =
    change_wake-of_wake k a agent (λ w. record w { queued = pending }) d 0 (depth-of_wake k pending)
    ∙ ap (λ n. n + of_wake k (wake_of agent d)) (ite-zero a agent)
recorded-of_wake k agent at (freeze_selftest_result status detail) d = omega arith

updated-row_of :
    (k : Kind) (route other : String) (on_row : RouteWake → RouteWake) (m : Dict String RouteWake)
    (n : ℕ)
    → ((r : RouteWake) → of_row k (on_row r) ≡ n + of_row k r)
    → of_row k
        (or_default new_row (get string_discrete other (update_default new_row route on_row m)))
      ≡ ite (string_discrete route other) n 0
        + of_row k (or_default new_row (get string_discrete other m))
updated-row_of k route other on_row m n r = elim (string_discrete route other) [
  | yes p ↦
      rw
        (
          get-update_default new_row route other on_row m,
          if_pos (string_discrete route other) p,
          if_pos (string_discrete route other) p,
        )
        (r (or_default new_row (get string_discrete other m)))
  | no p ↦
      rw
        (
          get-update_default new_row route other on_row m,
          if_neg (string_discrete route other) p,
          if_neg (string_discrete route other) p,
        )
        (omega arith)
]

change_wake-row_of :
    (k : Kind) (key agent route other : String) (change : AgentWake → AgentWake)
    (on_row : RouteWake → RouteWake) (d : Document) (n : ℕ)
    → ((w : AgentWake) → (change w).by_route ≡ update_default new_row route on_row w.by_route)
    → ((r : RouteWake) → of_row k (on_row r) ≡ n + of_row k r)
    → of_row k (row_of other (wake_of agent (change_wake key change d)))
      ≡ ite (string_discrete key agent) (ite (string_discrete route other) n 0) 0
        + of_row k (row_of other (wake_of agent d))
change_wake-row_of k key agent route other change on_row d n h r =
    let w = wake_of agent d in
    let found = get-update_default new_wake key agent change d.agent_wakes in
    elim (string_discrete key agent) [
      | no p ↦
          ap (λ v. of_row k (row_of other v))
            (found ∙ if_neg (string_discrete key agent) p (change w) w)
          ∙ rw (if_neg (string_discrete key agent) p) (omega arith)
      | yes p ↦
          ap (λ v. of_row k (row_of other v))
            (found ∙ if_pos (string_discrete key agent) p (change w) w)
          ∙ rw (if_pos (string_discrete key agent) p, h w)
              (updated-row_of k route other on_row w.by_route n r)
    ]

ok_row-of_row :
    (k : Kind) (at delivery : String) (r : RouteWake)
    → of_row k (ok_row at delivery r) ≡ same_kind ok_kind k + of_row k r
ok_row-of_row ok_kind at delivery r = omega arith
ok_row-of_row failed_kind at delivery r = omega arith
ok_row-of_row refused_kind at delivery r = omega arith
ok_row-of_row deduped_kind at delivery r = omega arith

failed_row-of_row :
    (k : Kind) (at reason : String) (r : RouteWake)
    → of_row k (failed_row at reason r) ≡ same_kind failed_kind k + of_row k r
failed_row-of_row ok_kind at reason r = omega arith
failed_row-of_row failed_kind at reason r = omega arith
failed_row-of_row refused_kind at reason r = omega arith
failed_row-of_row deduped_kind at reason r = omega arith

refused_row-of_row :
    (k : Kind) (at reason : String) (r : RouteWake)
    → of_row k (refused_row at reason r) ≡ same_kind refused_kind k + of_row k r
refused_row-of_row ok_kind at reason r = omega arith
refused_row-of_row failed_kind at reason r = omega arith
refused_row-of_row refused_kind at reason r = omega arith
refused_row-of_row deduped_kind at reason r = omega arith

deduped_row-of_row :
    (k : Kind) (at : String) (r : RouteWake)
    → of_row k (deduped_row at r) ≡ same_kind deduped_kind k + of_row k r
deduped_row-of_row ok_kind at r = omega arith
deduped_row-of_row failed_kind at r = omega arith
deduped_row-of_row refused_kind at r = omega arith
deduped_row-of_row deduped_kind at r = omega arith

recorded-of_row :
    (k : Kind) (agent route at : String) (what : Recording) (d : Document)
    → of_row k (row_of route (wake_of agent (recorded at what d)))
      ≡ adds_on k agent route (outcome_of what) + of_row k (row_of route (wake_of agent d))
unfolding recorded
recorded-of_row k agent route at (delivery_accepted r) d = omega arith
recorded-of_row k agent route at (delivery_rejected r reason) d = omega arith
recorded-of_row k agent route at (delivery_decision r woke) d = omega arith
recorded-of_row k agent route at (wake_ok a delivery r synthetic) d =
    change_wake-row_of k a agent r route (ok_wake at delivery r synthetic) (ok_row at delivery) d
      (same_kind ok_kind k) (λ w. refl) (ok_row-of_row k at delivery)
recorded-of_row k agent route at (wake_failed a reason r synthetic) d =
    change_wake-row_of k a agent r route (failed_wake at reason r synthetic) (failed_row at reason)
      d (same_kind failed_kind k) (λ w. refl) (failed_row-of_row k at reason)
recorded-of_row k agent route at (wake_refused a reason r synthetic) d =
    change_wake-row_of k a agent r route (refused_wake at reason r synthetic)
      (refused_row at reason) d (same_kind refused_kind k) (λ w. refl)
      (refused_row-of_row k at reason)
recorded-of_row k agent route at (wake_deduped a r synthetic) d =
    change_wake-row_of k a agent r route (deduped_wake at r synthetic) (deduped_row at) d
      (same_kind deduped_kind k) (λ w. refl) (deduped_row-of_row k at)
recorded-of_row k agent route at (queue_depth a pending) d =
    let w = wake_of agent d in
    let found =
      get-update_default new_wake a agent (λ v. record v { queued = pending }) d.agent_wakes in
    elim (string_discrete a agent) [
      | yes p ↦
          ap (λ v. of_row k (row_of route v))
            (found ∙ if_pos (string_discrete a agent) p (record w { queued = pending }) w)
          ∙ omega arith
      | no p ↦
          ap (λ v. of_row k (row_of route v))
            (found ∙ if_neg (string_discrete a agent) p (record w { queued = pending }) w)
          ∙ omega arith
    ]
recorded-of_row k agent route at (freeze_selftest_result status detail) d = omega arith

pub flush-agent_wakes :
    (now : String) (trouble : Trouble) (s : Store)
    → (flush now trouble s).doc.agent_wakes ≡ s.doc.agent_wakes
unfolding flush
flush-agent_wakes now trouble s = refl

call-agent_wakes :
    (c : Call) (s : Store) → (call c s).doc.agent_wakes ≡ (recorded c.now c.what s.doc).agent_wakes
unfolding call change
call-agent_wakes c s = elim (Bool-cases (flushes c.what s.doc)) [
  | inl flushed ↦ rw flushed (flush-agent_wakes c.flushed_at c.trouble (change c s))
  | inr same ↦ rw same refl
]

-- An agent's counters grow by exactly the outcomes that the calls record for it, and its row of a
-- route by exactly those over that route, whatever else is recorded in between and whether or not
-- the file can be written.
pub call_all-tally :
    (k : Kind) (agent route : String) (cs : List Call) (s : Store)
    → (of_wake k (wake_of agent (call_all cs s).doc)
        ≡ tally k agent cs + of_wake k (wake_of agent s.doc))
      × (of_row k (row_of route (wake_of agent (call_all cs s).doc))
          ≡ tally_on k agent route cs + of_row k (row_of route (wake_of agent s.doc)))
unfolding call_all
call_all-tally k agent route [] s = (omega arith, omega arith)
call_all-tally k agent route (c ∷ cs) s =
    let (whole, part) = call_all-tally k agent route cs (call c s) in
    let same = call-agent_wakes c s in
    let one : of_wake k (wake_of agent (call c s).doc)
        ≡ adds k agent (outcome_of c.what) + of_wake k (wake_of agent s.doc) =
      ap (λ m. of_wake k (or_default new_wake (get string_discrete agent m))) same
      ∙ recorded-of_wake k agent c.now c.what s.doc in
    let one_on : of_row k (row_of route (wake_of agent (call c s).doc))
        ≡ adds_on k agent route (outcome_of c.what)
          + of_row k (row_of route (wake_of agent s.doc)) =
      ap (λ m. of_row k (row_of route (or_default new_wake (get string_discrete agent m)))) same
      ∙ recorded-of_row k agent route c.now c.what s.doc in
    (omega (arith, whole, one), omega (arith, part, one_on))
