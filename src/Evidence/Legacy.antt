-- ===== src/Evidence/Legacy.antt =====
-- `_reclassify_legacy_dedup` (evidence.py).
use basecradle_router.Base.{
  ℕ, suc, ◌+◌, ◌-◌, ◌≡◌, Bool, true, false, Option, none, some, String, ite, string_discrete,
  if◌then◌else◌,
}
use basecradle_router.Evidence.{RouteWake, AgentWake}

abbrev pub duplicate_delivery : String
duplicate_delivery = "duplicate_delivery"

-- `last_refused_reason == DUPLICATE_DELIVERY`
unfoldable pub is_legacy : Option String → Bool
is_legacy none = false
is_legacy (some reason) = ite (string_discrete reason duplicate_delivery) true false

abbrev pub moved_row : RouteWake → RouteWake
moved_row r = record r {
  deduped = suc r.deduped;
  refused = r.refused - 1;
  last_deduped_at = r.last_refused_at;
  last_refused_at = none;
  last_refused_reason = none;
}

unfoldable pub reclassify_row : RouteWake → RouteWake
unfolding is_legacy
reclassify_row r = if is_legacy r.last_refused_reason then moved_row r else r

abbrev pub moved_wake : AgentWake → AgentWake
moved_wake w = record w {
  deduped = suc w.deduped;
  refused = w.refused - 1;
  last_deduped_at = w.last_refused_at;
  last_refused_at = none;
  last_refused_reason = none;
  last_deduped_route = w.last_refused_route;
  last_refused_route = none;
  last_deduped_synthetic = w.last_refused_synthetic;
  last_refused_synthetic = none;
}

-- `_reclassify_legacy_dedup` with `_LEGACY_DEDUP_PROVENANCE`
unfoldable pub reclassify_wake : AgentWake → AgentWake
unfolding is_legacy
reclassify_wake w = if is_legacy w.last_refused_reason then moved_wake w else w

-- Whether the last refusal of a record is a duplicate that was filed as one.
unfoldable pub is_filed : Option String → Bool
is_filed none = false
is_filed (some reason) = ite (string_discrete reason "duplicate_delivery") true false

-- How many duplicates that is.
abbrev pub filed : Option String → ℕ
filed reason = if is_filed reason then 1 else 0

-- The first if the last refusal is a duplicate, and the second if not.
abbrev pub chosen : {A : Type 0} → Option String → A → A → A
chosen reason moved kept = if is_filed reason then moved else kept

-- What reclassifying makes of an agent's record.
abbrev pub MovedWake : AgentWake → Type 0
MovedWake w =
    ((reclassify_wake w).deduped ≡ w.deduped + filed w.last_refused_reason)
    × ((reclassify_wake w).refused + filed w.last_refused_reason ≡ w.refused)
    × ((reclassify_wake w).ok ≡ w.ok)
    × ((reclassify_wake w).failed ≡ w.failed)
    × (filed (reclassify_wake w).last_refused_reason ≡ 0)
    × ((reclassify_wake w).last_deduped_at
        ≡ chosen w.last_refused_reason w.last_refused_at w.last_deduped_at)
    × ((reclassify_wake w).last_refused_at ≡ chosen w.last_refused_reason none w.last_refused_at)
    × ((reclassify_wake w).last_deduped_route
        ≡ chosen w.last_refused_reason w.last_refused_route w.last_deduped_route)
    × ((reclassify_wake w).last_refused_route
        ≡ chosen w.last_refused_reason none w.last_refused_route)
    × ((reclassify_wake w).last_deduped_synthetic
        ≡ chosen w.last_refused_reason w.last_refused_synthetic w.last_deduped_synthetic)
    × ((reclassify_wake w).last_refused_synthetic
        ≡ chosen w.last_refused_reason none w.last_refused_synthetic)
    × (reclassify_wake (reclassify_wake w) ≡ reclassify_wake w)
    × ((reclassify_wake w).queued ≡ w.queued)
    × ((reclassify_wake w).by_route ≡ w.by_route)

-- What reclassifying makes of a route's row.
abbrev pub MovedRow : RouteWake → Type 0
MovedRow r =
    ((reclassify_row r).deduped ≡ r.deduped + filed r.last_refused_reason)
    × ((reclassify_row r).refused + filed r.last_refused_reason ≡ r.refused)
    × ((reclassify_row r).ok ≡ r.ok)
    × ((reclassify_row r).failed ≡ r.failed)
    × (filed (reclassify_row r).last_refused_reason ≡ 0)
    × ((reclassify_row r).last_deduped_at
        ≡ chosen r.last_refused_reason r.last_refused_at r.last_deduped_at)
    × ((reclassify_row r).last_refused_at ≡ chosen r.last_refused_reason none r.last_refused_at)
    × (reclassify_row (reclassify_row r) ≡ reclassify_row r)
