-- ===== src/Evidence/Tests.antt =====
-- A wake that failed and one that succeeded, a write that fails, and an old record (evidence.py).
use basecradle_router.Base.{
  codes, string_discrete, ℕ, suc, ◌+◌, ◌≡◌, ◌≤◌, ◌⊎◌, refl, Bool, true, false, Option, none, some,
  String, List, [], ◌∷◌, ◌++◌, All,
}
use basecradle_router.Evidence.{AgentWake, RouteWake, new_row, new_wake, new_document, or_default}
use basecradle_router.Evidence.Store.{
  Store, Call, wake_ok, wake_failed, call, during, call_all, discard_stale,
}
use basecradle_router.Evidence.Disk.{finishes, write_fails, chmod_fails}
use basecradle_router.Evidence.Tally.{ok_kind, of_wake, wake_of, of_row, row_of, call_all-tally}
use basecradle_router.Evidence.Durable.{Holds, after, Idle, call_all-file, discard_stale-Idle}
use basecradle_router.Evidence.Legacy.{duplicate_delivery}

abbrev store : Store
store = record {
  has_path = true;
  dumps = λ d. codes (or_default "null" d.updated_at);
  doc = new_document;
  disk = record { file = none; temps = [] };
  write_failed = false;
}

abbrev calls : List Call
calls =
    record {
      what = wake_failed "nova" "timeout" "github" false;
      now = "t1";
      flushed_at = "t1";
      trouble = finishes;
    }
    ∷ record {
      what = wake_ok "nova" "d" "github" false;
      now = "t2";
      flushed_at = "t2";
      trouble = write_fails 1 false;
    }
    ∷ []

call_all-tally_example :
    (of_wake ok_kind (wake_of "nova" (call_all calls store).doc) ≡ 1 + 0)
    × (of_row ok_kind (row_of "github" (wake_of "nova" (call_all calls store).doc)) ≡ 1 + 0)
unfolding basecradle_router.Base.string_discrete basecradle_router.Base.get
call_all-tally_example = call_all-tally ok_kind "nova" "github" calls store

abbrev third : Call
third = record {
  what = wake_ok "nova" "d" "github" false;
  now = "t3";
  flushed_at = "t3";
  trouble = chmod_fails true;
}

call_all-file_example :
    Holds (calls ++ third ∷ []) store (during 2 third (call_all calls store)).file
    × ((call third (call_all calls store)).disk ≡ after third (call_all calls store))
call_all-file_example = call_all-file 2 calls third store

abbrev crashed : Store
crashed = record store {
  doc = record new_document { agent_wakes = ("nova", record new_wake { ok = 2; queued = 1 }) ∷ [] };
}

discard_stale-Idle_example :
    All Idle (discard_stale "t3" finishes crashed).doc.agent_wakes
    × (of_wake ok_kind (wake_of "nova" (discard_stale "t3" finishes crashed).doc)
        ≡ of_wake ok_kind (wake_of "nova" crashed.doc))
discard_stale-Idle_example = discard_stale-Idle ok_kind "nova" "t3" finishes crashed

abbrev old_wake : AgentWake
old_wake = record new_wake { ok = 1; refused = 2; last_refused_reason = some duplicate_delivery }

abbrev old_row : RouteWake
old_row = record new_row { ok = 1; refused = 1; last_refused_reason = some duplicate_delivery }
