-- ===== src/Evidence/Store.antt =====
-- The `record_*` methods of `EvidenceStore` and its flush (evidence.py).
use basecradle_router.Base.{
  ℕ, suc, Bool, true, false, Option, none, some, String, List, [], ◌∷◌, Dict, get, if◌then◌else◌,
  codes, string_discrete, ◌==◌, ◌||◌, ◌&&◌,
}
use basecradle_router.Evidence.Disk.{Disk, Op, Trouble, is_raised, first, atomic_write, perform}
use basecradle_router.Models.{is_empty}
use basecradle_router.Evidence.{
  Sink, RouteWake, AgentWake, Document, new_sink, new_row, new_wake, cut, or_default,
  update_default,
}

-- A call of a `record_*` method.
pub data Recording : Type 0 where
  delivery_accepted : String → Recording
  delivery_rejected : String → String → Recording
  delivery_decision : String → Bool → Recording
  wake_ok : String → String → String → Bool → Recording
  wake_failed : String → String → String → Bool → Recording
  wake_refused : String → String → String → Bool → Recording
  wake_deduped : String → String → Bool → Recording
  queue_depth : String → ℕ → Recording
  freeze_selftest_result : String → String → Recording

abbrev pub accepted_sink : String → Sink → Sink
accepted_sink at s = record s { accepted = suc s.accepted; last_accepted_at = some at }

abbrev pub rejected_sink : String → String → Sink → Sink
rejected_sink at reason s = record s {
  rejected = suc s.rejected;
  last_rejected_at = some at;
  last_reject_reason = some (cut 200 reason);
}

abbrev pub decided_sink : Bool → Sink → Sink
decided_sink true s = record s { woke = suc s.woke }
decided_sink false s = record s { ignored = suc s.ignored }

abbrev pub ok_row : String → String → RouteWake → RouteWake
ok_row at delivery r = record r {
  ok = suc r.ok;
  last_ok_at = some at;
  last_ok_delivery = some delivery;
}

abbrev pub ok_wake : String → String → String → Bool → AgentWake → AgentWake
ok_wake at delivery route synthetic w = record w {
  ok = suc w.ok;
  last_ok_at = some at;
  last_ok_delivery = some delivery;
  last_ok_route = some route;
  last_ok_synthetic = some synthetic;
  by_route = update_default new_row route (ok_row at delivery) w.by_route;
}

abbrev pub failed_row : String → String → RouteWake → RouteWake
failed_row at reason r = record r {
  failed = suc r.failed;
  last_failed_at = some at;
  last_failed_reason = some (cut 200 reason);
}

abbrev pub failed_wake : String → String → String → Bool → AgentWake → AgentWake
failed_wake at reason route synthetic w = record w {
  failed = suc w.failed;
  last_failed_at = some at;
  last_failed_reason = some (cut 200 reason);
  last_failed_route = some route;
  last_failed_synthetic = some synthetic;
  by_route = update_default new_row route (failed_row at reason) w.by_route;
}

abbrev pub refused_row : String → String → RouteWake → RouteWake
refused_row at reason r = record r {
  refused = suc r.refused;
  last_refused_at = some at;
  last_refused_reason = some (cut 200 reason);
}

abbrev pub refused_wake : String → String → String → Bool → AgentWake → AgentWake
refused_wake at reason route synthetic w = record w {
  refused = suc w.refused;
  last_refused_at = some at;
  last_refused_reason = some (cut 200 reason);
  last_refused_route = some route;
  last_refused_synthetic = some synthetic;
  by_route = update_default new_row route (refused_row at reason) w.by_route;
}

abbrev pub deduped_row : String → RouteWake → RouteWake
deduped_row at r = record r { deduped = suc r.deduped; last_deduped_at = some at }

abbrev pub deduped_wake : String → String → Bool → AgentWake → AgentWake
deduped_wake at route synthetic w = record w {
  deduped = suc w.deduped;
  last_deduped_at = some at;
  last_deduped_route = some route;
  last_deduped_synthetic = some synthetic;
  by_route = update_default new_row route (deduped_row at) w.by_route;
}

abbrev pub change_sink : String → (Sink → Sink) → Document → Document
change_sink route change d = record d {
  delivery_sinks = update_default new_sink route change d.delivery_sinks;
}

abbrev pub change_wake : String → (AgentWake → AgentWake) → Document → Document
change_wake agent change d = record d {
  agent_wakes = update_default new_wake agent change d.agent_wakes;
}

abbrev or_nothing : String → Option String
or_nothing s = if is_empty (codes s) then none else some s

-- What a call changes in the document, at a moment.
unfoldable pub recorded : String → Recording → Document → Document
unfolding update_default cut
recorded at (delivery_accepted route) d = change_sink route (accepted_sink at) d
recorded at (delivery_rejected route reason) d = change_sink route (rejected_sink at reason) d
recorded at (delivery_decision route woke) d = change_sink route (decided_sink woke) d
recorded at (wake_ok agent delivery route synthetic) d =
    change_wake agent (ok_wake at delivery route synthetic) d
recorded at (wake_failed agent reason route synthetic) d =
    change_wake agent (failed_wake at reason route synthetic) d
recorded at (wake_refused agent reason route synthetic) d =
    change_wake agent (refused_wake at reason route synthetic) d
recorded at (wake_deduped agent route synthetic) d =
    change_wake agent (deduped_wake at route synthetic) d
recorded at (queue_depth agent pending) d = change_wake agent (λ w. record w { queued = pending }) d
recorded at (freeze_selftest_result status detail) d = record d {
  freeze_selftest = record {
    status = some status;
    checked_at = some at;
    detail = or_nothing (cut 200 detail);
  };
}

-- Whether the method flushes: `record_queue_depth` does not if nothing changed.
unfoldable pub flushes : Recording → Document → Bool
flushes (queue_depth agent pending) d =
    if (or_default new_wake (get string_discrete agent d.agent_wakes)).queued == pending
    then false
    else true
flushes _ d = true

-- The store: whether it has a path, its document, the directory of the file, and whether a write
-- failed. The text that `json.dumps` makes of a document's `to_json` is a parameter.
pub record Store : Type 0 where
  pub has_path : Bool
  pub dumps : Document → List ℕ
  pub doc : Document
  pub disk : Disk
  pub write_failed : Bool

abbrev pub stamped : String → Document → Document
stamped now d = record d { updated_at = some now }

-- What `_flush_locked` at a moment does in the directory, with the trouble that its write meets.
unfoldable pub writes : String → Trouble → Store → List Op
unfolding atomic_write
writes now trouble s = if s.has_path then atomic_write (s.dumps (stamped now s.doc)) trouble else []

-- `_flush_locked`
unfoldable pub flush : String → Trouble → Store → Store
unfolding writes perform
flush now trouble s = record s {
  doc = stamped now s.doc;
  disk = perform (writes now trouble s) s.disk;
  write_failed = s.write_failed || (s.has_path && is_raised trouble);
}

-- One call: the moments of the change and of the flush, and the trouble that its write meets.
pub record Call : Type 0 where
  pub what : Recording
  pub now : String
  pub flushed_at : String
  pub trouble : Trouble

-- The store with a call's change, before its flush.
unfoldable pub change : Call → Store → Store
unfolding recorded
change c s = record s { doc = recorded c.now c.what s.doc }

unfoldable pub call : Call → Store → Store
unfolding change flushes flush
call c s = if flushes c.what s.doc then flush c.flushed_at c.trouble (change c s) else change c s

-- The directory during a call, when a number of the changes of its flush are made: what a reader
-- sees then, or what a process that is killed then leaves.
unfoldable pub during : ℕ → Call → Store → Disk
unfolding change flushes writes perform first
during n c s =
    if flushes c.what s.doc
    then perform (first n (writes c.flushed_at c.trouble (change c s))) s.disk
    else s.disk

unfoldable pub call_all : List Call → Store → Store
unfolding call
call_all [] s = s
call_all (c ∷ cs) s = call_all cs (call c s)

-- `_discard_stale_queue_depths`, the depths
unfoldable pub zero_depths : Dict String AgentWake → Dict String AgentWake
zero_depths [] = []
zero_depths ((agent, w) ∷ m) = (agent, record w { queued = 0 }) ∷ zero_depths m

unfoldable pub any_depth : Dict String AgentWake → Bool
any_depth [] = false
any_depth ((agent, w) ∷ m) = if w.queued == 0 then any_depth m else true

unfoldable pub discard_stale : String → Trouble → Store → Store
unfolding zero_depths any_depth flush
discard_stale now trouble s =
    if any_depth s.doc.agent_wakes
    then flush now trouble
        (record s { doc = record s.doc { agent_wakes = zero_depths s.doc.agent_wakes } })
    else s
