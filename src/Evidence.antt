-- ===== src/Evidence.antt =====
-- `EvidenceStore` and its document (evidence.py). A moment is the text that `_iso` makes of it.
mod Disk
mod Store
mod Tally
mod Durable
mod Legacy
mod Tests
use Prim.Native.String
use basecradle_router.Base.{
  ℕ, suc, zero, ◌+◌, ◌-◌, Bool, true, false, Option, none, some, String, List, [], ◌∷◌, Dict, get,
  put, ite, if◌then◌else◌, codes, string_discrete, ◌==◌, ℕ_discrete,
}
use basecradle_router.Models.{is_empty}

-- `DeliverySinkEvidence`
pub record Sink : Type 0 where
  pub accepted : ℕ
  pub rejected : ℕ
  pub woke : ℕ
  pub ignored : ℕ
  pub last_accepted_at : Option String
  pub last_rejected_at : Option String
  pub last_reject_reason : Option String

-- `RouteWakeEvidence`
pub record RouteWake : Type 0 where
  pub ok : ℕ
  pub failed : ℕ
  pub refused : ℕ
  pub deduped : ℕ
  pub last_ok_at : Option String
  pub last_ok_delivery : Option String
  pub last_failed_at : Option String
  pub last_failed_reason : Option String
  pub last_refused_at : Option String
  pub last_refused_reason : Option String
  pub last_deduped_at : Option String

-- `AgentWakeEvidence`
pub record AgentWake : Type 0 where
  pub ok : ℕ
  pub failed : ℕ
  pub refused : ℕ
  pub deduped : ℕ
  pub last_ok_at : Option String
  pub last_ok_delivery : Option String
  pub last_ok_route : Option String
  pub last_ok_synthetic : Option Bool
  pub last_failed_at : Option String
  pub last_failed_reason : Option String
  pub last_failed_route : Option String
  pub last_failed_synthetic : Option Bool
  pub last_refused_at : Option String
  pub last_refused_reason : Option String
  pub last_refused_route : Option String
  pub last_refused_synthetic : Option Bool
  pub last_deduped_at : Option String
  pub last_deduped_route : Option String
  pub last_deduped_synthetic : Option Bool
  pub queued : ℕ
  pub by_route : Dict String RouteWake

-- `SelfTestEvidence`
pub record SelfTest : Type 0 where
  pub status : Option String
  pub checked_at : Option String
  pub detail : Option String

-- `EvidenceDocument`
pub record Document : Type 0 where
  pub updated_at : Option String
  pub delivery_sinks : Dict String Sink
  pub agent_wakes : Dict String AgentWake
  pub freeze_selftest : SelfTest

abbrev pub new_sink : Sink
new_sink = record {
  accepted = 0;
  rejected = 0;
  woke = 0;
  ignored = 0;
  last_accepted_at = none;
  last_rejected_at = none;
  last_reject_reason = none;
}

abbrev pub new_row : RouteWake
new_row = record {
  ok = 0;
  failed = 0;
  refused = 0;
  deduped = 0;
  last_ok_at = none;
  last_ok_delivery = none;
  last_failed_at = none;
  last_failed_reason = none;
  last_refused_at = none;
  last_refused_reason = none;
  last_deduped_at = none;
}

abbrev pub new_wake : AgentWake
new_wake = record {
  ok = 0;
  failed = 0;
  refused = 0;
  deduped = 0;
  last_ok_at = none;
  last_ok_delivery = none;
  last_ok_route = none;
  last_ok_synthetic = none;
  last_failed_at = none;
  last_failed_reason = none;
  last_failed_route = none;
  last_failed_synthetic = none;
  last_refused_at = none;
  last_refused_reason = none;
  last_refused_route = none;
  last_refused_synthetic = none;
  last_deduped_at = none;
  last_deduped_route = none;
  last_deduped_synthetic = none;
  queued = 0;
  by_route = [];
}

abbrev pub new_document : Document
new_document = record {
  updated_at = none;
  delivery_sinks = [];
  agent_wakes = [];
  freeze_selftest = record { status = none; checked_at = none; detail = none };
}

-- `_reason`
unfoldable pub cut : ℕ → String → String
cut zero s = ""
cut (suc n) String.[] = ""
cut (suc n) (String.◌∷◌ c s) = String.◌∷◌ c (cut n s)

abbrev pub or_default {ℓ} : {A : Type ℓ} → A → Option A → A
or_default a none = a
or_default a (some b) = b

-- `d.setdefault(key, default)`, and then a change of what it gives
unfoldable pub update_default : {V : Type 0} → V → String → (V → V) → Dict String V → Dict String V
update_default default key change m =
    put string_discrete key (change (or_default default (get string_discrete key m))) m
