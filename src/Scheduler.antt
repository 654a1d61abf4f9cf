-- ===== src/Scheduler.antt =====
-- scheduler.py: per-agent queues, a bounded pool of lanes, round-robin dispatch, and ordered
-- queue-change notifications. `None` results stand for a `KeyError` or an `IndexError`.
pub mod Sound
pub mod Pump
pub mod Steps
mod Tickets
pub mod System
mod Delivery
mod Invariance
pub mod Promises
pub mod Fairness
mod Tests
use basecradle_router.Base.{
  ℕ, zero, suc, ◌+◌, ◌-◌, String, Bool, true, false, not, ◌&&◌, ◌||◌, Option, none, some, List, [],
  ◌∷◌, ◌++◌, Dict, get, put, del, length, leb, ltb, ◌==◌, if◌then◌else◌, string_discrete, contains,
  discard,
}
use basecradle_router.Models.{Agent, Event, harness_key}

-- `_Job`; the result record that rides along is only handed to the runner.
pub record Job : Type 0 where
  pub agent : Agent
  pub event : Event

-- The fields of `WakeScheduler`; `submitted` is what the executor was handed, in order.
pub record Scheduler : Type 0 where
  pub lanes : ℕ
  pub queues : Dict String (List Job)
  pub ready : List String
  pub ready_set : List String
  pub inflight : List String
  pub notifying : ℕ
  pub notify_seq : Dict String ℕ
  pub notify_turn : Dict String ℕ
  pub saturated : Bool
  pub submitted : List (String × Job)

-- `lanes < 1` is a `ValueError`.
unfoldable pub init : ℕ → Option Scheduler
init lanes =
    if ltb lanes 1
    then none
    else some (record {
      lanes = lanes;
      queues = [];
      ready = [];
      ready_set = [];
      inflight = [];
      notifying = 0;
      notify_seq = [];
      notify_turn = [];
      saturated = false;
      submitted = [];
    })

infixl 5 ◌>>=◌
abbrev pub ◌>>=◌ : {A B : Type 0} → Option A → (A → Option B) → Option B
none >>= f = none
some a >>= f = f a

-- `set.add`
unfoldable pub add : String → List String → List String
add k ks = if contains string_discrete k ks then ks else ks ++ k ∷ []

-- `d.get(key, default)`
abbrev pub get_or : {V : Type 0} → Dict String V → String → V → V
get_or d k v = elim (get string_discrete k d) [ none ↦ v | some w ↦ w ]

abbrev pub is_nil : {A : Type 0} → List A → Bool
is_nil [] = true
is_nil (x ∷ xs) = false

-- An agent's queue without its head, dropped from the registry when it is empty.
unfoldable pub drop_head : String → List Job → Dict String (List Job) → Dict String (List Job)
drop_head key [] m = del string_discrete key m
drop_head key (job ∷ queue) m = put string_discrete key (job ∷ queue) m

start : String → Scheduler → Option (List Job) → Option Scheduler
start key s none = none
start key s (some []) = none
start key s (some (job ∷ queue)) = some (record s {
  ready_set = discard string_discrete key s.ready_set;
  queues = drop_head key queue s.queues;
  inflight = add key s.inflight;
  submitted = s.submitted ++ (key, job) ∷ [];
})

-- One round of `_pump_locked`: the head job of a ready agent goes to the pool.
pub dispatch : String → Scheduler → Option Scheduler
unfolding start add drop_head
dispatch key s = start key s (get string_discrete key s.queues)

-- The loop of `_pump_locked`, over the ready agents.
pub pump_ready : List String → Scheduler → Option Scheduler
unfolding dispatch
pump_ready [] s = some (record s { ready = [] })
pump_ready (key ∷ rest) s =
    if ltb (length s.inflight) s.lanes
    then dispatch key s >>= pump_ready rest
    else some (record s { ready = key ∷ rest })

pub note_saturation : Scheduler → Scheduler
note_saturation s = record s { saturated = leb s.lanes (length s.inflight) && not (is_nil s.ready) }

unfoldable pub pump : Scheduler → Option Scheduler
unfolding pump_ready note_saturation
pump s = do s' ← pump_ready s.ready s; some (note_saturation s')

unfoldable pub pending : String → Scheduler → ℕ
pending key s =
    length (get_or s.queues key []) + (if contains string_discrete key s.inflight then 1 else 0)

-- `_claim_notification_locked`: the ticket, and the state that holds the claim
unfoldable pub claim : String → Scheduler → ℕ × Scheduler
claim key s =
    let ticket = get_or s.notify_seq key 0 in
    (
      ticket,
      record s {
        notify_seq = put string_discrete key (ticket + 1) s.notify_seq;
        notifying = s.notifying + 1;
      },
    )

-- Appends the agent to the ready queue if the test passes.
unfoldable pub make_ready : Bool → String → Scheduler → Scheduler
unfolding add
make_ready test key s =
    if test then record s { ready = s.ready ++ key ∷ []; ready_set = add key s.ready_set } else s

-- A decided notification: the agent, its pending count and its ticket.
pub record Notice : Type 0 where
  pub key : String
  pub pending : ℕ
  pub ticket : ℕ

-- What both critical sections end with: dispatch, then read the count and claim its slot.
unfoldable pub settle : String → Scheduler → Option (Scheduler × Notice)
unfolding pump claim
settle key s = do
  s' ← pump s
  let (ticket, s'') = claim key s'
  some (s'', record { key = key; pending = pending key s'; ticket = ticket })

enqueue : String → Job → Scheduler → Scheduler
enqueue key job s = record s {
  queues = put string_discrete key (get_or s.queues key [] ++ job ∷ []) s.queues;
}

unfoldable pub submit : Agent → Event → Scheduler → Option (Scheduler × Notice)
unfolding enqueue make_ready settle
submit agent event s =
    let key = harness_key agent in
    let test =
      not (contains string_discrete key s.inflight)
      && not (contains string_discrete key s.ready_set) in
    settle key (make_ready test key (enqueue key (record { agent = agent; event = event }) s))

-- The `finally` of `_run_job`, after the wake.
unfoldable pub finish : String → Scheduler → Option (Scheduler × Notice)
unfolding make_ready settle
finish key s =
    let freed : Scheduler = record s { inflight = discard string_discrete key s.inflight } in
    let test =
      not (is_nil (get_or s.queues key [])) && not (contains string_discrete key s.ready_set) in
    settle key (make_ready test key freed)

-- What `_deliver_queue_change` waits for: the notice's turn.
unfoldable pub is_turn : Notice → Scheduler → Bool
is_turn n s = get_or s.notify_turn n.key 0 == n.ticket

-- Its `finally`, after the observer returned or raised.
unfoldable pub deliver : Notice → Scheduler → Scheduler
deliver n s =
    let turn = n.ticket + 1 in
    if get_or s.notify_seq n.key 0 == turn
    then record s {
      notify_seq = del string_discrete n.key s.notify_seq;
      notify_turn = del string_discrete n.key s.notify_turn;
      notifying = s.notifying - 1;
    }
    else record s {
      notify_turn = put string_discrete n.key turn s.notify_turn;
      notifying = s.notifying - 1;
    }

unfoldable pub is_idle : Scheduler → Bool
is_idle s = is_nil s.inflight && is_nil s.ready && s.notifying == 0
