-- ===== src/Scheduler/Tests.antt =====
-- One lane, two agents: the first runs, the second waits (scheduler.py).
use basecradle_router.Base.{
  ℕ, ◌≤◌, ◌<◌, ◌≡◌, ◌≢◌, ◌⊎◌, refl, String, true, false, Option, none, some, List, [], ◌∷◌, ◌++◌,
  get, put, del, discard, length, string_discrete, contains,
}
use basecradle_router.Models.{Agent, Event, WakeKind, EventKind, harness_key}
use basecradle_router.Scheduler.{
  Scheduler, init, get_or, pending, Notice, submit, finish, is_turn, is_idle, deliver,
}
use basecradle_router.Scheduler.Sound.{jobs_of, line}
use basecradle_router.Scheduler.Tickets.{last_value}
use basecradle_router.Scheduler.System.{
  System, start_system, submits, finishes, delivers, Reach, here, next,
}
use basecradle_router.Scheduler.Promises.{
  running_bounds, line-history, never_faults, observer_is_current, idle_is_drained,
}
use basecradle_router.Scheduler.Fairness.{finish_advances}

abbrev agent : String → Agent
agent name = record {
  key = name;
  os_user = name;
  clone_path = "/home";
  wake_kind = WakeKind.claude;
  bot_slug = some "bot";
  recipient_uuid = none;
  wake_bin = none;
}

abbrev event : String → Event
event id = record {
  source = "github";
  kind = EventKind.handoff;
  recipient = record { by = "bot_slug"; value = "bot" };
  wake_arg = "arg";
  delivery_id = id;
  origin = none;
  occurred_at = none;
  event_type = none;
}

abbrev empty : Scheduler
empty = record {
  lanes = 1;
  queues = [];
  ready = [];
  ready_set = [];
  inflight = [];
  notifying = 0;
  notify_seq = [];
  notify_turn = [];
  saturated = false;
  submitted = [];
}

made : init 1 ≡ some empty
unfolding init
made = refl

-- The system after a submission, the end of a wake, and the delivery of the oldest notice.
abbrev submitted_to : Agent → Event → System → Option (Scheduler × Notice) → System
submitted_to a e y none = y
submitted_to a e y (some (s, n)) = record y {
  sched = s;
  claims = y.claims ++ n ∷ [];
  history = y.history ++ (harness_key a, record { agent = a; event = e }) ∷ [];
}

abbrev after_submit : Agent → Event → System → System
after_submit a e y = submitted_to a e y (submit a e y.sched)

submitted_to-Reach :
    {y z : System} (a : Agent) (e : Event) (o : Option (Scheduler × Notice))
    → submit a e z.sched ≡ o
    → Reach y z
    → Reach y (submitted_to a e z o)
submitted_to-Reach a e none done r = r
submitted_to-Reach {z = z} a e (some (s, n)) done r = next r (submits z a e s n done)

abbrev finished_to : System → Option (Scheduler × Notice) → System
finished_to y none = y
finished_to y (some (s, n)) = record y { sched = s; claims = y.claims ++ n ∷ [] }

abbrev after_finish : String → System → System
after_finish key y = finished_to y (finish key y.sched)

finished_to-Reach :
    {y z : System} (key : String) (o : Option (Scheduler × Notice))
    → contains string_discrete key z.sched.inflight ≡ true
    → finish key z.sched ≡ o
    → Reach y z
    → Reach y (finished_to z o)
finished_to-Reach key none running done r = r
finished_to-Reach {z = z} key (some (s, n)) running done r =
    next r (finishes z key s n running done)

abbrev after_deliver : System → List Notice → System
after_deliver y [] = y
after_deliver y (n ∷ rest) = record y {
  sched = deliver n y.sched;
  claims = rest;
  seen = put string_discrete n.key n.pending y.seen;
}

after_deliver-Reach :
    {y z : System} (n : Notice) (rest : List Notice)
    → z.claims ≡ n ∷ rest
    → is_turn n z.sched ≡ true
    → Reach y z
    → Reach y (after_deliver z (n ∷ rest))
after_deliver-Reach {z = z} n rest e turn r = next r (delivers z [] n rest e turn)

abbrev one : System
one = after_submit (agent "nova") (event "d1") (start_system empty)

one-Reach : Reach (start_system empty) one
one-Reach = submitted_to-Reach (agent "nova") (event "d1") _ refl here

-- `nova` runs and `vega` waits.
abbrev two : System
two = after_submit (agent "vega") (event "d2") one

two-Reach : Reach (start_system empty) two
two-Reach = submitted_to-Reach (agent "vega") (event "d2") _ refl one-Reach

running_bounds_example :
    (length two.sched.inflight ≤ two.sched.lanes)
    × ((k : String)
        → contains string_discrete k two.sched.ready ≡ true
        → contains string_discrete k two.sched.inflight ≡ false)
    × ((two.sched.ready ≡ []) ⊎ (two.sched.lanes ≤ length two.sched.inflight))
running_bounds_example = running_bounds 1 made two-Reach

line-history_example : line "vega" two.sched ≡ jobs_of "vega" two.history
line-history_example = line-history 1 made two-Reach "vega"

never_faults_example :
    ((a : Agent) (e : Event) → submit a e two.sched ≢ none)
    × ((key : String) → finish key two.sched ≢ none)
never_faults_example = never_faults 1 made two-Reach

observer_is_current_example :
    ((k : String) → last_value k (get_or two.seen k 0) two.claims ≡ pending k two.sched)
    × ((n : Notice) (rest : List Notice) → two.claims ≡ n ∷ rest → is_turn n two.sched ≡ true)
observer_is_current_example = observer_is_current 1 made two-Reach

finish_advances_example :
    (s : Scheduler) × (n : Notice) × (finish "nova" two.sched ≡ some (s, n))
    × ((contains string_discrete "vega" s.inflight ≡ true)
        ⊎ ((before : List String) × (rest : List String) × (s.ready ≡ before ++ "vega" ∷ rest)
            × (length before < 0)))
unfolding submit finish contains get put del string_discrete discard deliver is_turn is_idle pending
finish_advances_example = finish_advances 1 "nova" "vega" [] [] made two-Reach refl refl

-- One wake from its submission to the delivery of its last notice.
abbrev ended : System
ended = after_finish "nova" one

ended-Reach : Reach (start_system empty) ended
unfolding submit finish contains get put del string_discrete discard deliver is_turn is_idle pending
ended-Reach = finished_to-Reach "nova" _ refl refl one-Reach

abbrev notice : ℕ → ℕ → Notice
notice pending ticket = record { key = "nova"; pending = pending; ticket = ticket }

abbrev told : System
told = after_deliver ended (notice 1 0 ∷ notice 0 1 ∷ [])

told-Reach : Reach (start_system empty) told
unfolding submit finish contains get put del string_discrete discard deliver is_turn is_idle pending
told-Reach = after_deliver-Reach (notice 1 0) (notice 0 1 ∷ []) refl refl ended-Reach

abbrev drained : System
drained = after_deliver told (notice 0 1 ∷ [])

drained-Reach : Reach (start_system empty) drained
unfolding submit finish contains get put del string_discrete discard deliver is_turn is_idle pending
drained-Reach = after_deliver-Reach (notice 0 1) [] refl refl told-Reach

idle_is_drained_example :
    (jobs_of "nova" drained.sched.submitted ≡ jobs_of "nova" drained.history)
    × (get_or drained.seen "nova" 0 ≡ 0)
unfolding submit finish contains get put del string_discrete discard deliver is_turn is_idle pending
idle_is_drained_example = idle_is_drained 1 made drained-Reach refl "nova"
