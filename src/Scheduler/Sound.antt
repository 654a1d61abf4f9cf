-- ===== src/Scheduler/Sound.antt =====
-- What holds of the queues, the ready agents and the lanes between critical sections (scheduler.py).
use basecradle_router.Base.{
  ◌+◌, ◌≤◌, ◌<◌, ◌≡◌, refl, String, Bool, true, false, not, ◌||◌, Option, none, some, List, [], ◌∷◌,
  ◌++◌, Dict, get, get-put, get-del, length, length-append, if◌then◌else◌, string_discrete,
  contains, discard, contains-snoc, contains-discard, arith, ite,
}
use basecradle_router.Scheduler.{Job, Scheduler, add, get_or, is_nil, drop_head, start, dispatch}

-- No agent stands in the list twice.
abbrev pub Distinct : List String → Type 0
Distinct [] = Unit
Distinct (k ∷ ks) = (contains string_discrete k ks ≡ false) × Distinct ks

-- An agent's queue is never empty, and an agent with a queue is ready or running.
abbrev pub queued_ok : Option (List Job) → Bool → Bool → Bool
queued_ok none is_ready is_running = not is_ready
queued_ok (some []) is_ready is_running = false
queued_ok (some (job ∷ queue)) is_ready is_running = is_ready || is_running

-- The state, with its ready queue given apart, as it stands inside the loop of `pump`.
pub record Sound (ready : List String) (s : Scheduler) : Type 0 where
  pub within : length s.inflight ≤ s.lanes
  pub mirror :
      (k : String) → contains string_discrete k s.ready_set ≡ contains string_discrete k ready
  pub distinct : Distinct ready
  pub single :
      (k : String)
      → contains string_discrete k ready ≡ true
      → contains string_discrete k s.inflight ≡ false
  pub queued :
      (k : String)
      → queued_ok
          (get string_discrete k s.queues)
          (contains string_discrete k ready)
          (contains string_discrete k s.inflight)
        ≡ true

-- The jobs that the pool was handed for an agent, in order.
unfoldable pub jobs_of : String → List (String × Job) → List Job
jobs_of k [] = []
jobs_of k ((j, job) ∷ l) = ite (string_discrete j k) (job ∷ jobs_of k l) (jobs_of k l)

-- An agent's line: what was handed to the pool, then what waits.
unfoldable pub line : String → Scheduler → List Job
line k s = jobs_of k s.submitted ++ get_or s.queues k []

queue_of_ready :
    (o : Option (List Job)) (r f : Bool)
    → r ≡ true
    → queued_ok o r f ≡ true
    → (job : Job) × (queue : List Job) × (o ≡ some (job ∷ queue))
queue_of_ready none r f e h = absurd (ground arith)
queue_of_ready (some []) r f e h = cc
queue_of_ready (some (job ∷ queue)) r f e h = (job, queue, refl)

length-add-le : (k : String) (ks : List String) → length (add k ks) ≤ length ks + 1
unfolding add
length-add-le k ks = ground (arith, length-append ks (k ∷ []))

pub contains_self : (k : String) (ks : List String) → contains string_discrete k (k ∷ ks) ≡ true
unfolding contains
contains_self k ks = ground arith

pub contains-add :
    (k j : String) (ks : List String)
    → contains string_discrete k (add j ks)
      ≡ (contains string_discrete k ks || ite (string_discrete j k) true false)
unfolding add
contains-add k j ks = ground (arith, contains-snoc string_discrete k j ks)

pub get-drop_head :
    (k j : String) (queue : List Job) (m : Dict String (List Job))
    → get string_discrete k (drop_head j queue m)
      ≡ ite
          (string_discrete j k)
          (if is_nil queue then none else some queue)
          (get string_discrete k m)
unfolding drop_head
get-drop_head k j [] m = get-del string_discrete k j m
get-drop_head k j (job ∷ queue) m = get-put string_discrete k j (job ∷ queue) m

-- The state after the head job of an agent went to the pool.
abbrev pub started : String → Job → List Job → Scheduler → Scheduler
started key job queue s = record s {
  ready_set = discard string_discrete key s.ready_set;
  queues = drop_head key queue s.queues;
  inflight = add key s.inflight;
  submitted = s.submitted ++ (key, job) ∷ [];
}

module _ (key : String) (rest : List String) (s : Scheduler) (h : Sound (key ∷ rest) s) where
  head_job :
      (job : Job) × (queue : List Job) × (get string_discrete key s.queues ≡ some (job ∷ queue))
  head_job = queue_of_ready _ _ _ (contains_self key rest) (h.queued key)

  started-queued :
      (queue : List Job) (k : String)
      → queued_ok
          (get string_discrete k (drop_head key queue s.queues))
          (contains string_discrete k rest)
          (contains string_discrete k (add key s.inflight))
        ≡ true
  unfolding contains
  started-queued queue k = ground (
    arith,
    h.queued k,
    h.distinct.0,
    get-drop_head k key queue s.queues,
    contains-add k key s.inflight,
  )

  started-Sound :
      (job : Job) (queue : List Job)
      → length s.inflight < s.lanes
      → Sound rest (started key job queue s)
  unfolding contains
  started-Sound job queue room = record {
    within = omega (arith, length-add-le key s.inflight);
    mirror = λ k.
        ground
          (arith, h.mirror k, contains-discard string_discrete k key s.ready_set, h.distinct.0);
    distinct = h.distinct.1;
    single = λ k e. ground (arith, h.single k, contains-add k key s.inflight, h.distinct.0);
    queued = started-queued queue;
  }

  -- Dispatch never faults: a ready agent always has a queue with a job at its head.
  pub dispatch-started :
      length s.inflight < s.lanes
      → (job : Job) × (queue : List Job) × (get string_discrete key s.queues ≡ some (job ∷ queue))
        × (dispatch key s ≡ some (started key job queue s))
        × Sound rest (started key job queue s)
  unfolding dispatch
  dispatch-started room =
      let (job, queue, there) = head_job in
      (job, queue, there, rw (there, start), started-Sound job queue room)
