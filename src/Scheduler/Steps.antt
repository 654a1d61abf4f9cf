-- ===== src/Scheduler/Steps.antt =====
-- `submit` and the end of a wake over sound queues (scheduler.py).
use basecradle_router.Base.{
  ◌+◌, ◌≤◌, ◌≡◌, ◌≢◌, ◌⊎◌, inl, inr, refl, ap, String, Bool, false, not, ◌&&◌, some, List, [], ◌∷◌,
  ◌++◌, put, get-put, length, length-append, string_discrete, contains, discard, contains-snoc,
  contains-discard, arith, Bool-cases, ite,
}
use mathlib.Core.List.{append_assoc, append-nil}
use basecradle_router.Models.{Agent, Event, harness_key}
use basecradle_router.Scheduler.{
  Job, Scheduler, get_or, is_nil, note_saturation, pump, make_ready, enqueue, claim, pending,
  Notice, settle, submit, finish,
}
use basecradle_router.Scheduler.Sound.{Sound, Distinct, jobs_of, line, contains-add}
use basecradle_router.Scheduler.Pump.{pump_ready-Pumped}

-- What a critical section for `key` leaves, from a state with sound queues.
pub record Settled (key : String) (s s' : Scheduler) (n : Notice) : Type 0 where
  pub sound : Sound s'.ready s'
  pub busy : (s'.ready ≡ []) ⊎ (s'.lanes ≤ length s'.inflight)
  pub lines : (k : String) → line k s' ≡ line k s
  pub owed : (k : String) → pending k s' ≡ pending k s
  pub lanes : s'.lanes ≡ s.lanes
  pub seq : s'.notify_seq ≡ put string_discrete key (n.ticket + 1) s.notify_seq
  pub turn : s'.notify_turn ≡ s.notify_turn
  pub notifying : s'.notifying ≡ s.notifying + 1
  pub named : n.key ≡ key
  pub counted : n.pending ≡ pending key s'
  pub ticket : n.ticket ≡ get_or s.notify_seq key 0

pub settle-Settled :
    (key : String) (s : Scheduler)
    → Sound s.ready s
    → (s' : Scheduler) × (n : Notice) × (settle key s ≡ some (s', n)) × Settled key s s' n
unfolding settle pump note_saturation claim pending line
settle-Settled key s h =
    let (p, reached, done) = pump_ready-Pumped s.ready s h in
    let q : Scheduler = note_saturation p in
    let n : Notice = record {
      key = key;
      pending = pending key q;
      ticket = get_or q.notify_seq key 0;
    } in
    (
      (claim key q).1,
      n,
      rw reached refl,
      record {
        sound = record {
          within = done.sound.within;
          mirror = done.sound.mirror;
          distinct = done.sound.distinct;
          single = done.sound.single;
          queued = done.sound.queued;
        };
        busy = done.busy;
        lines = done.lines;
        owed = done.owed;
        lanes = done.lanes;
        seq = rw done.seq refl;
        turn = done.turn;
        notifying = ap (λ m. m + 1) done.notifying;
        named = refl;
        counted = refl;
        ticket = rw done.seq refl;
      },
    )

Distinct-snoc :
    (k : String) (ks : List String)
    → contains string_discrete k ks ≡ false
    → Distinct ks
    → Distinct (ks ++ k ∷ [])
unfolding contains
Distinct-snoc k [] e h = (refl, tt)
Distinct-snoc k (j ∷ ks) e h = (
  ground (arith, contains-snoc string_discrete j k ks, h.0),
  Distinct-snoc k ks (ground arith) h.1,
)

pub length-discard-le :
    (k : String) (ks : List String) → length (discard string_discrete k ks) ≤ length ks
unfolding discard
length-discard-le k [] = omega arith
length-discard-le k (j ∷ ks) = ground (arith, length-discard-le k ks)

-- The state that `submit` hands to `settle`.
pub submitted_state : String → Job → Scheduler → Scheduler
unfolding make_ready enqueue
submitted_state key job s =
    make_ready
      (not (contains string_discrete key s.inflight)
        && not (contains string_discrete key s.ready_set))
      key (enqueue key job s)

submitted_state-Sound :
    (key : String) (job : Job) (s : Scheduler)
    → Sound s.ready s
    → Sound (submitted_state key job s).ready (submitted_state key job s)
unfolding submitted_state
submitted_state-Sound key job s h = record {
  within = ground (arith, h.within);
  mirror = λ k. ground (
    arith,
    h.mirror k,
    contains-add k key s.ready_set,
    contains-snoc string_discrete k key s.ready,
  );
  distinct = elim (Bool-cases test) [
    | inl new ↦ rw new (Distinct-snoc key s.ready (ground (arith, h.mirror key)) h.distinct)
    | inr old ↦ rw old h.distinct
  ];
  single =
      λ k e. ground (arith, h.single k, h.mirror key, contains-snoc string_discrete k key s.ready);
  queued = λ k. ground (
    arith,
    h.queued k,
    h.mirror key,
    h.queued key,
    contains-snoc string_discrete k key s.ready,
    get-put string_discrete k key (get_or s.queues key [] ++ job ∷ []) s.queues,
  );
}
  where
    test : Bool
    test =
        not (contains string_discrete key s.inflight)
        && not (contains string_discrete key s.ready_set)

pub line-submitted_state :
    (k key : String) (job : Job) (s : Scheduler)
    → line k (submitted_state key job s) ≡ line k s ++ ite (string_discrete key k) (job ∷ []) []
unfolding submitted_state line
line-submitted_state k key job s = ground (
  arith,
  get-put string_discrete k key (get_or s.queues key [] ++ job ∷ []) s.queues,
  append_assoc (jobs_of k s.submitted) (get_or s.queues k []) (job ∷ []),
  append-nil (jobs_of k s.submitted ++ get_or s.queues k []),
)

-- From sound queues `submit` never faults, keeps them sound, leaves no free lane beside a waiting
-- agent, and puts the job at the end of its agent's line and of no other.
pub submit-Settled :
    (agent : Agent) (event : Event) (s : Scheduler)
    → Sound s.ready s
    → (s' : Scheduler) × (n : Notice) × (submit agent event s ≡ some (s', n))
      × Settled
          (harness_key agent)
          (submitted_state (harness_key agent) (record { agent = agent; event = event }) s)
          s'
          n
unfolding submit submitted_state
submit-Settled agent event s h =
    settle-Settled (harness_key agent) _ (submitted_state-Sound (harness_key agent) _ s h)

-- The state that the end of a wake hands to `settle`.
unfoldable pub finished_state : String → Scheduler → Scheduler
unfolding make_ready
finished_state key s =
    make_ready
      (not (is_nil (get_or s.queues key [])) && not (contains string_discrete key s.ready_set)) key
      (record s { inflight = discard string_discrete key s.inflight })

pub finished_state-Sound :
    (key : String) (s : Scheduler)
    → Sound s.ready s
    → Sound (finished_state key s).ready (finished_state key s)
unfolding finished_state
finished_state-Sound key s h = record {
  within = ground (arith, h.within, length-discard-le key s.inflight);
  mirror = λ k. ground (
    arith,
    h.mirror k,
    contains-add k key s.ready_set,
    contains-snoc string_discrete k key s.ready,
  );
  distinct = elim (Bool-cases test) [
    | inl new ↦ rw new (Distinct-snoc key s.ready (ground (arith, h.mirror key)) h.distinct)
    | inr old ↦ rw old h.distinct
  ];
  single = λ k e. ground (
    arith,
    h.single k,
    contains-snoc string_discrete k key s.ready,
    contains-discard string_discrete k key s.inflight,
  );
  queued = λ k. ground (
    arith,
    h.queued k,
    h.mirror key,
    contains-snoc string_discrete k key s.ready,
    contains-discard string_discrete k key s.inflight,
  );
}
  where
    test : Bool
    test = not (is_nil (get_or s.queues key [])) && not (contains string_discrete key s.ready_set)

pub line-finished_state :
    (k key : String) (s : Scheduler) → line k (finished_state key s) ≡ line k s
unfolding finished_state line
line-finished_state k key s = ground arith

-- From sound queues the end of a wake never faults, keeps them sound, leaves no free lane beside
-- a waiting agent, and changes no agent's line.
pub finish-Settled :
    (key : String) (s : Scheduler)
    → Sound s.ready s
    → (s' : Scheduler) × (n : Notice) × (finish key s ≡ some (s', n))
      × Settled key (finished_state key s) s' n
unfolding finish finished_state
finish-Settled key s h = settle-Settled key _ (finished_state-Sound key s h)

-- Another agent is owed what it was owed.
pub pending-submitted_state :
    (k key : String) (job : Job) (s : Scheduler)
    → pending k (submitted_state key job s) ≡ pending k s + ite (string_discrete key k) 1 0
unfolding submitted_state pending
pending-submitted_state k key job s = ground (
  arith,
  get-put string_discrete k key (get_or s.queues key [] ++ job ∷ []) s.queues,
  length-append (get_or s.queues key []) (job ∷ []),
)

pub pending-finished_state :
    (k key : String) (s : Scheduler) → key ≢ k → pending k (finished_state key s) ≡ pending k s
unfolding finished_state pending
pending-finished_state k key s h = ground (arith, contains-discard string_discrete k key s.inflight)

-- The part of the state that only notices change.
pub record SameNotices (s s' : Scheduler) : Type 0 where
  pub seq : s'.notify_seq ≡ s.notify_seq
  pub turn : s'.notify_turn ≡ s.notify_turn
  pub notifying : s'.notifying ≡ s.notifying

pub submitted_state-SameNotices :
    (key : String) (job : Job) (s : Scheduler) → SameNotices s (submitted_state key job s)
unfolding submitted_state
submitted_state-SameNotices key job s = record {
  seq = ground arith;
  turn = ground arith;
  notifying = ground arith;
}

pub finished_state-SameNotices :
    (key : String) (s : Scheduler) → SameNotices s (finished_state key s)
unfolding finished_state
finished_state-SameNotices key s = record {
  seq = ground arith;
  turn = ground arith;
  notifying = ground arith;
}
