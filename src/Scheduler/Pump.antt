-- ===== src/Scheduler/Pump.antt =====
-- The dispatch loop over sound queues (scheduler.py).
use basecradle_router.Base.{
  ◌≤◌, ◌≡◌, ◌∙◌, ◌⊎◌, inl, inr, refl, String, false, contains, some, List, [], ◌∷◌, ◌++◌, Dict, get,
  length, ltb, string_discrete, arith, Bool-cases, ite,
}
use mathlib.Core.List.{append_assoc, append-nil}
use basecradle_router.Scheduler.{Job, Scheduler, get_or, drop_head, pump_ready, pending}
use basecradle_router.Scheduler.Sound.{
  Sound, jobs_of, line, started, dispatch-started, get-drop_head, contains-add, contains_self,
}

pub jobs_of-snoc :
    (k j : String) (job : Job) (l : List (String × Job))
    → jobs_of k (l ++ (j, job) ∷ []) ≡ jobs_of k l ++ ite (string_discrete j k) (job ∷ []) []
unfolding jobs_of
jobs_of-snoc k j job [] = ground arith
jobs_of-snoc k j job ((i, other) ∷ l) = ground (arith, jobs_of-snoc k j job l)

get_or-drop_head :
    (k j : String) (queue : List Job) (m : Dict String (List Job))
    → get_or (drop_head j queue m) k [] ≡ ite (string_discrete j k) queue (get_or m k [])
get_or-drop_head k j [] m = ground (arith, get-drop_head k j [] m)
get_or-drop_head k j (job ∷ queue) m = ground (arith, get-drop_head k j (job ∷ queue) m)

line-started :
    (k key : String) (job : Job) (queue : List Job) (s : Scheduler)
    → get string_discrete key s.queues ≡ some (job ∷ queue)
    → line k (started key job queue s) ≡ line k s
unfolding line
line-started k key job queue s there = ground (
  arith,
  jobs_of-snoc k key job s.submitted,
  get_or-drop_head k key queue s.queues,
  append_assoc (jobs_of k s.submitted) (job ∷ []) queue,
  append-nil (jobs_of k s.submitted),
)

pending-started :
    (k key : String) (job : Job) (queue : List Job) (s : Scheduler)
    → get string_discrete key s.queues ≡ some (job ∷ queue)
    → contains string_discrete key s.inflight ≡ false
    → pending k (started key job queue s) ≡ pending k s
unfolding pending
pending-started k key job queue s there idle =
    ground (arith, get_or-drop_head k key queue s.queues, contains-add k key s.inflight)

-- What a critical section leaves, whatever it was called for.
pub record Pumped (s s' : Scheduler) : Type 0 where
  pub sound : Sound s'.ready s'
  pub busy : (s'.ready ≡ []) ⊎ (s'.lanes ≤ length s'.inflight)
  pub lines : (k : String) → line k s' ≡ line k s
  pub owed : (k : String) → pending k s' ≡ pending k s
  pub lanes : s'.lanes ≡ s.lanes
  pub seq : s'.notify_seq ≡ s.notify_seq
  pub turn : s'.notify_turn ≡ s.notify_turn
  pub notifying : s'.notifying ≡ s.notifying

pub pump_ready-Pumped :
    (ready : List String) (s : Scheduler)
    → Sound ready s
    → (s' : Scheduler) × (pump_ready ready s ≡ some s') × Pumped s s'
unfolding pump_ready line pending
pump_ready-Pumped [] s h = (
  record s { ready = [] },
  refl,
  record {
    sound = record {
      within = h.within;
      mirror = h.mirror;
      distinct = tt;
      single = h.single;
      queued = h.queued;
    };
    busy = inl refl;
    lines = λ k. refl;
    owed = λ k. refl;
    lanes = refl;
    seq = refl;
    turn = refl;
    notifying = refl;
  },
)
pump_ready-Pumped (key ∷ rest) s h = elim (Bool-cases (ltb (length s.inflight) s.lanes)) [
  | inl room ↦
      let (job, queue, there, done, next) = dispatch-started key rest s h (ground arith) in
      let (s', reached, p) = pump_ready-Pumped rest (started key job queue s) next in
      (
        s',
        rw room (rw done reached),
        record {
          sound = p.sound;
          busy = p.busy;
          lines = λ k. p.lines k ∙ line-started k key job queue s there;
          owed = λ k.
              p.owed k
              ∙ pending-started k key job queue s there (h.single key (contains_self key rest));
          lanes = p.lanes;
          seq = p.seq;
          turn = p.turn;
          notifying = p.notifying;
        },
      )
  | inr full ↦ (
    record s { ready = key ∷ rest },
    rw full,
    record {
      sound = record {
        within = h.within;
        mirror = h.mirror;
        distinct = h.distinct;
        single = h.single;
        queued = h.queued;
      };
      busy = inr (ground arith);
      lines = λ k. refl;
      owed = λ k. refl;
      lanes = refl;
      seq = refl;
      turn = refl;
      notifying = refl;
    },
  )
]
