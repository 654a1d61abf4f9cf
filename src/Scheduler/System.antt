-- ===== src/Scheduler/System.antt =====
-- The scheduler among its threads: callers that submit, wakes that end, and notices that are
-- delivered in any order their turns allow (scheduler.py). Each critical section is one step; so is
-- a delivery, since no other notice of its agent can pass between the observer and the `finally`.
use basecradle_router.Base.{
  ℕ, ◌≤◌, ◌≡◌, ◌⊎◌, String, true, some, List, [], ◌∷◌, ◌++◌, Dict, put, length, string_discrete,
  contains,
}
use basecradle_router.Models.{Agent, Event, harness_key}
use basecradle_router.Scheduler.{
  Job, Scheduler, get_or, pending, Notice, submit, finish, is_turn, deliver,
}
use basecradle_router.Scheduler.Sound.{Sound, jobs_of, line}
use basecradle_router.Scheduler.Tickets.{after_tickets, last_value}

-- The scheduler, the notices not yet delivered, every job ever submitted, and what the observer
-- was last told of each agent.
pub record System : Type 0 where
  pub sched : Scheduler
  pub claims : List Notice
  pub history : List (String × Job)
  pub seen : Dict String ℕ

abbrev pub start_system : Scheduler → System
start_system s = record { sched = s; claims = []; history = []; seen = [] }

pub data Step : System → System → Type 0 where
  submits :
      (y : System) (agent : Agent) (event : Event) (s : Scheduler) (n : Notice)
      → submit agent event y.sched ≡ some (s, n)
      → Step y (record y {
        sched = s;
        claims = y.claims ++ n ∷ [];
        history = y.history ++ (harness_key agent, record { agent = agent; event = event }) ∷ [];
      })
  finishes :
      (y : System) (key : String) (s : Scheduler) (n : Notice)
      → contains string_discrete key y.sched.inflight ≡ true
      → finish key y.sched ≡ some (s, n)
      → Step y (record y { sched = s; claims = y.claims ++ n ∷ [] })
  delivers :
      (y : System) (before : List Notice) (n : Notice) (rest : List Notice)
      → y.claims ≡ before ++ n ∷ rest
      → is_turn n y.sched ≡ true
      → Step y (record y {
        sched = deliver n y.sched;
        claims = before ++ rest;
        seen = put string_discrete n.key n.pending y.seen;
      })

pub data Reach (y : System) : System → Type 0 where
  here : Reach y y
  next : {z w : System} → Reach y z → Step z w → Reach y w

-- What the observer was last told of an agent, or is about to be, is what the agent is owed; the
-- agent's line is its submissions; and its tickets count up from its turn.
pub record Inv (y : System) : Type 0 where
  pub sound : Sound y.sched.ready y.sched
  pub busy : (y.sched.ready ≡ []) ⊎ (y.sched.lanes ≤ length y.sched.inflight)
  pub lines : (k : String) → line k y.sched ≡ jobs_of k y.history
  pub tickets :
      (k : String)
      → after_tickets k (get_or y.sched.notify_turn k 0) y.claims
        ≡ some (get_or y.sched.notify_seq k 0)
  pub told : (k : String) → last_value k (get_or y.seen k 0) y.claims ≡ pending k y.sched
  pub notifying : y.sched.notifying ≡ length y.claims
