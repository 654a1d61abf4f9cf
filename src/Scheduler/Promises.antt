-- ===== src/Scheduler/Promises.antt =====
-- What the scheduler promises in every state that its threads can reach (scheduler.py).
use basecradle_router.Base.{
  ℕ, ◌≤◌, ◌≡◌, ◌≢◌, ◌⊎◌, refl, subst, String, true, false, none, some, List, [], ◌∷◌, length,
  string_discrete, contains, arith,
}
use mathlib.Core.List.{append-nil}
use basecradle_router.Models.{Agent, Event}
use basecradle_router.Scheduler.{
  Scheduler, init, get_or, pending, Notice, submit, finish, is_turn, is_idle,
}
use basecradle_router.Scheduler.Sound.{jobs_of, line}
use basecradle_router.Scheduler.Steps.{submit-Settled, finish-Settled}
use basecradle_router.Scheduler.Tickets.{after_tickets, last_value}
use basecradle_router.Scheduler.System.{System, start_system, Reach, Inv}
use basecradle_router.Scheduler.Invariance.{init-Inv, Reach-Inv}

nil_of_length : (ns : List Notice) → length ns ≡ 0 → ns ≡ []
nil_of_length [] e = refl
nil_of_length (n ∷ ns) e = absurd (omega arith)

module _ (lanes : ℕ) {s : Scheduler} {y : System} (made : init lanes ≡ some s)
    (r : Reach (start_system s) y) where
  abbrev inv : Inv y
  inv = Reach-Inv r (init-Inv lanes made)

  -- In every reachable state at most `lanes` wakes run, an agent that waits for a lane is not
  -- running, and no lane is free while an agent waits.
  pub running_bounds :
      (length y.sched.inflight ≤ y.sched.lanes)
      × ((k : String)
          → contains string_discrete k y.sched.ready ≡ true
          → contains string_discrete k y.sched.inflight ≡ false)
      × ((y.sched.ready ≡ []) ⊎ (y.sched.lanes ≤ length y.sched.inflight))
  running_bounds = (inv.sound.within, inv.sound.single, inv.busy)

  -- In every reachable state, what the pool was handed for an agent, followed by what the agent's
  -- queue holds, is what was submitted for it, in order: no wake is lost, doubled or overtaken.
  pub line-history : (k : String) → line k y.sched ≡ jobs_of k y.history
  line-history = inv.lines

  -- In every reachable state no submission and no end of a wake meets a `KeyError`.
  pub never_faults :
      ((agent : Agent) (event : Event) → submit agent event y.sched ≢ none)
      × ((key : String) → finish key y.sched ≢ none)
  never_faults = (
    (λ agent event e.
        let (_, _, done, _) = submit-Settled agent event y.sched inv.sound in cc (e, done)),
    (λ key e. let (_, _, done, _) = finish-Settled key y.sched inv.sound in cc (e, done)),
  )

  -- In every reachable state, the count in an agent's last outstanding notice, or where it has none
  -- the count that the observer was last told (0 if it never was), is what the agent is owed now;
  -- and the oldest outstanding notice of all may be delivered at once.
  pub observer_is_current :
      ((k : String) → last_value k (get_or y.seen k 0) y.claims ≡ pending k y.sched)
      × ((n : Notice) (rest : List Notice) → y.claims ≡ n ∷ rest → is_turn n y.sched ≡ true)
  unfolding after_tickets is_turn
  observer_is_current = (
    inv.told,
    λ n rest e.
        let first : after_tickets n.key (get_or y.sched.notify_turn n.key 0) (n ∷ rest)
            ≡ some (get_or y.sched.notify_seq n.key 0) =
          subst
            (λ ns.
              after_tickets n.key (get_or y.sched.notify_turn n.key 0) ns
              ≡ some (get_or y.sched.notify_seq n.key 0))
            e (inv.tickets n.key) in
        ground arith,
  )

  nothing_queued : (k : String) → is_idle y.sched ≡ true → get_or y.sched.queues k [] ≡ []
  unfolding is_idle contains
  nothing_queued k idle = ground (arith, inv.sound.queued k)

  -- In every reachable state that the drain calls idle, the pool was handed every submitted wake
  -- of every agent, in order, and the observer was last told that the agent is owed nothing.
  pub idle_is_drained :
      is_idle y.sched ≡ true
      → (k : String) → (jobs_of k y.sched.submitted ≡ jobs_of k y.history) × (get_or y.seen k 0 ≡ 0)
  unfolding is_idle line pending last_value contains
  idle_is_drained idle k =
      let empty = nothing_queued k idle in
      (
        ground (arith, inv.lines k, append-nil (jobs_of k y.sched.submitted)),
        ground (
          arith,
          subst (λ ns. last_value k (get_or y.seen k 0) ns ≡ pending k y.sched)
              (nil_of_length y.claims (ground (arith, inv.notifying))) (inv.told k),
          empty,
        ),
      )
