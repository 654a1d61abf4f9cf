-- ===== src/Scheduler/Fairness.antt =====
-- Round-robin dispatch, and the place of an agent in the ready queue (scheduler.py).
use basecradle_router.Base.{
  ℕ, ◌+◌, ◌<◌, ◌≡◌, ◌≢◌, ◌∙◌, ◌⊎◌, inl, inr, refl, sym, ap, subst, String, true, not, ◌&&◌, some,
  List, [], ◌∷◌, ◌++◌, length, length-append, string_discrete, contains, discard, arith, ltb,
  Bool-cases,
}
use mathlib.Core.List.{append_assoc, append-nil}
use basecradle_router.Scheduler.{
  Scheduler, init, get_or, is_nil, pump_ready, pump, note_saturation, claim, pending, Notice,
  settle, finish,
}
use basecradle_router.Scheduler.Sound.{Sound, started, dispatch-started, contains-add}
use basecradle_router.Scheduler.System.{System, start_system, Reach}
use basecradle_router.Scheduler.Invariance.{init-Inv, Reach-Inv}
use basecradle_router.Scheduler.Steps.{
  finish-Settled, finished_state, finished_state-Sound, length-discard-le,
}

-- The loop dispatches a prefix of the ready queue, which is not empty if there is room.
record Dispatched (ready : List String) (s s' : Scheduler) : Type 0 where
  gone : List String
  split : ready ≡ gone ++ s'.ready
  running :
      (k : String)
      → contains string_discrete k gone ≡ true
      → contains string_discrete k s'.inflight ≡ true
  kept :
      (k : String)
      → contains string_discrete k s.inflight ≡ true
      → contains string_discrete k s'.inflight ≡ true
  some_gone : length s.inflight < s.lanes → ready ≢ [] → 0 < length gone

pump_ready-Dispatched :
    (ready : List String) (s : Scheduler)
    → Sound ready s
    → (s' : Scheduler) × (pump_ready ready s ≡ some s') × Dispatched ready s s'
unfolding pump_ready contains
pump_ready-Dispatched [] s h = (
  record s { ready = [] },
  refl,
  record {
    gone = [];
    split = refl;
    running = λ k e. absurd (ground arith);
    kept = λ k e. e;
    some_gone = λ room h. absurd (h refl);
  },
)
pump_ready-Dispatched (key ∷ rest) s h = elim (Bool-cases (ltb (length s.inflight) s.lanes)) [
  | inl room ↦
      let (job, queue, there, done, next) = dispatch-started key rest s h (ground arith) in
      let (s', reached, p) = pump_ready-Dispatched rest (started key job queue s) next in
      (
        s',
        rw room (rw done reached),
        record {
          gone = key ∷ p.gone;
          split = ap (◌∷◌ key) p.split;
          running = λ k e. ground (arith, p.running k, p.kept k, contains-add k key s.inflight);
          kept = λ k e. ground (arith, p.kept k, contains-add k key s.inflight);
          some_gone = λ _ _. omega arith;
        },
      )
  | inr full ↦ (
    record s { ready = key ∷ rest },
    rw full,
    record {
      gone = [];
      split = refl;
      running = λ k e. absurd (ground arith);
      kept = λ k e. e;
      some_gone = λ room _. absurd (ground arith);
    },
  )
]

-- A waiting agent is in the dispatched prefix, or nearer to the front by its length.
split_at :
    (k : String) (before gone rest left : List String)
    → before ++ k ∷ rest ≡ gone ++ left
    → (contains string_discrete k gone ≡ true)
      ⊎ ((before' : List String) × (left ≡ before' ++ k ∷ rest)
          × (length before ≡ length gone + length before'))
unfolding contains
split_at k before [] rest left e = inr (before, sym e, omega arith)
split_at k [] (g ∷ gone) rest left e = inl (ground arith)
split_at k (b ∷ before) (g ∷ gone) rest left e = elim (split_at k before gone rest left (cc)) [
  | inl found ↦ inl (ground arith)
  | inr (before', ahead, near) ↦ inr (before', ahead, omega arith)
]

length-discard-lt :
    (k : String) (ks : List String)
    → contains string_discrete k ks ≡ true
    → length (discard string_discrete k ks) < length ks
unfolding contains discard
length-discard-lt k [] e = cc
length-discard-lt k (j ∷ ks) e = ground (arith, length-discard-lt k ks, length-discard-le k ks)

-- The end of a wake puts its agent behind every agent that was waiting.
ready-finished_state :
    (key : String) (s : Scheduler)
    → (back : List String) × ((finished_state key s).ready ≡ s.ready ++ back)
      × ((finished_state key s).inflight ≡ discard string_discrete key s.inflight)
      × ((finished_state key s).lanes ≡ s.lanes)
unfolding finished_state
ready-finished_state key s =
    elim (Bool-cases
      (not (is_nil (get_or s.queues key [])) && not (contains string_discrete key s.ready_set))) [
        | inl more ↦ (key ∷ [], rw more, rw more, rw more)
        | inr done ↦ ([], rw done (sym (append-nil s.ready)), rw done, rw done)
      ]

-- A critical section that starts with a free lane dispatches a waiting agent or an agent ahead of it.
settle_advances :
    (key k : String) (before rest : List String) (s : Scheduler) {s' : Scheduler} {n : Notice}
    → Sound s.ready s
    → length s.inflight < s.lanes
    → s.ready ≡ before ++ k ∷ rest
    → settle key s ≡ some (s', n)
    → (contains string_discrete k s'.inflight ≡ true)
      ⊎ ((before' : List String) × (s'.ready ≡ before' ++ k ∷ rest)
          × (length before' < length before))
unfolding settle pump note_saturation claim
settle_advances key k before rest s {s'} {n} h room waits e =
    let (p, reached, d) = pump_ready-Dispatched s.ready s h in
    let q : Scheduler = note_saturation p in
    let n' : Notice = record {
      key = key;
      pending = pending key q;
      ticket = get_or q.notify_seq key 0;
    } in
    let found : settle key s ≡ some ((claim key q).1, n') = rw reached refl in
    let same : (claim key q).1 ≡ s' = cc (e, found) in
    let some_waits : s.ready ≢ [] =
      λ none_waits. absurd (ground (arith, length-append before (k ∷ rest))) in
    let gone = d.some_gone room some_waits in
    elim (split_at k before d.gone rest p.ready (cc (waits, d.split))) [
      | inl dispatched ↦
          inl (
            subst (λ x. contains string_discrete k x.inflight ≡ true) same (d.running k dispatched))
      | inr (before', ahead, near) ↦
          inr (before', subst (λ x. x.ready ≡ before' ++ k ∷ rest) same ahead, omega arith)
    ]

finish_advances-Sound :
    (s : Scheduler) (key k : String) (before rest : List String) {s' : Scheduler} {n : Notice}
    → Sound s.ready s
    → contains string_discrete key s.inflight ≡ true
    → s.ready ≡ before ++ k ∷ rest
    → finish key s ≡ some (s', n)
    → (contains string_discrete k s'.inflight ≡ true)
      ⊎ ((before' : List String) × (rest' : List String) × (s'.ready ≡ before' ++ k ∷ rest')
          × (length before' < length before))
unfolding finish finished_state
finish_advances-Sound s key k before rest {s'} {n} h running waits e =
    let (back, ready, inflight, lanes) = ready-finished_state key s in
    let room : length (finished_state key s).inflight < (finished_state key s).lanes =
      omega
        (arith, ap length inflight, lanes, h.within, length-discard-lt key s.inflight running) in
    let line : (finished_state key s).ready ≡ before ++ k ∷ (rest ++ back) =
      ready ∙ ap (λ l. l ++ back) waits ∙ append_assoc before (k ∷ rest) back in
    elim (settle_advances key k before (rest ++ back) (finished_state key s)
      (finished_state-Sound key s h) room line e) [
        | inl now ↦ inl now
        | inr (before', ahead, near) ↦ inr (before', rest ++ back, ahead, near)
      ]

-- In every reachable state, when the wake of a running agent ends, the critical section returns, and
-- an agent that waited with the agents `before` ahead of it in the ready queue is running, or is still
-- in the queue with fewer agents ahead of it.
pub finish_advances :
    (lanes : ℕ) {s₀ : Scheduler} {y : System} (key k : String) (before rest : List String)
    → init lanes ≡ some s₀
    → Reach (start_system s₀) y
    → contains string_discrete key y.sched.inflight ≡ true
    → y.sched.ready ≡ before ++ k ∷ rest
    → (s : Scheduler) × (n : Notice) × (finish key y.sched ≡ some (s, n))
      × ((contains string_discrete k s.inflight ≡ true)
          ⊎ ((before' : List String) × (rest' : List String) × (s.ready ≡ before' ++ k ∷ rest')
              × (length before' < length before)))
finish_advances lanes {s₀} {y} key k before rest made r running waits =
    let h = Reach-Inv r (init-Inv lanes made) in
    let (s, n, e, d) = finish-Settled key y.sched h.sound in
    (s, n, e, finish_advances-Sound y.sched key k before rest h.sound running waits e)
