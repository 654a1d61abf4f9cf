-- ===== src/Scheduler/Invariance.antt =====
-- The invariant of the scheduler, from its start through every step (scheduler.py).
use basecradle_router.Base.{
  ℕ, ◌+◌, ◌≡◌, ◌≢◌, ◌∙◌, inl, inr, refl, sym, subst, String, false, Option, some, List, [], ◌∷◌,
  ◌++◌, get, get-put, length-append, string_discrete, contains, arith,
}
use basecradle_router.Models.{Agent, Event, harness_key}
use basecradle_router.Scheduler.{Job, Scheduler, init, get_or, pending, Notice, submit, finish}
use basecradle_router.Scheduler.Sound.{jobs_of, line}
use basecradle_router.Scheduler.Pump.{jobs_of-snoc}
use basecradle_router.Scheduler.Steps.{
  Settled, submit-Settled, finish-Settled, submitted_state, finished_state, line-submitted_state,
  line-finished_state, SameNotices, submitted_state-SameNotices, finished_state-SameNotices,
  pending-submitted_state, pending-finished_state,
}
use basecradle_router.Scheduler.Tickets.{
  after_tickets, last_value, after_tickets-snoc, last_value-snoc,
}
use basecradle_router.Scheduler.System.{
  System, start_system, Step, submits, finishes, delivers, Reach, here, next, Inv,
}
use basecradle_router.Scheduler.Delivery.{delivers-Inv}

abbrev fresh : ℕ → Scheduler
fresh lanes = record {
  lanes = lanes;
  queues = [];
  ready = [];
  ready_set = [];
  inflight = [];
  notifying = 0;
  notify_seq = [];
  notify_turn = [];
  saturated = false;
  submitted = [];
}

fresh-Inv : (lanes : ℕ) → Inv (start_system (fresh lanes))
unfolding line jobs_of after_tickets last_value pending contains get
fresh-Inv lanes = record {
  sound = record {
    within = omega arith;
    mirror = λ k. refl;
    distinct = tt;
    single = λ k e. refl;
    queued = λ k. refl;
  };
  busy = inl refl;
  lines = λ k. refl;
  tickets = λ k. refl;
  told = λ k. refl;
  notifying = refl;
}

init-fresh : (lanes : ℕ) {s : Scheduler} → init lanes ≡ some s → fresh lanes ≡ s
unfolding init
init-fresh lanes e = ground arith

pub init-Inv : (lanes : ℕ) {s : Scheduler} → init lanes ≡ some s → Inv (start_system s)
init-Inv lanes e = subst (λ s. Inv (start_system s)) (init-fresh lanes e) (fresh-Inv lanes)

module _ (key k : String) {s s' : Scheduler} {n : Notice} (d : Settled key s s' n)
    (claims : List Notice) where
  settled-tickets :
      after_tickets k (get_or s.notify_turn k 0) claims ≡ some (get_or s.notify_seq k 0)
      → after_tickets k (get_or s'.notify_turn k 0) (claims ++ n ∷ [])
        ≡ some (get_or s'.notify_seq k 0)
  settled-tickets h = elim (string_discrete key k) [
    | yes p ↦
        let at_end : n.ticket ≡ get_or s.notify_seq k 0 = rw (← p) d.ticket in
        ground (
          arith,
          d.seq,
          d.turn,
          d.named,
          get-put string_discrete k key (n.ticket + 1) s.notify_seq,
          after_tickets-snoc k (get_or s.notify_turn k 0) claims n (get_or s.notify_seq k 0) h
              (inl at_end),
        )
    | no p ↦
        let other : n.key ≢ k = (λ e. p (cc (e, d.named))) in
        ground (
          arith,
          d.seq,
          d.turn,
          get-put string_discrete k key (n.ticket + 1) s.notify_seq,
          after_tickets-snoc k (get_or s.notify_turn k 0) claims n (get_or s.notify_seq k 0) h
              (inr other),
        )
  ]

  settled-told :
      (seen : ℕ)
      → (key ≢ k → last_value k seen claims ≡ pending k s)
      → last_value k seen (claims ++ n ∷ []) ≡ pending k s'
  settled-told seen h = elim (string_discrete key k) [
    | yes p ↦ ground (arith, d.named, d.counted, last_value-snoc k seen claims n)
    | no p ↦ ground (arith, d.named, h p, d.owed k, last_value-snoc k seen claims n)
  ]

-- What `settle` leaves is what a step left.
Settled-at :
    (key : String) (m : Option (Scheduler × Notice)) (z : Scheduler) {s : Scheduler} {n : Notice}
    → m ≡ some (s, n)
    → (s' : Scheduler) × (n' : Notice) × (m ≡ some (s', n')) × Settled key z s' n'
    → Settled key z s n
Settled-at key m z {s} {n} e (s', n', e', d) =
    let same : (s', n') ≡ (s, n) = cc in
    subst (λ (x : Scheduler × Notice). Settled key z x.0 x.1) same d

-- A settled state is in step with the notices, its own one added, if the state before it was.
module _ (key : String) (y : System) (z : Scheduler) {s : Scheduler} {n : Notice} where
  settled-Inv :
      (history : List (String × Job))
      → Settled key z s n
      → SameNotices y.sched z
      → Inv y
      → ((k : String) → line k z ≡ jobs_of k history)
      → ((k : String) → key ≢ k → pending k z ≡ pending k y.sched)
      → Inv (record y { sched = s; claims = y.claims ++ n ∷ []; history = history })
  settled-Inv history d same h lines owed = record {
    sound = d.sound;
    busy = d.busy;
    lines = λ k. d.lines k ∙ lines k;
    tickets =
        λ k. settled-tickets key k d y.claims (ground (arith, same.seq, same.turn, h.tickets k));
    told = λ k.
        settled-told key k d y.claims (get_or y.seen k 0) (λ other. h.told k ∙ sym (owed k other));
    notifying =
        omega
          (arith, d.notifying, same.notifying, h.notifying, length-append {0} y.claims (n ∷ []));
  }

submits-Inv :
    (y : System) (agent : Agent) (event : Event) (s : Scheduler) (n : Notice)
    → submit agent event y.sched ≡ some (s, n)
    → Inv y
    → Inv (record y {
      sched = s;
      claims = y.claims ++ n ∷ [];
      history = y.history ++ (harness_key agent, record { agent = agent; event = event }) ∷ [];
    })
submits-Inv y agent event s n e h =
    let key : String = harness_key agent in
    let job : Job = record { agent = agent; event = event } in
    settled-Inv key y (submitted_state key job y.sched) (y.history ++ (key, job) ∷ [])
      (Settled-at key _ _ e (submit-Settled agent event y.sched h.sound))
      (submitted_state-SameNotices key job y.sched) h
      (λ k. ground (
        arith,
        line-submitted_state k key job y.sched,
        h.lines k,
        jobs_of-snoc k key job y.history,
      ))
      (λ k other. ground (arith, pending-submitted_state k key job y.sched))

finishes-Inv :
    (y : System) (key : String) (s : Scheduler) (n : Notice)
    → finish key y.sched ≡ some (s, n)
    → Inv y
    → Inv (record y { sched = s; claims = y.claims ++ n ∷ [] })
finishes-Inv y key s n e h =
    settled-Inv key y (finished_state key y.sched) y.history
      (Settled-at key _ _ e (finish-Settled key y.sched h.sound))
      (finished_state-SameNotices key y.sched) h
      (λ k. line-finished_state k key y.sched ∙ h.lines k)
      (λ k other. pending-finished_state k key y.sched other)

pub Step-Inv : {y z : System} → Step y z → Inv y → Inv z
Step-Inv (submits y agent event s n e) h = submits-Inv y agent event s n e h
Step-Inv (finishes y key s n running e) h = finishes-Inv y key s n e h
Step-Inv (delivers y before n rest e turn) h = delivers-Inv y before n rest e turn h

pub Reach-Inv : {y z : System} → Reach y z → Inv y → Inv z
Reach-Inv here h = h
Reach-Inv (next r st) h = Step-Inv st (Reach-Inv r h)
