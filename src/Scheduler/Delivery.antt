-- ===== src/Scheduler/Delivery.antt =====
-- One delivery, its notice taken out of the outstanding ones (scheduler.py).
use basecradle_router.Base.{
  ℕ, ◌+◌, ◌-◌, ◌≤◌, ◌≡◌, ◌∙◌, ◌⊎◌, inl, inr, refl, sym, ap, String, true, some, List, [], ◌∷◌, ◌++◌,
  Dict, put, get-put, get-del, length, length-append, string_discrete, arith, Bool-cases, ◌==◌,
}
use basecradle_router.Scheduler.{Scheduler, get_or, pending, Notice, is_turn, deliver}
use basecradle_router.Scheduler.Sound.{Sound, jobs_of, line}
use basecradle_router.Scheduler.Tickets.{
  after_tickets, last_value, after_tickets-take, last_value-take, after_tickets_ne, last_value_ne,
  after_tickets_none,
}
use basecradle_router.Scheduler.System.{System, Inv}

-- A delivery changes only the notices.
deliver-tickets :
    (s : Scheduler) (before : List Notice) (n : Notice) (rest : List Notice) (k : String)
    → is_turn n s ≡ true
    → after_tickets k (get_or s.notify_turn k 0) (before ++ n ∷ rest)
      ≡ some (get_or s.notify_seq k 0)
    → after_tickets k (get_or (deliver n s).notify_turn k 0) (before ++ rest)
      ≡ some (get_or (deliver n s).notify_seq k 0)
unfolding deliver is_turn
deliver-tickets s before n rest k turn h = elim (string_discrete n.key k) [
  | yes p ↦
      let t : ℕ = get_or s.notify_turn k 0 in
      let u : ℕ = get_or s.notify_seq k 0 in
      let now : n.ticket ≡ t = ground arith in
      let left = after_tickets-take k t before n rest u h p now in
      ground (
        arith,
        left,
        after_tickets_none k (t + 1) (before ++ rest),
        get-del string_discrete k n.key s.notify_seq,
        get-del string_discrete k n.key s.notify_turn,
        get-put string_discrete k n.key (n.ticket + 1) s.notify_turn,
      )
  | no p ↦ ground (
    arith,
    h,
    after_tickets_ne k (get_or s.notify_turn k 0) before n rest p,
    get-del string_discrete k n.key s.notify_seq,
    get-del string_discrete k n.key s.notify_turn,
    get-put string_discrete k n.key (n.ticket + 1) s.notify_turn,
  )
]

-- Whichever way a delivery ends, it leaves all but the notices as they were.
deliver_cases :
    (P : Scheduler → Type 0) (n : Notice) (s : Scheduler)
    → ((seq turn : Dict String ℕ)
        → P (record s { notify_seq = seq; notify_turn = turn; notifying = s.notifying - 1 }))
    → P (deliver n s)
unfolding deliver
deliver_cases P n s h = elim (Bool-cases (get_or s.notify_seq n.key 0 == n.ticket + 1)) [
  | inl last ↦ rw last (h _ _)
  | inr more ↦ rw more (h s.notify_seq _)
]

told_after :
    (y : System) (before : List Notice) (n : Notice) (rest : List Notice) (k : String)
    → is_turn n y.sched ≡ true
    → after_tickets k (get_or y.sched.notify_turn k 0) (before ++ n ∷ rest)
      ≡ some (get_or y.sched.notify_seq k 0)
    → last_value k (get_or (put string_discrete n.key n.pending y.seen) k 0) (before ++ rest)
      ≡ last_value k (get_or y.seen k 0) (before ++ n ∷ rest)
unfolding is_turn
told_after y before n rest k turn h = elim (string_discrete n.key k) [
  | yes p ↦
      let t : ℕ = get_or y.sched.notify_turn k 0 in
      let now : n.ticket ≡ t = ground arith in
      ground (
        arith,
        get-put string_discrete k n.key n.pending y.seen,
        last_value-take k t (get_or y.seen k 0) before n rest (get_or y.sched.notify_seq k 0) h p
            now,
      )
  | no p ↦ ground (
    arith,
    get-put string_discrete k n.key n.pending y.seen,
    last_value_ne k (get_or y.seen k 0) before n rest p,
  )
]

pub delivers-Inv :
    (y : System) (before : List Notice) (n : Notice) (rest : List Notice)
    → y.claims ≡ before ++ n ∷ rest
    → is_turn n y.sched ≡ true
    → Inv y
    → Inv (record y {
      sched = deliver n y.sched;
      claims = before ++ rest;
      seen = put string_discrete n.key n.pending y.seen;
    })
unfolding line pending
delivers-Inv y before n rest e turn h = record {
  sound =
      deliver_cases (λ s. Sound s.ready s) n y.sched
        (λ seq turns. record {
          within = h.sound.within;
          mirror = h.sound.mirror;
          distinct = h.sound.distinct;
          single = h.sound.single;
          queued = h.sound.queued;
        });
  busy =
      deliver_cases (λ s. (s.ready ≡ []) ⊎ (s.lanes ≤ length s.inflight)) n y.sched
        (λ seq turns. h.busy);
  lines =
      λ k. deliver_cases (λ s. line k s ≡ jobs_of k y.history) n y.sched (λ seq turns. h.lines k);
  tickets = λ k. deliver-tickets y.sched before n rest k turn (rw (← e) (h.tickets k));
  told = λ k.
      told_after y before n rest k turn (rw (← e) (h.tickets k))
      ∙ ap (last_value k (get_or y.seen k 0)) (sym e)
      ∙ h.told k
      ∙ deliver_cases (λ s. pending k y.sched ≡ pending k s) n y.sched (λ seq turns. refl);
  notifying =
      deliver_cases (λ s. s.notifying ≡ length (before ++ rest)) n y.sched
        (λ seq turns. omega (
          arith,
          h.notifying,
          ap length e,
          length-append {0} before (n ∷ rest),
          length-append {0} before rest,
        ));
}
