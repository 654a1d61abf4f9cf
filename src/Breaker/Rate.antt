-- ===== src/Breaker/Rate.antt =====
-- The rate bound of the breaker, over any run of `admit` (breaker.py).
use basecradle_router.Base.{
  ℕ, ◌+◌, ◌≤◌, ◌≡◌, ◌∙◌, refl, subst, ap, String, Bool, true, false, ◌&&◌, Option, none, some, List,
  [], ◌∷◌, All, get, get-sweep, unless, leb, ltb, if◌then◌else◌, arith, Bool-cases, inl, inr, ite,
  contains,
}
use basecradle_router.Breaker.{
  Config, Window, Key, agent_key, stream_key, key_discrete, Breaker, BreakerOutcome, is_admitted,
  init, Round, go_on, return, scopes, or_new, both_loops, collected, gc_interval, is_stale, finish,
  admit,
}
use basecradle_router.Breaker.Recent.{recent}
use basecradle_router.Breaker.Keep.{Bounded, Bounded-later, Bounded-stale}
use basecradle_router.Breaker.Loops.{Ends, Holds, Refuses, Refuses-both_loops}
use basecradle_router.Breaker.Passes.{touched, log_if, both_loops-Holds}

-- The limit of the scope that a key belongs to.
abbrev pub limit : Config → Key → ℕ
limit c (agent_key a) = c.max_wakes
limit c (stream_key a s) = c.stream_max_wakes

scopes-limit :
    (c : Config) (k : Key) (agent : String) (stream : Option String)
    → All (λ s. s.dict_key ≡ k → s.threshold ≡ limit c k) (scopes c agent stream)
unfolding scopes
scopes-limit c k agent none = (λ p. ap (limit c) p, tt)
scopes-limit c k agent (some stream) = elim (Bool-cases (ltb 0 c.stream_max_wakes)) [
  | inl on ↦ (λ p. ap (limit c) p, rw on (λ p. ap (limit c) p, tt))
  | inr off ↦ (λ p. ap (limit c) p, rw off tt)
]

-- The periodic collection loses no window that still counts.
collected-Holds :
    (c : Config) (k : Key) (now : ℕ) (log : List ℕ) (b : Breaker)
    → b.config ≡ c
    → Holds c k (limit c k) now log b.windows
    → Holds c k (limit c k) now log (collected now b).windows
unfolding collected
collected-Holds c k now log b e h = elim (Bool-cases (leb gc_interval (b.admits_since_gc + 1))) [
  | inl due ↦ rw due (
      rw e (
        rw (get-sweep key_discrete k (is_stale c now) b.windows)
          (kept (get key_discrete k b.windows) h)))
  | inr early ↦ rw early h
]
  where
    kept :
        (o : Option Window)
        → Bounded c (limit c k) now log (or_new o)
        → Bounded c (limit c k) now log (or_new (unless (is_stale c now) o))
    kept none h = h
    kept (some w) h = elim (Bool-cases (is_stale c now w)) [
      | inl stale ↦ rw stale (Bounded-stale c (limit c k) w h stale)
      | inr live ↦ rw live h
    ]

-- The wakes that the breaker was asked for, with the clock at each.
pub record Call : Type 0 where
  pub agent : String
  pub stream : Option String
  pub now : ℕ

-- The breaker after a history of calls, the newest first.
pub run : Config → List Call → Breaker
run c [] = init c
run c (a ∷ older) = (admit a.agent a.stream a.now (run c older)).1

-- What the newest call of a history is told.
pub answer : Config → Call → List Call → BreakerOutcome
answer c a older = (admit a.agent a.stream a.now (run c older)).0

-- Is a wake for the agent on the stream one that the key counts?
abbrev pub covers : Key → String → Option String → Bool
covers (agent_key a) agent stream = ite (key_discrete (agent_key agent) (agent_key a)) true false
covers (stream_key a s) agent none = false
covers (stream_key a s) agent (some stream) =
    ite (key_discrete (stream_key agent stream) (stream_key a s)) true false

-- A key with a limit: the stream scope is switched off by a limit of zero.
abbrev pub Limited : Config → Key → Type 0
Limited c (agent_key a) = Unit
Limited c (stream_key a s) = 1 ≤ c.stream_max_wakes

-- The times of the admitted wakes that a key counts.
pub admitted_log : Config → Key → List Call → List ℕ
unfolding answer
admitted_log c k [] = []
admitted_log c k (a ∷ older) =
    if covers k a.agent a.stream && is_admitted (answer c a older).state
    then a.now ∷ admitted_log c k older
    else admitted_log c k older

-- The clock never ran backwards, and stands at `now` or earlier.
abbrev pub Ordered : List Call → ℕ → Type 0
Ordered [] now = Unit
Ordered (a ∷ older) now = (a.now ≤ now) × Ordered older a.now

finish-Holds :
    (c : Config) (k : Key) (now : ℕ) (log : List ℕ) (t : Bool) (b : Breaker) (r : Round)
    → Refuses r
    → Ends
        (λ m. Holds c k (limit c k) now (log_if c k (limit c k) now log t) m)
        (Holds c k (limit c k) now log)
        r
    → Holds c k
        (limit c k)
        now
        (if t && is_admitted (finish b r).0.state then now ∷ log else log)
        (finish b r).1.windows
finish-Holds c k now log true b (go_on m) q h = h
finish-Holds c k now log false b (go_on m) q h = h
finish-Holds c k now log true b (return o m) q h = rw q h
finish-Holds c k now log false b (return o m) q h = h

-- What one call of `admit` keeps, for the thresholds `c`.
abbrev Kept : Key → List ℕ → Call → Breaker → Config → Type 0
Kept k log a b c =
    c.window ≤ c.cooldown
    → Holds c k (limit c k) a.now log b.windows
    → Holds c k (limit c k) a.now
        (if touched k (scopes c a.agent a.stream)
            && is_admitted (admit a.agent a.stream a.now b).0.state
          then a.now ∷ log
          else log)
        (admit a.agent a.stream a.now b).1.windows

admit-Kept : (k : Key) (log : List ℕ) (a : Call) (b : Breaker) → Kept k log a b b.config
unfolding admit
admit-Kept k log a b long h =
    let c = b.config in
    let ss = scopes c a.agent a.stream in
    let b' = collected a.now b in
    finish-Holds c k a.now log (touched k ss) b' (both_loops c a.now ss b'.windows)
      (Refuses-both_loops c a.now ss b'.windows)
      (both_loops-Holds c k (limit c k) a.now log ss b'.windows long
        (scopes-limit c k a.agent a.stream) (collected-Holds c k a.now log b refl h))

admit-Holds :
    (c : Config) (k : Key) (log : List ℕ) (a : Call) (b : Breaker) → b.config ≡ c → Kept k log a b c
admit-Holds c k log a b e = subst (Kept k log a b) e (admit-Kept k log a b)

config-collected : (now : ℕ) (b : Breaker) → (collected now b).config ≡ b.config
unfolding collected
config-collected now b = ground arith

config-finish : (b : Breaker) (r : Round) → (finish b r).1.config ≡ b.config
config-finish b (go_on m) = refl
config-finish b (return o m) = refl

pub config-admit :
    (agent : String) (stream : Option String) (now : ℕ) (b : Breaker)
    → (admit agent stream now b).1.config ≡ b.config
unfolding admit
config-admit agent stream now b = config-finish (collected now b) _ ∙ config-collected now b

pub config-run : (c : Config) (h : List Call) → (run c h).config ≡ c
unfolding run
config-run c [] = refl
config-run c (a ∷ older) = config-admit a.agent a.stream a.now (run c older) ∙ config-run c older

stream-not-agent :
    (a s b : String) → ite (key_discrete (stream_key a s) (agent_key b)) true false ≡ false
unfolding key_discrete
stream-not-agent a s b = refl

agent-not-stream :
    (a s b : String) → ite (key_discrete (agent_key b) (stream_key a s)) true false ≡ false
unfolding key_discrete
agent-not-stream a s b = refl

-- The scopes that a call touches are those of the keys that count its wake.
covers-touched :
    (c : Config) (k : Key) (agent : String) (stream : Option String)
    → Limited c k
    → covers k agent stream ≡ touched k (scopes c agent stream)
unfolding scopes contains
covers-touched c (agent_key a) agent none limited = refl
covers-touched c (agent_key a) agent (some stream) limited =
    let other = stream-not-agent agent stream a in
    elim (Bool-cases (ltb 0 c.stream_max_wakes)) [
      | inl on ↦ rw on (ground (arith, other))
      | inr off ↦ rw off refl
    ]
covers-touched c (stream_key a s) agent none limited =
    let other = agent-not-stream a s agent in ground (arith, other)
covers-touched c (stream_key a s) agent (some stream) limited =
    let other = agent-not-stream a s agent in
    elim (Bool-cases (ltb 0 c.stream_max_wakes)) [
      | inl on ↦ rw on (ground (arith, other))
      | inr off ↦ absurd (ground (arith, off, limited))
    ]

run-Holds :
    (c : Config) (k : Key) (h : List Call) (now : ℕ)
    → c.window ≤ c.cooldown
    → Limited c k
    → Ordered h now
    → Holds c k (limit c k) now (admitted_log c k h) (run c h).windows
unfolding run admitted_log answer recent get
run-Holds c k [] now long limited o = record {
  past = tt;
  rate = omega arith;
  sorted = tt;
  phase = λ n le. omega arith;
}
run-Holds c k (a ∷ older) now long limited o =
    let kept =
      admit-Holds c k (admitted_log c k older) a (run c older) (config-run c older) long
        (run-Holds c k older a.now long limited o.1) in
    Bounded-later c (limit c k) o.0 (rw (covers-touched c k a.agent a.stream limited) kept)

-- If the cooldown is no shorter than the window, then after any calls under a clock that never
-- runs backwards, the wakes admitted for an agent within the last window are at most `max_wakes`,
-- and those admitted for one of its streams at most `stream_max_wakes`, unless that is zero, which
-- switches the stream's limit off.
pub rate_bound :
    (c : Config) (k : Key) (h : List Call) (now : ℕ)
    → c.window ≤ c.cooldown
    → Limited c k
    → Ordered h now
    → recent c.window now (admitted_log c k h) ≤ limit c k
rate_bound c k h now long limited o = (run-Holds c k h now long limited o).rate
