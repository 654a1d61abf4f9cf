-- ===== src/Breaker.antt =====
-- breaker.py: the rolling-window wake-rate breaker. Times are ticks of the monotonic clock, passed
-- to each call; the log lines, with the synthetic switch that only they read, are not modelled.
pub mod Recent
pub mod Keep
mod Loops
mod Passes
pub mod Rate
mod Tests
use basecradle_router.Base.{
  ℕ, zero, suc, ◌+◌, String, Bool, true, false, ◌&&◌, ◌||◌, Option, none, some, List, [], ◌∷◌, ◌++◌,
  Dict, get, put, sweep, length, leb, ltb, if◌then◌else◌, string_discrete, pair_discrete, ap,
}
use basecradle_router.Base.Result.{Result, ok, err, ◌>>=◌, ◌>>◌, raise_if}
use basecradle_router.Models.{Error, value_error}

pub record Config : Type 0 where
  pub max_wakes : ℕ
  pub window : ℕ
  pub cooldown : ℕ
  pub stream_max_wakes : ℕ

-- A cooldown or a stream limit below zero is no value of the type.
unfoldable pub Config_post_init : Config → Result Error Unit
Config_post_init c = do
  raise_if (ltb c.max_wakes 1) value_error
  raise_if (leb c.window 0) value_error

pub data BreakerState : Type 0 where
  admitted tripped open_state : BreakerState

pub record BreakerOutcome : Type 0 where
  pub state : BreakerState
  pub scope : String
  pub key : String
  pub count : ℕ

-- `BreakerOutcome.admitted`
abbrev pub is_admitted : BreakerState → Bool
is_admitted admitted = true
is_admitted _ = false

-- `_Window`; the deque has its oldest entry first.
pub record Window : Type 0 where
  pub timestamps : List ℕ
  pub tripped_until : Option ℕ

abbrev pub new_window : Window
new_window = record { timestamps = []; tripped_until = none }

-- The tuples that key the windows.
pub data Key : Type 0 where
  agent_key : String → Key
  stream_key : String → String → Key

unfoldable pub key_discrete : Discrete Key
unfolding string_discrete pair_discrete
key_discrete (agent_key a) (agent_key b) = elim (string_discrete a b) [
  | yes p ↦ yes (ap agent_key p)
  | no q ↦ no (λ e. q (cc))
]
key_discrete (agent_key a) (stream_key b s) = no (λ e. cc)
key_discrete (stream_key a s) (agent_key b) = no (λ e. cc)
key_discrete (stream_key a s) (stream_key b t) =
    elim (pair_discrete string_discrete string_discrete (a, s) (b, t)) [
      | yes p ↦ yes (ap (λ (x : String × String). stream_key x.0 x.1) p)
      | no q ↦ no (λ e. q (cc))
    ]

pub record Scope : Type 0 where
  pub name : String
  pub dict_key : Key
  pub threshold : ℕ
  pub display : String

pub record Breaker : Type 0 where
  pub config : Config
  pub windows : Dict Key Window
  pub admits_since_gc : ℕ

abbrev pub init : Config → Breaker
init c = record { config = c; windows = []; admits_since_gc = 0 }

-- `_GC_INTERVAL`
abbrev pub gc_interval : ℕ
gc_interval = 1024

abbrev agent_scope : Config → String → Scope
agent_scope c agent = record {
  name = "agent";
  dict_key = agent_key agent;
  threshold = c.max_wakes;
  display = agent;
}

abbrev stream_scope : Config → String → String → Scope
stream_scope c agent stream = record {
  name = "stream";
  dict_key = stream_key agent stream;
  threshold = c.stream_max_wakes;
  display = stream;
}

-- The list `scopes` of `admit`.
pub scopes : Config → String → Option String → List Scope
scopes c agent none = agent_scope c agent ∷ []
scopes c agent (some stream) =
    agent_scope c agent
    ∷ (if ltb 0 c.stream_max_wakes then stream_scope c agent stream ∷ [] else [])

-- `while timestamps and timestamps[0] <= now - window: timestamps.popleft()`
pub purge : ℕ → ℕ → List ℕ → List ℕ
purge window now [] = []
purge window now (t ∷ ts) = if leb (t + window) now then purge window now ts else t ∷ ts

pub all_aged : ℕ → ℕ → List ℕ → Bool
all_aged window now [] = true
all_aged window now (t ∷ []) = leb (t + window) now
all_aged window now (t ∷ u ∷ ts) = all_aged window now (u ∷ ts)

untripped : Option ℕ → Bool
untripped none = true
untripped (some _) = false

-- `_gc` drops an untripped window that is empty or whose newest wake has aged out.
pub is_stale : Config → ℕ → Window → Bool
unfolding untripped all_aged
is_stale c now w = untripped w.tripped_until && all_aged c.window now w.timestamps

gc : ℕ → Breaker → Breaker
unfolding is_stale
gc now b = record b { windows = sweep key_discrete (is_stale b.config now) b.windows }

-- A round of a loop over the scopes goes on with the windows, or returns an outcome.
pub data Round : Type 0 where
  go_on : Dict Key Window → Round
  return : BreakerOutcome → Dict Key Window → Round

abbrev pub then_loop : Round → (Dict Key Window → Round) → Round
then_loop (go_on m) rest = rest m
then_loop (return o m) rest = return o m

cool_window : ℕ → Scope → Dict Key Window → Option ℕ → Round
cool_window now s m none = go_on m
cool_window now s m (some until) =
    if ltb now until
    then return (record { state = open_state; scope = s.name; key = s.display; count = 0 }) m
    else go_on (put key_discrete s.dict_key new_window m)

cool_known : ℕ → Scope → Dict Key Window → Option Window → Round
unfolding cool_window
cool_known now s m none = go_on m
cool_known now s m (some w) = cool_window now s m w.tripped_until

-- The first loop: a scope in its cooldown refuses, one past it is reset.
pub cool : ℕ → Scope → Dict Key Window → Round
unfolding cool_known
cool now s m = cool_known now s m (get key_discrete s.dict_key m)

abbrev pub or_new : Option Window → Window
or_new none = new_window
or_new (some w) = w

judge : Config → ℕ → Scope → Dict Key Window → Window → Round
judge c now s m w =
    if ltb s.threshold (length w.timestamps)
    then return
        (record { state = tripped; scope = s.name; key = s.display; count = length w.timestamps })
        (put key_discrete s.dict_key (record w { tripped_until = some (now + c.cooldown) }) m)
    else go_on (put key_discrete s.dict_key w m)

-- The second loop: the wake is counted on each scope, and the first that goes over trips.
pub count_on : Config → ℕ → Scope → Dict Key Window → Round
unfolding judge purge
count_on c now s m =
    let w = or_new (get key_discrete s.dict_key m) in
    judge c now s m (record w { timestamps = purge c.window now w.timestamps ++ now ∷ [] })

pub each : (Scope → Dict Key Window → Round) → List Scope → Dict Key Window → Round
each f [] m = go_on m
each f (s ∷ ss) m = then_loop (f s m) (each f ss)

-- The windows after the periodic collection.
collected : ℕ → Breaker → Breaker
unfolding gc
collected now b =
    let counted : Breaker = record b { admits_since_gc = b.admits_since_gc + 1 } in
    if leb gc_interval counted.admits_since_gc
    then record (gc now counted) { admits_since_gc = 0 }
    else counted

-- Both loops, the second only if the first did not return.
pub both_loops : Config → ℕ → List Scope → Dict Key Window → Round
unfolding each cool count_on
both_loops c now ss m = then_loop (each (cool now) ss m) (each (count_on c now) ss)

abbrev finish : Breaker → Round → BreakerOutcome × Breaker
finish b (go_on m) =
    (record { state = admitted; scope = ""; key = ""; count = 0 }, record b { windows = m })
finish b (return o m) = (o, record b { windows = m })

unfoldable pub admit : String → Option String → ℕ → Breaker → BreakerOutcome × Breaker
unfolding collected both_loops scopes
admit agent stream now b =
    let b' = collected now b in
    finish b' (both_loops b.config now (scopes b.config agent stream) b'.windows)
