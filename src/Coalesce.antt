-- ===== src/Coalesce.antt =====
-- coalesce.py: which successful wake already covered a stream. Instants are ticks of the wall
-- clock; the lock is not modelled, since each dictionary operation runs whole under it.
pub mod Order
pub mod Soundness
pub mod Eviction
mod Tests
use basecradle_router.Base.{
  ℕ, String, Bool, Option, none, some, List, [], ◌∷◌, ◌++◌, Dict, get, put, del, length, leb, ltb,
  if◌then◌else◌, string_discrete, pair_discrete,
}
use basecradle_router.Models.{Event, stream_key}

pub record Coverage : Type 0 where
  pub delivery : String
  pub started_at : ℕ

abbrev pub Key : Type 0
Key = String × String

unfoldable pub key_discrete : Discrete Key
unfolding string_discrete pair_discrete
key_discrete = pair_discrete string_discrete string_discrete

pub record WakeCoverage : Type 0 where
  pub capacity : ℕ
  pub streams : Dict Key Coverage

-- `capacity < 1` is a `ValueError`
unfoldable pub init : ℕ → Option WakeCoverage
init capacity = if ltb capacity 1 then none else some (record { capacity = capacity; streams = [] })

-- `OrderedDict.move_to_end`; `none` is its `KeyError`
unfoldable pub move_to_end : Key → Dict Key Coverage → Option (Dict Key Coverage)
move_to_end key m = elim (get key_discrete key m) [
  | none ↦ none
  | some c ↦ some (del key_discrete key m ++ (key, c) ∷ [])
]

-- `while len(streams) > capacity: streams.popitem(last=False)`
unfoldable pub trim : ℕ → Dict Key Coverage → Dict Key Coverage
trim capacity [] = []
trim capacity (e ∷ m) = if ltb capacity (length (e ∷ m)) then trim capacity m else e ∷ m

-- `known is None or started_at >= known.started_at`
unfoldable pub store : Key → Coverage → Option Coverage → Dict Key Coverage → Dict Key Coverage
store key c none m = put key_discrete key c m
store key c (some known) m =
    if leb known.started_at c.started_at then put key_discrete key c m else m

trimmed : WakeCoverage → Option (Dict Key Coverage) → Option WakeCoverage
trimmed w none = none
trimmed w (some m) = some (record w { streams = trim w.capacity m })

-- `none` is the `KeyError` of `move_to_end`.
unfoldable pub record_wake : String → Event → ℕ → WakeCoverage → Option WakeCoverage
unfolding store move_to_end trim trimmed
record_wake agent_key event started_at w = elim event.occurred_at [
  | none ↦ some w
  | some _ ↦
      let key : Key = (agent_key, stream_key event) in
      let c : Coverage = record { delivery = event.delivery_id; started_at = started_at } in
      let known = get key_discrete key w.streams in
      trimmed w (move_to_end key (store key c known w.streams))
]

covers : ℕ → Option Coverage → Option Coverage
covers occurred none = none
covers occurred (some known) = if ltb occurred known.started_at then some known else none

unfoldable pub covering : String → Event → WakeCoverage → Option Coverage
unfolding covers
covering agent_key event w = elim event.occurred_at [
  | none ↦ none
  | some occurred ↦ covers occurred (get key_discrete (agent_key, stream_key event) w.streams)
]
