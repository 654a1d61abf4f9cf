-- ===== src/Coalesce/Order.antt =====
-- One record in the ordered dictionary of coalesce.py, and histories of records.
use mathlib.Core.Option
use basecradle_router.Base.{
  ℕ, ◌≡◌, refl, String, Option, none, some, List, [], ◌∷◌, ◌++◌, Dict, get, del, get-put, get-del,
  get-snoc, del-put, ite, if◌then◌else◌, leb, arith,
}
use basecradle_router.Models.{Event, stream_key}
use basecradle_router.Coalesce.{
  Coverage, Key, key_discrete, WakeCoverage, trim, store, move_to_end, record_wake,
}

-- What `record_wake` leaves under a key.
abbrev pub later_of : Option Coverage → Coverage → Coverage
later_of none c = c
later_of (some known) c = if leb known.started_at c.started_at then c else known

get-store :
    (k j : Key) (c : Coverage) (m : Dict Key Coverage)
    → get key_discrete j (store k c (get key_discrete k m) m)
      ≡ ite (key_discrete k j) (some (later_of (get key_discrete k m) c)) (get key_discrete j m)
unfolding store
get-store k j c m = ground (arith, get-put key_discrete j k c m)

del-store :
    (k : Key) (c : Coverage) (o : Option Coverage) (m : Dict Key Coverage)
    → del key_discrete k (store k c o m) ≡ del key_discrete k m
unfolding store
del-store k c none m = del-put key_discrete k c m
del-store k c (some known) m = ground (arith, del-put key_discrete k c m)

-- The dictionary with a key's entry moved to the end.
abbrev pub moved : Key → Coverage → Dict Key Coverage → Dict Key Coverage
moved k c m = del key_discrete k m ++ (k, c) ∷ []

pub get-moved :
    (k j : Key) (c : Coverage) (m : Dict Key Coverage)
    → get key_discrete j (moved k c m) ≡ ite (key_discrete k j) (some c) (get key_discrete j m)
get-moved k j c m =
    ground (arith, get-snoc key_discrete j k c (del key_discrete k m), get-del key_discrete j k m)

move_to_end-store :
    (k : Key) (c : Coverage) (m : Dict Key Coverage)
    → move_to_end k (store k c (get key_discrete k m) m)
      ≡ some (moved k (later_of (get key_discrete k m) c) m)
unfolding move_to_end
move_to_end-store k c m = ground (arith, get-store k k c m, del-store k c (get key_discrete k m) m)

-- A successful wake of an agent for an event, from an attempt that started then.
pub record Wake : Type 0 where
  pub agent_key : String
  pub event : Event
  pub started_at : ℕ

abbrev pub key_of : Wake → Key
key_of r = (r.agent_key, stream_key r.event)

abbrev pub coverage_of : Wake → Coverage
coverage_of r = record { delivery = r.event.delivery_id; started_at = r.started_at }

unfoldable pub after_streams : Wake → ℕ → Dict Key Coverage → Dict Key Coverage
after_streams r n m =
    trim n (moved (key_of r) (later_of (get key_discrete (key_of r) m) (coverage_of r)) m)

-- What `record_wake` leaves.
unfoldable pub after_record : Wake → WakeCoverage → WakeCoverage
after_record r w = elim r.event.occurred_at [
  | none ↦ w
  | some _ ↦ record w { streams = after_streams r w.capacity w.streams }
]

pub after_record_unstamped :
    (r : Wake) (w : WakeCoverage) → r.event.occurred_at ≡ none → after_record r w ≡ w
unfolding after_record
after_record_unstamped r w e = ground arith

pub after_record_stamped :
    (r : Wake) (w : WakeCoverage) {t : ℕ}
    → r.event.occurred_at ≡ some t
    → after_record r w ≡ record w { streams = after_streams r w.capacity w.streams }
unfolding after_record
after_record_stamped r w e = ground arith

-- `move_to_end` always finds its key.
pub record_wake-after_record :
    (r : Wake) (w : WakeCoverage)
    → record_wake r.agent_key r.event r.started_at w ≡ some (after_record r w)
unfolding record_wake after_record after_streams
record_wake-after_record r w =
    ground (arith, move_to_end-store (key_of r) (coverage_of r) w.streams)

-- The coverage after a history of successful wakes, the newest first.
unfoldable pub record_all : List Wake → WakeCoverage → Option WakeCoverage
record_all [] w = some w
record_all (r ∷ older) w =
    Option.bind (record_all older w) (record_wake r.agent_key r.event r.started_at)

abbrev pub after_all : List Wake → WakeCoverage → WakeCoverage
after_all [] w = w
after_all (r ∷ older) w = after_record r (after_all older w)

pub record_all-after_all :
    (rs : List Wake) (w : WakeCoverage) → record_all rs w ≡ some (after_all rs w)
unfolding record_all Option.bind
record_all-after_all [] w = refl
record_all-after_all (r ∷ older) w =
    rw (record_all-after_all older w) (record_wake-after_record r (after_all older w))
