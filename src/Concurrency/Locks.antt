-- ===== src/Concurrency/Locks.antt =====
-- `AgentLocks`, one lock per agent key (concurrency.py). A lock is its number of creation; a blocking
-- `acquire` waits until the non-blocking one would be told yes.
use basecradle_router.Base.{
  ℕ, ◌+◌, ◌<◌, ◌≡◌, ◌↔◌, refl, String, Bool, true, false, not, Option, none, some, List, [], ◌∷◌,
  Dict, get, put, get-put, string_discrete, contains, discard, contains-discard, ℕ_discrete, ite,
  if◌then◌else◌, arith, Bool-cases, Option-cases, inl, inr,
}

pub record AgentLocks : Type 0 where
  pub locks : Dict String ℕ
  pub created : ℕ
  pub held : List ℕ

abbrev pub no_locks : AgentLocks
no_locks = record { locks = []; created = 0; held = [] }

unfoldable pub lock_at : String → Option ℕ → AgentLocks → ℕ × AgentLocks
lock_at key (some l) s = (l, s)
lock_at key none s = (
  s.created,
  record s { locks = put string_discrete key s.created s.locks; created = s.created + 1 },
)

-- `_lock_for`
unfoldable pub lock_for : String → AgentLocks → ℕ × AgentLocks
unfolding lock_at
lock_for key s = lock_at key (get string_discrete key s.locks) s

-- `acquire` with `blocking=False`
unfoldable pub acquire : String → AgentLocks → Bool × AgentLocks
unfolding lock_for
acquire key s =
    let (l, s') = lock_for key s in
    if contains ℕ_discrete l s'.held then (false, s') else (true, record s' { held = l ∷ s'.held })

-- Releasing a lock that is not held is a `RuntimeError`.
unfoldable pub release : String → AgentLocks → Option AgentLocks
unfolding lock_for
release key s =
    let (l, s') = lock_for key s in
    if contains ℕ_discrete l s'.held
    then some (record s' { held = discard ℕ_discrete l s'.held })
    else none

-- Whether a key's lock is held.
abbrev is_held : Option ℕ → List ℕ → Bool
is_held none held = false
is_held (some l) held = contains ℕ_discrete l held

-- No two keys share a lock, and no lock is held or given out before it is created.
record Valid (s : AgentLocks) : Type 0 where
  apart :
      (j k : String) (l : ℕ)
      → get string_discrete j s.locks ≡ some l
      → get string_discrete k s.locks ≡ some l
      → j ≡ k
  given : (k : String) (l : ℕ) → get string_discrete k s.locks ≡ some l → l < s.created
  born : (l : ℕ) → contains ℕ_discrete l s.held ≡ true → l < s.created

-- What a look-up leaves: the same keys held, and the key's own lock.
record Found (key : String) (s : AgentLocks) (r : ℕ × AgentLocks) : Type 0 where
  valid : Valid r.1
  own : get string_discrete key r.1.locks ≡ some r.0
  same_held : r.1.held ≡ s.held
  views :
      (k : String)
      → is_held (get string_discrete k r.1.locks) s.held
        ≡ is_held (get string_discrete k s.locks) s.held

lock_for-Found : (key : String) (s : AgentLocks) → Valid s → Found key s (lock_for key s)
unfolding lock_for lock_at
lock_for-Found key s h = go (get string_discrete key s.locks) refl
  where
    go : (o : Option ℕ) → get string_discrete key s.locks ≡ o → Found key s (lock_at key o s)
    go (some l) there = record { valid = h; own = there; same_held = refl; views = λ k. refl }
    go none missing = record {
      valid = record {
        apart = λ j k l a b. ground (
          arith,
          h.apart j k l,
          h.given j l,
          h.given k l,
          get-put string_discrete j key s.created s.locks,
          get-put string_discrete k key s.created s.locks,
        );
        given =
            λ k l a. ground (arith, h.given k l, get-put string_discrete k key s.created s.locks);
        born = λ l a. ground (arith, h.born l);
      };
      own = ground (arith, get-put string_discrete key key s.created s.locks);
      same_held = refl;
      views =
          λ k. ground (arith, h.born s.created, get-put string_discrete k key s.created s.locks);
    }

-- A call of the locks: a wake that asks for its agent's lock, or one that gives it back.
pub data Call : Type 0 where
  acquires : String → Call
  releases : String → Call

abbrev kept : AgentLocks → Option AgentLocks → AgentLocks
kept s none = s
kept s (some s') = s'

step : AgentLocks → Call → AgentLocks
step s (acquires k) = (acquire k s).1
step s (releases k) = kept s (release k s)

-- The locks after a history, the newest call first. A release that raises is passed over: the lock
-- it may have created is free, as one not yet created is.
unfoldable pub run : List Call → AgentLocks
unfolding step
run [] = no_locks
run (c ∷ older) = step (run older) c

-- Whether a key was acquired after it was last released.
abbrev pub in_use : String → List Call → Bool
in_use k [] = false
in_use k (acquires j ∷ older) = ite (string_discrete j k) true (in_use k older)
in_use k (releases j ∷ older) = ite (string_discrete j k) false (in_use k older)

record Tracks (h : List Call) (s : AgentLocks) : Type 0 where
  valid : Valid s
  views : (k : String) → is_held (get string_discrete k s.locks) s.held ≡ in_use k h

-- Taking a key's lock holds that key and no other; giving it back frees that key and no other.
module _ (key : String) (l : ℕ) (t : AgentLocks) (valid : Valid t)
    (own : get string_discrete key t.locks ≡ some l) where
  is_held-take :
      (k : String)
      → is_held (get string_discrete k t.locks) (l ∷ t.held)
        ≡ ite (string_discrete key k) true (is_held (get string_discrete k t.locks) t.held)
  unfolding contains
  is_held-take k = elim (Option-cases (get string_discrete k t.locks)) [
    | inl missing ↦ ground (arith, own)
    | inr (m, there) ↦ ground (arith, own, valid.apart key k l)
  ]

  is_held-give :
      (k : String)
      → is_held (get string_discrete k t.locks) (discard ℕ_discrete l t.held)
        ≡ ite (string_discrete key k) false (is_held (get string_discrete k t.locks) t.held)
  is_held-give k = elim (Option-cases (get string_discrete k t.locks)) [
    | inl missing ↦ ground (arith, own)
    | inr (m, there) ↦
        ground (arith, own, valid.apart key k l, contains-discard ℕ_discrete m l t.held)
  ]

module _ (key : String) (h : List Call) (s : AgentLocks) (r : Tracks h s) where
  found : Found key s (lock_for key s)
  found = lock_for-Found key s r.valid

  found_views :
      (k : String)
      → is_held (get string_discrete k (lock_for key s).1.locks) (lock_for key s).1.held
        ≡ in_use k h
  found_views k = ground (arith, found.same_held, found.views k, r.views k)

  -- The lock is free exactly if the key is not in use.
  free_iff : contains ℕ_discrete (lock_for key s).0 (lock_for key s).1.held ≡ in_use key h
  free_iff = ground (arith, found.own, found_views key)

  acquire-Tracks : Tracks (acquires key ∷ h) (acquire key s).1
  unfolding acquire contains
  acquire-Tracks =
      elim (Bool-cases (contains ℕ_discrete (lock_for key s).0 (lock_for key s).1.held)) [
        | inl busy ↦ rw busy (record {
          valid = found.valid;
          views = λ k. ground (arith, found_views k, free_iff, busy);
        })
        | inr free ↦ rw free (record {
          valid = record {
            apart = found.valid.apart;
            given = found.valid.given;
            born = λ m a. ground (arith, found.valid.born m, found.valid.given key m, found.own, a);
          };
          views = λ k. ground (
            arith,
            found_views k,
            is_held-take key (lock_for key s).0 (lock_for key s).1 found.valid found.own k,
          );
        })
      ]

  release-Tracks : Tracks (releases key ∷ h) (kept s (release key s))
  unfolding release
  release-Tracks =
      elim (Bool-cases (contains ℕ_discrete (lock_for key s).0 (lock_for key s).1.held)) [
        | inl busy ↦ rw busy (record {
          valid = record {
            apart = found.valid.apart;
            given = found.valid.given;
            born = λ m a. ground (
              arith,
              found.valid.born m,
              contains-discard ℕ_discrete m (lock_for key s).0 (lock_for key s).1.held,
              a,
            );
          };
          views = λ k. ground (
            arith,
            found_views k,
            is_held-give key (lock_for key s).0 (lock_for key s).1 found.valid found.own k,
          );
        })
        | inr free ↦
            rw free
              (record { valid = r.valid; views = λ k. ground (arith, r.views k, free_iff, free) })
      ]

run-Tracks : (h : List Call) → Tracks h (run h)
unfolding run contains get
run-Tracks [] = record {
  valid = record {
    apart = λ j k l a b. absurd (cc);
    given = λ k l a. absurd (cc);
    born = λ l a. absurd (cc);
  };
  views = λ k. refl;
}
run-Tracks (acquires k ∷ h) = acquire-Tracks k h (run h) (run-Tracks h)
run-Tracks (releases k ∷ h) = release-Tracks k h (run h) (run-Tracks h)

-- After any calls, an agent's lock is granted exactly if it was not acquired since its last release,
-- and a release raises exactly then: the same agent's wakes exclude each other, and no agent's lock
-- depends on another's.
pub acquire-run :
    (h : List Call) (k : String)
    → ((acquire k (run h)).0 ≡ not (in_use k h))
      × ((release k (run h) ≡ none) ↔ (in_use k h ≡ false))
unfolding acquire release
acquire-run h k =
    let free = free_iff k h (run h) (run-Tracks h) in
    elim (Bool-cases (in_use k h)) [
      | inl busy ↦ (rw (free, busy) refl, rw (free, busy) ((λ e. absurd (cc)), (λ e. absurd (cc))))
      | inr idle ↦ (rw (free, idle) refl, rw (free, idle) ((λ e. refl), (λ e. refl)))
    ]
