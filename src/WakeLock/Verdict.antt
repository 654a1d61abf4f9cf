-- ===== src/WakeLock/Verdict.antt =====
-- When the guard refuses a wake, and which files it opens (wakelock.py).
use basecradle_router.Base.{
  ℕ, Bool, ◌≤◌, ◌≡◌, ◌↔◌, inl, inr, refl, String, true, false, Option, none, some, List, [], ◌∷◌,
  length, codes, Dict, get, string_discrete, Bool-cases, ltb, ge→ltb, arith,
}
use Prim.Native.String
use basecradle_router.Models.{has_slash}
use basecradle_router.Base.Result.{Result, ok, err}
use basecradle_router.WakeLock.{
  DateError, overflow_error, WakeLockDecision, decision, should_wake, Read, content, file_not_found,
  read_fault, Json, Loaded, json_object, not_an_object, json_decode_error, Host, unreadable,
  unparseable_for, parse_iso8601, after_expiry, after_loads, decide, basename, same_text, is_unsafe,
  after_read, inspect,
}

-- The file that the guard opens for a slug.
abbrev pub lock_file : Host → String → Read
lock_file h slug = h.read h.lock_dir (String.◌++◌ slug ".lock")

-- A wake that goes ahead: an inspection that raises lets none through.
abbrev pub is_let_through : Result DateError WakeLockDecision → Bool
is_let_through (ok d) = should_wake d
is_let_through (err e) = false

-- A lock that has run out: a JSON object with an expiry that can be read and is past.
pub record Expired (h : Host) (raw : String) : Type 0 where
  pub fields : Dict String Json
  pub expiry : ℕ
  pub loaded : h.loads raw ≡ json_object fields
  pub read : parse_iso8601 h (get string_discrete "expires_at" fields) ≡ ok (some expiry)
  pub past : expiry ≤ h.now

-- The reasons to wake an agent, as the file of its lock is read.
pub data Wakes (h : Host) (slug : String) : Type 0 where
  by_unsafe_slug : is_unsafe slug ≡ true → Wakes h slug
  by_no_file : lock_file h slug ≡ file_not_found → Wakes h slug
  by_fault : {e : String} → lock_file h slug ≡ read_fault e → Wakes h slug
  by_expiry : {raw : String} → lock_file h slug ≡ content raw → Expired h raw → Wakes h slug

-- The lock of a safe slug with an expiry off the calendar in UTC.
pub record Overflows (h : Host) (slug : String) : Type 0 where
  pub raw : String
  pub fields : Dict String Json
  pub safe : is_unsafe slug ≡ false
  pub opened : lock_file h slug ≡ content raw
  pub loaded : h.loads raw ≡ json_object fields
  pub read : parse_iso8601 h (get string_discrete "expires_at" fields) ≡ err overflow_error

after_expiry-Expired :
    (h : Host) (raw : String) (fields : Dict String Json) (t : Result DateError (Option ℕ))
    → h.loads raw ≡ json_object fields
    → parse_iso8601 h (get string_discrete "expires_at" fields) ≡ t
    → is_let_through (after_expiry h fields t) ≡ true
    → Expired h raw
unfolding after_expiry
after_expiry-Expired h raw fields (err e) loaded read wakes = absurd (cc)
after_expiry-Expired h raw fields (ok none) loaded read wakes = absurd (cc)
after_expiry-Expired h raw fields (ok (some expiry)) loaded read wakes = record {
  fields = fields;
  expiry = expiry;
  loaded = loaded;
  read = read;
  past = elim (Bool-cases (ltb h.now expiry)) [
    | inl live ↦ absurd (let clash = rw live at wakes in cc)
    | inr over ↦ ground arith
  ];
}

after_loads-Expired :
    (h : Host) (raw : String) (l : Loaded)
    → h.loads raw ≡ l
    → is_let_through (after_loads h l) ≡ true
    → Expired h raw
unfolding after_loads unparseable_for
after_loads-Expired h raw (json_decode_error e) loaded wakes = absurd (cc)
after_loads-Expired h raw not_an_object loaded wakes = absurd (cc)
after_loads-Expired h raw (json_object fields) loaded wakes =
    after_expiry-Expired h raw fields (parse_iso8601 h (get string_discrete "expires_at" fields))
      loaded refl wakes

after_read-Wakes :
    (h : Host) (slug : String) (r : Read)
    → lock_file h slug ≡ r
    → is_let_through (after_read h r) ≡ true
    → Wakes h slug
unfolding after_read decide
after_read-Wakes h slug file_not_found opened wakes = by_no_file opened
after_read-Wakes h slug (read_fault e) opened wakes = by_fault opened
after_read-Wakes h slug (content raw) opened wakes =
    by_expiry opened (after_loads-Expired h raw (h.loads raw) refl wakes)

inspect-Wakes : (h : Host) (slug : String) → is_let_through (inspect h slug) ≡ true → Wakes h slug
unfolding inspect
inspect-Wakes h slug wakes = elim (Bool-cases (is_unsafe slug)) [
  | inl bad ↦ by_unsafe_slug bad
  | inr good ↦ after_read-Wakes h slug (lock_file h slug) refl (rw good at wakes)
]

Expired-decide : (h : Host) (raw : String) → Expired h raw → is_let_through (decide h raw) ≡ true
unfolding decide after_loads after_expiry
Expired-decide h raw x = rw (x.loaded, x.read) (rw (ge→ltb h.now x.expiry x.past) refl)

-- What the guard says of a slug, from what it says of the slug's file if the slug is safe.
Wakes-inspect : (h : Host) (slug : String) → Wakes h slug → is_let_through (inspect h slug) ≡ true
unfolding inspect after_read
Wakes-inspect h slug w = elim (Bool-cases (is_unsafe slug)) [
  | inl bad ↦ rw bad refl
  | inr good ↦ rw good (go good w)
]
  where
    go :
        is_unsafe slug ≡ false
        → Wakes h slug
        → is_let_through (after_read h (lock_file h slug)) ≡ true
    go good (by_unsafe_slug bad) = absurd (cc)
    go good (by_no_file opened) = rw opened refl
    go good (by_fault opened) = rw opened refl
    go good (by_expiry {raw = raw} opened expired) = rw opened (Expired-decide h raw expired)

after_expiry-raises :
    (h : Host) (fields : Dict String Json) (t : Result DateError (Option ℕ))
    → after_expiry h fields t ≡ err overflow_error
    → t ≡ err overflow_error
unfolding after_expiry
after_expiry-raises h fields (err overflow_error) raises = refl
after_expiry-raises h fields (ok none) raises = absurd (cc)
after_expiry-raises h fields (ok (some expiry)) raises = absurd (cc)

after_loads-Overflows :
    (h : Host) (slug raw : String) (l : Loaded)
    → is_unsafe slug ≡ false
    → lock_file h slug ≡ content raw
    → h.loads raw ≡ l
    → after_loads h l ≡ err overflow_error
    → Overflows h slug
unfolding after_loads
after_loads-Overflows h slug raw (json_decode_error e) good opened loaded raises = absurd (cc)
after_loads-Overflows h slug raw not_an_object good opened loaded raises = absurd (cc)
after_loads-Overflows h slug raw (json_object fields) good opened loaded raises = record {
  raw = raw;
  fields = fields;
  safe = good;
  opened = opened;
  loaded = loaded;
  read = after_expiry-raises h fields _ raises;
}

after_read-Overflows :
    (h : Host) (slug : String) (r : Read)
    → is_unsafe slug ≡ false
    → lock_file h slug ≡ r
    → after_read h r ≡ err overflow_error
    → Overflows h slug
unfolding after_read decide
after_read-Overflows h slug file_not_found good opened raises = absurd (cc)
after_read-Overflows h slug (read_fault e) good opened raises = absurd (cc)
after_read-Overflows h slug (content raw) good opened raises =
    after_loads-Overflows h slug raw (h.loads raw) good opened refl raises

inspect-Overflows :
    (h : Host) (slug : String) → inspect h slug ≡ err overflow_error → Overflows h slug
unfolding inspect
inspect-Overflows h slug raises = elim (Bool-cases (is_unsafe slug)) [
  | inl bad ↦ absurd (let clash = rw bad at raises in cc)
  | inr good ↦ after_read-Overflows h slug (lock_file h slug) good refl (rw good at raises)
]

Overflows-inspect :
    (h : Host) (slug : String) → Overflows h slug → inspect h slug ≡ err overflow_error
unfolding inspect after_read decide after_loads after_expiry
Overflows-inspect h slug x = rw x.safe (rw x.opened (rw (x.loaded, x.read) refl))

-- The guard lets a wake through exactly if the slug is unsafe, the lock file does not exist or
-- cannot be read, or it holds a JSON object with a readable expiry that is not in the future: any
-- other content of the file, a malformed one included, does not let the wake through. And it raises
-- exactly if the slug is safe and the file holds a JSON object whose expiry is a time that is off
-- the calendar in UTC.
pub should_wake_iff :
    (h : Host) (slug : String)
    → ((is_let_through (inspect h slug) ≡ true) ↔ Wakes h slug)
      × ((inspect h slug ≡ err overflow_error) ↔ Overflows h slug)
should_wake_iff h slug = (
  (inspect-Wakes h slug, Wakes-inspect h slug),
  (inspect-Overflows h slug, Overflows-inspect h slug),
)

length-basename : (cs : List ℕ) → length (basename cs) ≤ length cs
unfolding basename
length-basename [] = omega arith
length-basename (c ∷ cs) = ground (arith, length-basename cs)

same_text-length : (cs ds : List ℕ) → same_text cs ds ≡ true → length cs ≡ length ds
unfolding same_text
same_text-length [] [] e = refl
same_text-length [] (d ∷ ds) e = absurd (cc)
same_text-length (c ∷ cs) [] e = absurd (cc)
same_text-length (c ∷ cs) (d ∷ ds) e = ground (arith, same_text-length cs ds)

has_slash-nil : has_slash [] ≡ false
unfolding has_slash
has_slash-nil = refl

basename-slash : (cs : List ℕ) → has_slash cs ≡ true → same_text cs (basename cs) ≡ false
unfolding basename
basename-slash [] e = absurd (let clash = has_slash-nil in cc)
basename-slash (c ∷ cs) e = elim (Bool-cases (same_text (c ∷ cs) (basename cs))) [
  | inl same ↦
      absurd (omega (arith, same_text-length (c ∷ cs) (basename cs) same, length-basename cs))
  | inr other ↦ rw e other
]

-- A slug with a slash, which would lead out of the lock directory, is never opened: hosts that
-- differ in their files, their parsers and their clock all decide alike, that the lock is
-- unreadable because of the unsafe slug, and the wake goes ahead.
pub inspect-slash :
    (h : Host) (read : String → String → Read) (loads : String → Loaded) (now : ℕ) (slug : String)
    → has_slash (codes slug) ≡ true
    → (inspect (record h { read = read; loads = loads; now = now }) slug ≡ inspect h slug)
      × ((d : WakeLockDecision) × (inspect h slug ≡ ok d)
          × (d.state ≡ unreadable)
          × (d.reason ≡ "unsafe-slug")
          × (should_wake d ≡ true))
unfolding inspect is_unsafe decision
inspect-slash h read loads now slug slash =
    let bad = basename-slash (codes slug) slash in
    let d : WakeLockDecision =
      decision unreadable (String.◌++◌ "unsafe slug " (h.repr slug)) "unsafe-slug" "" "" in
    (rw bad refl, (d, rw bad refl, refl, refl, refl))
