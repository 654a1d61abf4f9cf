-- ===== src/WakeLock.antt =====
-- wakelock.py: the lock file that keeps an agent from being woken. The file system, the JSON parser,
-- the date functions and `repr` are the record `Host`; an aware `datetime` is an instant. The log
-- lines of `check` are not modelled.
pub mod Verdict
mod Tests
use Prim.Native.String
use basecradle_router.Base.{
  ℕ, String, Bool, true, false, not, ◌&&◌, ◌||◌, Option, none, some, List, [], ◌∷◌, ltb, ◌==◌,
  if◌then◌else◌, codes, Dict, get, string_discrete,
}
use basecradle_router.Base.Result.{Result, ok, err}
use basecradle_router.Models.{is_space, is_empty, has_slash}

pub data WakeLockState : Type 0 where
  absent held stale unparseable unreadable : WakeLockState

-- membership in `_WAKE_STATES`
abbrev pub is_wake_state : WakeLockState → Bool
is_wake_state absent = true
is_wake_state stale = true
is_wake_state unreadable = true
is_wake_state _ = false

pub record WakeLockDecision : Type 0 where
  pub state : WakeLockState
  pub detail : String
  pub reason : String
  pub lock_reason : String
  pub expires_at : String

abbrev pub should_wake : WakeLockDecision → Bool
should_wake d = is_wake_state d.state

-- A file as it is read: `FileNotFoundError`, or an `OSError` or a `ValueError` with its text.
pub data Read : Type 0 where
  content : String → Read
  file_not_found : Read
  read_fault : String → Read

-- A value of a JSON object, as far as the guard looks at it.
pub data Json : Type 0 where
  json_text : String → Json
  json_other : Json

-- What `json.loads` gives or raises.
pub data Loaded : Type 0 where
  json_object : Dict String Json → Loaded
  not_an_object : Loaded
  json_decode_error : String → Loaded

-- What `datetime.fromisoformat` gives: a naive value or an aware one with its instant in UTC, or an
-- aware one near an end of the calendar whose time in UTC is past it.
pub data IsoTime : Type 0 where
  naive : ℕ → IsoTime
  aware : ℕ → IsoTime
  off_calendar : IsoTime

-- What `astimezone` raises for a time off the calendar.
pub data DateError : Type 0 where
  overflow_error : DateError

pub record Host : Type 0 where
  pub lock_dir : String
  pub read : String → String → Read
  pub loads : String → Loaded
  pub fromisoformat : List ℕ → Option IsoTime
  pub isoformat : ℕ → String
  pub repr : String → String
  pub now : ℕ

unfoldable pub decision : WakeLockState → String → String → String → String → WakeLockDecision
decision state detail reason lock_reason expires_at = record {
  state = state;
  detail = detail;
  reason = reason;
  lock_reason = lock_reason;
  expires_at = expires_at;
}

-- `_unparseable`
unfoldable pub unparseable_for : String → WakeLockDecision
unfolding decision
unparseable_for reason =
    decision unparseable (String.◌++◌ "wake_lock_unparseable: " reason) reason "" ""

-- `str.strip`
unfoldable pub strip_start : List ℕ → List ℕ
strip_start [] = []
strip_start (c ∷ cs) = if is_space c then strip_start cs else c ∷ cs

unfoldable pub strip_end : List ℕ → List ℕ
strip_end [] = []
strip_end (c ∷ cs) = let rest = strip_end cs in if is_empty rest && is_space c then [] else c ∷ rest

-- A trailing `Z` or `z`, replaced by the offset it stands for.
unfoldable pub spell_offset : List ℕ → List ℕ
spell_offset [] = []
spell_offset (c ∷ []) = if c == b'Z' || c == b'z' then codes "+00:00" else c ∷ []
spell_offset (c ∷ d ∷ cs) = c ∷ spell_offset (d ∷ cs)

abbrev pub instant_of : Option IsoTime → Result DateError (Option ℕ)
instant_of none = ok none
instant_of (some (naive t)) = ok (some t)
instant_of (some (aware t)) = ok (some t)
instant_of (some off_calendar) = err overflow_error

unfoldable pub parse_text : Host → List ℕ → Result DateError (Option ℕ)
unfolding spell_offset
parse_text h [] = ok none
parse_text h (c ∷ cs) = instant_of (h.fromisoformat (spell_offset (c ∷ cs)))

-- `_parse_iso8601` of `data.get(...)`
unfoldable pub parse_iso8601 : Host → Option Json → Result DateError (Option ℕ)
unfolding parse_text strip_start strip_end
parse_iso8601 h none = ok none
parse_iso8601 h (some json_other) = ok none
parse_iso8601 h (some (json_text t)) = parse_text h (strip_end (strip_start (codes t)))

abbrev pub text_or_empty : Option Json → String
text_or_empty (some (json_text t)) = t
text_or_empty _ = ""

unfoldable pub after_expiry :
    Host → Dict String Json → Result DateError (Option ℕ) → Result DateError WakeLockDecision
unfolding decision unparseable_for
after_expiry h data_ (err e) = err e
after_expiry h data_ (ok none) = ok (unparseable_for "missing or invalid expires_at")
after_expiry h data_ (ok (some expires_at)) =
    let until = h.isoformat expires_at in
    ok (
      if ltb h.now expires_at
      then decision held (String.◌++◌ "wake_lock_held until " until) ""
          (text_or_empty (get string_discrete "reason" data_)) until
      else decision stale (String.◌++◌ "wake_lock_stale (expired " (String.◌++◌ until ")")) "" ""
          until)

unfoldable pub after_loads : Host → Loaded → Result DateError WakeLockDecision
unfolding unparseable_for after_expiry parse_iso8601
after_loads h (json_decode_error e) = ok (unparseable_for (String.◌++◌ "invalid JSON: " e))
after_loads h not_an_object = ok (unparseable_for "lock is not a JSON object")
after_loads h (json_object data_) =
    after_expiry h data_ (parse_iso8601 h (get string_discrete "expires_at" data_))

-- `_decide`
unfoldable pub decide : Host → String → Result DateError WakeLockDecision
unfolding after_loads
decide h raw = after_loads h (h.loads raw)

-- `os.path.basename`: what stands after the last slash
unfoldable pub basename : List ℕ → List ℕ
basename [] = []
basename (c ∷ cs) = if has_slash (c ∷ cs) then basename cs else c ∷ cs

unfoldable pub same_text : List ℕ → List ℕ → Bool
same_text [] [] = true
same_text (c ∷ cs) (d ∷ ds) = c == d && same_text cs ds
same_text _ _ = false

unfoldable pub is_unsafe : String → Bool
unfolding basename same_text
is_unsafe slug =
    let text = codes slug in
    not (same_text text (basename text))
    || same_text text (codes "")
    || same_text text (codes ".")
    || same_text text (codes "..")

unfoldable pub after_read : Host → Read → Result DateError WakeLockDecision
unfolding decision decide
after_read h file_not_found = ok (decision absent "" "" "" "")
after_read h (read_fault e) = ok (decision unreadable (String.◌++◌ "unreadable: " e) e "" "")
after_read h (content raw) = decide h raw

unfoldable pub inspect : Host → String → Result DateError WakeLockDecision
unfolding decision is_unsafe after_read
inspect h slug =
    if is_unsafe slug
    then ok (decision unreadable (String.◌++◌ "unsafe slug " (h.repr slug)) "unsafe-slug" "" "")
    else after_read h (h.read h.lock_dir (String.◌++◌ slug ".lock"))
