-- ===== src/Models.antt =====
-- models.py: the core's vocabulary. An aware `datetime` is an instant, a number of ticks; the
-- `isinstance` checks hold by typing, and a `None` where a text is wanted is `none`.
pub mod Keys
mod Tests
use Prim.Native.String
use basecradle_router.Base.Integer.{ℤ, pos, negsuc, ℤ_discrete, is_positive}
use basecradle_router.Base.{
  ℕ, zero, suc, String, Bool, true, false, not, ◌&&◌, ◌||◌, Option, none, some, List, [], ◌∷◌, leb,
  ◌==◌, codes, if◌then◌else◌,
}
use basecradle_router.Base.Result.{Result, ok, err, ◌>>=◌, ◌>>◌, raise_if}

pub data EventKind : Type 0 where
  handoff platform_event synthetic_probe : EventKind

pub data WakeKind : Type 0 where
  claude harness : WakeKind

pub data Error : Type 0 where
  value_error : Error

-- The characters that `str.strip` removes.
unfoldable pub is_space : ℕ → Bool
is_space c =
    (leb 9 c && leb c 13)
    || (leb 28 c && leb c 32)
    || c == 0x85
    || c == 0xa0
    || c == 0x1680
    || (leb 0x2000 c && leb c 0x200a)
    || c == 0x2028
    || c == 0x2029
    || c == 0x202f
    || c == 0x205f
    || c == 0x3000

-- `not value.strip()`
pub all_space : List ℕ → Bool
unfolding is_space
all_space [] = true
all_space (c ∷ cs) = is_space c && all_space cs

unfoldable pub require : String → Result Error Unit
unfolding all_space is_space
require value = raise_if (all_space (codes value)) value_error

unfoldable pub require_some : Option String → Result Error Unit
unfolding require
require_some none = err value_error
require_some (some value) = require value

-- `value.partition("/")`: what stands before the first slash, and what stands after it
unfoldable pub partition_slash : List ℕ → List ℕ × List ℕ
partition_slash [] = ([], [])
partition_slash (c ∷ cs) =
    let (before, after) = partition_slash cs in if c == b'/' then ([], cs) else (c ∷ before, after)

unfoldable pub has_slash : List ℕ → Bool
has_slash [] = false
has_slash (c ∷ cs) = c == b'/' || has_slash cs

unfoldable pub is_empty : List ℕ → Bool
is_empty [] = true
is_empty (c ∷ cs) = false

unfoldable pub require_repo : String → Result Error Unit
unfolding require partition_slash has_slash is_empty
require_repo value = do
  require value
  let (owner, name) = partition_slash (codes value)
  raise_if (is_empty owner || is_empty name || has_slash name) value_error

pub record IssueRef : Type 0 where
  pub repo : String
  pub number : ℤ
  pub url : String
  pub title : String

unfoldable pub IssueRef_post_init : IssueRef → Result Error Unit
unfolding require require_repo
IssueRef_post_init r = do
  require_repo r.repo
  raise_if (not (is_positive r.number)) value_error
  require r.url
  require r.title

pub record Recipient : Type 0 where
  pub by : String
  pub value : String

unfoldable pub Recipient_post_init : Recipient → Result Error Unit
unfolding require
Recipient_post_init r = do require r.by; require r.value

pub record Agent : Type 0 where
  pub key : String
  pub os_user : String
  pub clone_path : String
  pub wake_kind : WakeKind
  pub bot_slug : Option String
  pub recipient_uuid : Option String
  pub wake_bin : Option String

require_kind : Agent → WakeKind → Result Error Unit
require_kind a claude = require_some a.bot_slug
require_kind a harness = do require_some a.wake_bin; require_some a.recipient_uuid

unfoldable pub Agent_post_init : Agent → Result Error Unit
unfolding require require_some require_kind
Agent_post_init a = do
  require a.key
  require a.os_user
  require a.clone_path
  require_kind a a.wake_kind

abbrev pub harness_key : Agent → String
harness_key a = a.os_user

pub record Event : Type 0 where
  pub source : String
  pub kind : EventKind
  pub recipient : Recipient
  pub wake_arg : String
  pub delivery_id : String
  pub origin : Option IssueRef
  pub occurred_at : Option ℕ
  pub event_type : Option String

require_if_some : Option String → Result Error Unit
require_if_some none = ok tt
require_if_some (some value) = require value

unfoldable pub Event_post_init : Event → Result Error Unit
unfolding require require_if_some
Event_post_init e = do
  require e.source
  require e.wake_arg
  require e.delivery_id
  require_if_some e.event_type

-- membership in `_SYNTHETIC_KINDS`
is_synthetic : EventKind → Bool
is_synthetic synthetic_probe = true
is_synthetic _ = false

unfoldable pub synthetic : Event → Bool
unfolding is_synthetic
synthetic e = is_synthetic e.kind

unfoldable pub dedup_key : Event → String
dedup_key e =
    String.◌++◌ e.source
      (String.◌++◌ ":" (String.◌++◌ e.recipient.value (String.◌++◌ ":" e.delivery_id)))

unfoldable pub stream_key : Event → String
stream_key e = elim e.origin [ none ↦ e.wake_arg | some origin ↦ origin.url ]
