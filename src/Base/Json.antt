-- ===== src/Base/Json.antt =====
-- JSON as `json.loads` gives it. A number that is no integer is opaque.
use basecradle_router.Base.Integer.{ℤ}
use Prim.Native.String.{String}
use mathlib.Core.Bool.{Bool, true, false, ◌||◌}
use mathlib.Core.Logic.{ite}
use mathlib.Core.List.{List, [], ◌∷◌}
use mathlib.Core.Option.{Option, none, some}
use basecradle_router.Base.Text.{string_discrete}

mutual
  pub data Json : Type 0 where
    null : Json
    boolean : Bool → Json
    integer : ℤ → Json
    other_number : Json
    string : String → Json
    array : Items → Json
    object : Fields → Json

  pub data Items : Type 0 where
    no_items : Items
    item : Json → Items → Items

  pub data Fields : Type 0 where
    no_fields : Fields
    member : String → Json → Fields → Fields

-- `d.get(key)`, where a missing key is `None`, as `null` is.
unfoldable pub at : Fields → String → Json
at no_fields key = null
at (member k v rest) key = ite (string_discrete k key) v (at rest key)

-- `isinstance` of `dict`, `list`, `str` and `int` but not `bool`, and `is not None`.
abbrev pub as_object : Json → Option Fields
as_object (object fields) = some fields
as_object _ = none

abbrev pub as_list : Json → Option Items
as_list (array items) = some items
as_list _ = none

abbrev pub as_text : Json → Option String
as_text (string s) = some s
as_text _ = none

abbrev pub as_integer : Json → Option ℤ
as_integer (integer n) = some n
as_integer _ = none

abbrev pub is_null : Json → Bool
is_null null = true
is_null _ = false

abbrev pub is_true : Json → Bool
is_true (boolean true) = true
is_true _ = false

-- `value == text`, and `value in texts`
unfoldable pub is_text : String → Json → Bool
is_text s (string t) = ite (string_discrete t s) true false
is_text s _ = false

unfoldable pub is_one_of : List String → Json → Bool
unfolding is_text
is_one_of [] v = false
is_one_of (s ∷ ss) v = is_text s v || is_one_of ss v

-- `obj.get(key)` of what may be no object, once that is known to be asked of an object or of nothing.
abbrev pub at_object : Option Fields → String → Json
at_object none key = null
at_object (some fields) key = at fields key

-- The items of a list that pass a test and give something.
unfoldable pub collect_items {ℓ} : {A : Type ℓ} → (Json → Option A) → Items → List A
collect_items f no_items = []
collect_items f (item v rest) =
    let others = collect_items f rest in elim (f v) [ none ↦ others | some a ↦ a ∷ others ]

unfoldable pub any_item : (Json → Bool) → Items → Bool
any_item p no_items = false
any_item p (item v rest) = p v || any_item p rest
