-- ===== src/Logfmt.antt =====
-- logfmt.py: the one value rule and the one field renderer, over texts as their code points.
pub mod Rendered
pub mod Reader
pub mod Paint
mod Tests
use basecradle_router.Base.{
  ℕ, Bool, true, false, not, ◌&&◌, ◌||◌, Option, none, some, String, List, [], ◌∷◌, ◌++◌, map, leb,
  ◌==◌, if◌then◌else◌, codes, Dict, get, string_discrete,
}
use basecradle_router.Models.{is_space, is_empty}

-- `_CONTROL`
unfoldable pub is_control : ℕ → Bool
is_control c = leb c 0x1f || (leb 0x7f c && leb c 0x9f)

-- `_CONTROL.sub(" ", text)`
unfoldable pub flatten : List ℕ → List ℕ
unfolding is_control
flatten [] = []
flatten (c ∷ cs) = (if is_control c then b' ' else c) ∷ flatten cs

-- A letter put before the first word.
abbrev pub push : ℕ → List (List ℕ) → List (List ℕ)
push c [] = (c ∷ []) ∷ []
push c (w ∷ ws) = (c ∷ w) ∷ ws

abbrev pub drop_empty : List (List ℕ) → List (List ℕ)
drop_empty [] = []
drop_empty ([] ∷ ws) = drop_empty ws
drop_empty ((c ∷ w) ∷ ws) = (c ∷ w) ∷ drop_empty ws

-- The pieces between single whitespace characters.
unfoldable pub pieces : List ℕ → List (List ℕ)
pieces [] = [] ∷ []
pieces (c ∷ cs) = let rest = pieces cs in if is_space c then [] ∷ rest else push c rest

-- `str.split()`
unfoldable pub words : List ℕ → List (List ℕ)
unfolding pieces
words text = drop_empty (pieces text)

-- `" ".join`
unfoldable pub join : List (List ℕ) → List ℕ
join [] = []
join (w ∷ []) = w
join (w ∷ v ∷ ws) = w ++ b' ' ∷ join (v ∷ ws)

-- `c in text`
unfoldable pub has : ℕ → List ℕ → Bool
has c [] = false
has c (d ∷ ds) = d == c || has c ds

-- `text.replace('"', "'")`
unfoldable pub swap_quotes : List ℕ → List ℕ
swap_quotes [] = []
swap_quotes (c ∷ cs) = (if c == 0x22 then 0x27 else c) ∷ swap_quotes cs

-- A value: `None`, a `bool`, or anything else by its `str`.
pub data Value : Type 0 where
  none_value : Value
  boolean : Bool → Value
  text : List ℕ → Value

unfoldable pub quote : List ℕ → List ℕ
unfolding has swap_quotes
quote t = if has b' ' t || has b'=' t || has 0x22 t then 0x22 ∷ (swap_quotes t ++ 0x22 ∷ []) else t

unfoldable pub render_text : List ℕ → List ℕ
unfolding flatten words join quote
render_text t = quote (join (words (flatten t)))

abbrev pub spell : Bool → List ℕ
spell true = codes "true"
spell false = codes "false"

-- `_render_value`
unfoldable pub render_value : Value → List ℕ
unfolding render_text
render_value none_value = []
render_value (boolean b) = render_text (spell b)
render_value (text t) = render_text t

-- The parts of `log_fields`; an empty rendering is dropped.
unfoldable pub parts : List (List ℕ × Value) → List (List ℕ)
unfolding render_value
parts [] = []
parts ((key, value) ∷ rest) =
    let others = parts rest in
    let rendered = render_value value in
    if is_empty rendered then others else (key ++ b'=' ∷ rendered) ∷ others

unfoldable pub log_fields : List (List ℕ × Value) → List ℕ
unfolding parts join
log_fields pairs = join (parts pairs)

-- The colours, as what follows the escape: `[32m` and so on; `RESET` is `[0m`.
pub data Colour : Type 0 where
  green blue yellow red : Colour

abbrev pub sgr : Colour → List ℕ
sgr green = 0x1b ∷ codes "[32m"
sgr blue = 0x1b ∷ codes "[34m"
sgr yellow = 0x1b ∷ codes "[33m"
sgr red = 0x1b ∷ codes "[31m"

abbrev pub reset : List ℕ
reset = 0x1b ∷ codes "[0m"

-- `PALETTE`
abbrev pub palette : Dict String Colour
palette =
    ("event=wake_start", green)
    ∷ ("outcome=ok", green)
    ∷ ("event=breaker_reset", green)
    ∷ ("event=wake_end", blue)
    ∷ ("event=wake_retry", yellow)
    ∷ ("event=wake_refused", yellow)
    ∷ ("event=wake_lock_stale", yellow)
    ∷ ("event=wake_stopped", yellow)
    ∷ ("outcome=stopped", yellow)
    ∷ ("outcome=failed", red)
    ∷ ("outcome=rejected", red)
    ∷ ("event=breaker_tripped", red)
    ∷ ("event=wake_lock_unreadable", red)
    ∷ []

abbrev pub painted : List ℕ → Option Colour → List ℕ
painted token none = token
painted token (some colour) = sgr colour ++ token ++ reset

unfoldable pub paint : String → List ℕ
paint token = painted (codes token) (get string_discrete token palette)
