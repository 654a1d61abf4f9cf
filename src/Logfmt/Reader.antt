-- ===== src/Logfmt/Reader.antt =====
-- A reader of log lines, which looks for fields outside quoted values by counting quotes, and what
-- it reads back from a rendered line (logfmt.py).
use basecradle_router.Base.{
  ℕ, ◌≡◌, ◌∙◌, inl, inr, refl, sym, ap, subst, Bool, true, false, not, ◌&&◌, ◌||◌, List, [], ◌∷◌,
  ◌++◌, All, All-map, map, ◌==◌, if◌then◌else◌, arith, Bool-cases,
}
use mathlib.Core.List.{append_assoc, append-nil}
use basecradle_router.Models.{is_empty}
use basecradle_router.Logfmt.{
  flatten, push, pieces, words, join, has, swap_quotes, Value, none_value, boolean, text, quote,
  render_text, spell, render_value, parts, log_fields,
}

-- The tokens of a line: it is cut at each space before which the quotes are even in number.
unfoldable pub scan : Bool → List ℕ → List (List ℕ)
scan quoted [] = [] ∷ []
scan quoted (c ∷ cs) =
    let rest = scan (if c == 0x22 then not quoted else quoted) cs in
    if c == b' ' && not quoted then [] ∷ rest else push c rest

-- A token up to its first `=`, and what follows.
unfoldable pub cut : List ℕ → List ℕ × List ℕ
cut [] = ([], [])
cut (c ∷ cs) = let (before, after) = cut cs in if c == b'=' then ([], cs) else (c ∷ before, after)

unfoldable pub drop_last : List ℕ → List ℕ
drop_last [] = []
drop_last (c ∷ []) = []
drop_last (c ∷ d ∷ cs) = c ∷ drop_last (d ∷ cs)

unfoldable pub unquote : List ℕ → List ℕ
unfolding drop_last
unquote [] = []
unquote (c ∷ cs) = if c == 0x22 then drop_last cs else c ∷ cs

unfoldable pub read_token : List ℕ → List ℕ × List ℕ
unfolding cut unquote
read_token token = let (key, value) = cut token in (key, unquote value)

unfoldable pub read_line : List ℕ → List (List ℕ × List ℕ)
unfolding scan read_token
read_line line = if is_empty line then [] else map read_token (scan false line)

-- A key that is a name: no space, no equals sign and no quote.
abbrev pub IsKey : List ℕ → Type 0
IsKey k = (has b' ' k ≡ false) × (has b'=' k ≡ false) × (has 0x22 k ≡ false)

-- What a value says: its text on one line, with its double quotes turned.
unfoldable pub said : List ℕ → List ℕ
said t = swap_quotes (join (words (flatten t)))

prepend : List ℕ → List (List ℕ) → List (List ℕ)
prepend [] ws = ws
prepend (c ∷ w) ws = push c (prepend w ws)

prepend-append :
    (u v : List ℕ) (ws : List (List ℕ)) → prepend (u ++ v) ws ≡ prepend u (prepend v ws)
unfolding prepend
prepend-append [] v ws = refl
prepend-append (c ∷ u) v ws = ap (push c) (prepend-append u v ws)

prepend_nil : (w : List ℕ) (ws : List (List ℕ)) → prepend w ([] ∷ ws) ≡ w ∷ ws
unfolding prepend
prepend_nil [] ws = refl
prepend_nil (c ∷ w) ws = rw (prepend_nil w ws) refl

scan_bare :
    (w rest : List ℕ)
    → has b' ' w ≡ false
    → has 0x22 w ≡ false
    → scan false (w ++ rest) ≡ prepend w (scan false rest)
unfolding scan has prepend
scan_bare [] rest s q = refl
scan_bare (c ∷ w) rest s q = ground (arith, scan_bare w rest)

scan_quoted :
    (w rest : List ℕ) → has 0x22 w ≡ false → scan true (w ++ rest) ≡ prepend w (scan true rest)
unfolding scan has prepend
scan_quoted [] rest q = refl
scan_quoted (c ∷ w) rest q = ground (arith, scan_quoted w rest)

has-swap_quotes : (t : List ℕ) → has 0x22 (swap_quotes t) ≡ false
unfolding has swap_quotes
has-swap_quotes [] = refl
has-swap_quotes (c ∷ cs) = ground (arith, has-swap_quotes cs)

swap_quotes_bare : (t : List ℕ) → has 0x22 t ≡ false → swap_quotes t ≡ t
unfolding has swap_quotes
swap_quotes_bare [] h = refl
swap_quotes_bare (c ∷ cs) h = ground (arith, swap_quotes_bare cs)

-- A token that the reader takes whole, whatever follows.
abbrev Whole : List ℕ → Type 0
Whole w = (rest : List ℕ) → scan false (w ++ rest) ≡ prepend w (scan false rest)

Whole-quoted : (b : List ℕ) → has 0x22 b ≡ false → Whole (0x22 ∷ (b ++ 0x22 ∷ []))
unfolding scan prepend
Whole-quoted b free rest = ap (push 0x22) (
    ap (scan true) (append_assoc b (0x22 ∷ []) rest)
    ∙ scan_quoted b (0x22 ∷ rest) free
    ∙ sym (prepend-append b (0x22 ∷ []) (scan false rest)))

Whole-quote : (t : List ℕ) → Whole (quote t)
unfolding quote
Whole-quote t rest = elim (Bool-cases (has b' ' t || has b'=' t || has 0x22 t)) [
  | inl needed ↦ rw needed (Whole-quoted (swap_quotes t) (has-swap_quotes t) rest)
  | inr bare ↦ rw bare (scan_bare t rest (ground (arith, bare)) (ground (arith, bare)))
]

Whole-append : (u v : List ℕ) → Whole u → Whole v → Whole (u ++ v)
Whole-append u v hu hv rest =
    ap (scan false) (append_assoc u v rest)
    ∙ hu (v ++ rest)
    ∙ ap (prepend u) (hv rest)
    ∙ sym (prepend-append u v (scan false rest))

-- `key=value`
abbrev token : List ℕ → List ℕ → List ℕ
token key rendered = key ++ b'=' ∷ rendered

Whole-token : (key t : List ℕ) → IsKey key → Whole (token key (quote t))
unfolding has
Whole-token key t (space, equals, quotes) =
    Whole-append key (b'=' ∷ quote t) (λ rest. scan_bare key rest space quotes)
      (Whole-append (b'=' ∷ []) (quote t) (λ rest. scan_bare (b'=' ∷ []) rest refl refl)
        (Whole-quote t))

scan-join :
    (w : List ℕ) (ws : List (List ℕ)) → All Whole (w ∷ ws) → scan false (join (w ∷ ws)) ≡ w ∷ ws
unfolding join scan
scan-join w [] h = ap (scan false) (sym (append-nil w)) ∙ h.0 [] ∙ prepend_nil w []
scan-join w (v ∷ ws) h =
    h.0 (b' ' ∷ join (v ∷ ws))
    ∙ ap (λ ts. prepend w ([] ∷ ts)) (scan-join v ws h.1)
    ∙ prepend_nil w (v ∷ ws)

cut-token : (key v : List ℕ) → has b'=' key ≡ false → cut (token key v) ≡ (key, v)
unfolding cut has
cut-token [] v h = refl
cut-token (c ∷ key) v h = ground (arith, cut-token key v)

drop_last-snoc : (t : List ℕ) (c : ℕ) → drop_last (t ++ c ∷ []) ≡ t
unfolding drop_last
drop_last-snoc [] c = refl
drop_last-snoc (d ∷ []) c = refl
drop_last-snoc (d ∷ e ∷ t) c = ap (◌∷◌ d) (drop_last-snoc (e ∷ t) c)

unquote_bare : (t : List ℕ) → has 0x22 t ≡ false → unquote t ≡ t
unfolding unquote has
unquote_bare [] h = refl
unquote_bare (c ∷ cs) h = ground arith

unquote-quote : (t : List ℕ) → unquote (quote t) ≡ swap_quotes t
unfolding quote
unquote-quote t = elim (Bool-cases (has b' ' t || has b'=' t || has 0x22 t)) [
  | inl needed ↦ rw needed (unfold unquote in drop_last-snoc (swap_quotes t) 0x22)
  | inr bare ↦
      let free : has 0x22 t ≡ false = ground (arith, bare) in
      rw bare (unquote_bare t free ∙ sym (swap_quotes_bare t free))
]

-- The text of a value, and the fields of a line as they were meant: those whose text is not blank.
abbrev pub text_of : Value → List ℕ
text_of none_value = []
text_of (boolean b) = spell b
text_of (text t) = t

abbrev pub meant : List (List ℕ × Value) → List (List ℕ × List ℕ)
meant [] = []
meant ((key, value) ∷ rest) =
    let others = meant rest in
    if is_empty (said (text_of value)) then others else (key, said (text_of value)) ∷ others

abbrev pub AreKeys : List (List ℕ × Value) → Type 0
AreKeys [] = Unit
AreKeys ((key, value) ∷ rest) = IsKey key × AreKeys rest

is_empty-swap_quotes : (t : List ℕ) → is_empty (swap_quotes t) ≡ is_empty t
unfolding is_empty swap_quotes
is_empty-swap_quotes [] = refl
is_empty-swap_quotes (c ∷ cs) = refl

is_empty-quote : (t : List ℕ) → is_empty (quote t) ≡ is_empty t
unfolding is_empty quote has
is_empty-quote [] = refl
is_empty-quote (c ∷ cs) = ground arith

abbrev flat_of : Value → List ℕ
flat_of v = join (words (flatten (text_of v)))

render_value-quote : (v : Value) → render_value v ≡ quote (flat_of v)
unfolding render_value render_text flatten words pieces join quote has
render_value-quote none_value = refl
render_value-quote (boolean b) = refl
render_value-quote (text t) = refl

is_empty-render_value : (v : Value) → is_empty (render_value v) ≡ is_empty (said (text_of v))
unfolding said
is_empty-render_value v =
    ap is_empty (render_value-quote v)
    ∙ is_empty-quote (flat_of v)
    ∙ sym (is_empty-swap_quotes (flat_of v))

-- A token that the reader takes whole and that is not empty.
abbrev Solid : List ℕ → Type 0
Solid w = Whole w × (is_empty w ≡ false)

token_filled : (key v : List ℕ) → is_empty (token key v) ≡ false
unfolding is_empty
token_filled [] v = refl
token_filled (c ∷ key) v = refl

parts-Solid : (pairs : List (List ℕ × Value)) → AreKeys pairs → All Solid (parts pairs)
unfolding parts
parts-Solid [] h = tt
parts-Solid ((key, value) ∷ rest) h = elim (Bool-cases (is_empty (render_value value))) [
  | inl blank ↦ rw blank (parts-Solid rest h.1)
  | inr filled ↦ rw filled (
    (
      subst (λ r. Whole (token key r)) (sym (render_value-quote value))
          (Whole-token key (flat_of value) h.0),
      token_filled key (render_value value),
    ),
    parts-Solid rest h.1,
  )
]

read_token-token :
    (key : List ℕ) (v : Value)
    → has b'=' key ≡ false
    → read_token (token key (render_value v)) ≡ (key, said (text_of v))
unfolding read_token said
read_token-token key v h = rw (cut-token key (render_value v) h) (
    ap (λ (r : List ℕ). (key, unquote r)) (render_value-quote v)
    ∙ ap (λ (r : List ℕ). (key, r)) (unquote-quote (flat_of v)))

read-parts :
    (pairs : List (List ℕ × Value)) → AreKeys pairs → map read_token (parts pairs) ≡ meant pairs
unfolding parts
read-parts [] h = refl
read-parts ((key, value) ∷ rest) h = elim (Bool-cases (is_empty (render_value value))) [
  | inl blank ↦ rw (blank, sym (is_empty-render_value value) ∙ blank) (read-parts rest h.1)
  | inr filled ↦
      rw (filled, sym (is_empty-render_value value) ∙ filled)
        (rw (read_token-token key value h.0.1)
          (ap (◌∷◌ (key, said (text_of value))) (read-parts rest h.1)))
]

join_filled :
    (w : List ℕ) (ws : List (List ℕ)) → is_empty w ≡ false → is_empty (join (w ∷ ws)) ≡ false
unfolding join is_empty
join_filled [] ws h = absurd (cc)
join_filled (c ∷ w) [] h = refl
join_filled (c ∷ w) (v ∷ ws) h = refl

read_line-join : (ws : List (List ℕ)) → All Solid ws → read_line (join ws) ≡ map read_token ws
unfolding read_line
read_line-join [] h = unfold join in unfold is_empty in refl
read_line-join (w ∷ ws) h =
    rw (join_filled w ws h.0.1)
      (ap (map read_token) (scan-join w ws (All-map Solid Whole (λ v s. s.0) (w ∷ ws) h)))

-- A line whose keys are names is read back, by a reader that finds fields only outside quoted values,
-- as the fields that were meant: each key that has a value with any text in it, in order, with that
-- text on one line and its double quotes turned to single ones. So no value, whatever it holds, can
-- add a field, hide one or change another.
pub read_line-log_fields :
    (pairs : List (List ℕ × Value)) → AreKeys pairs → read_line (log_fields pairs) ≡ meant pairs
unfolding log_fields
read_line-log_fields pairs h =
    read_line-join (parts pairs) (parts-Solid pairs h) ∙ read-parts pairs h
