-- ===== src/Logfmt/Paint.antt =====
-- What a terminal makes of a painted token (logfmt.py).
use basecradle_router.Base.{
  ℕ, ◌≡◌, ◌∙◌, refl, sym, ap, String, Bool, false, Option, none, some, List, [], ◌∷◌, ◌++◌, map,
  ◌==◌, if◌then◌else◌, codes, get, string_discrete, Bool-cases, inl, inr,
}
use mathlib.Core.List.{append-nil}
use basecradle_router.Logfmt.{has, Colour, green, blue, yellow, red, reset, palette, painted, paint}

-- The pen after an escape sequence: `0` puts the default pen back, any other code is the pen.
abbrev is_default : List ℕ → Bool
is_default (a ∷ b ∷ []) = if a == b'[' then b == b'0' else false
is_default _ = false

abbrev pub new_pen : List ℕ → List ℕ
new_pen sequence = if is_default sequence then [] else sequence

-- A terminal: the escape sequence it is reading, if any, its pen, and the input; it gives each letter
-- with the pen it is written in, and the pen at the end.
unfoldable pub terminal : Option (List ℕ) → List ℕ → List ℕ → List (ℕ × List ℕ) × List ℕ
terminal _ pen [] = ([], pen)
terminal none pen (c ∷ cs) =
    let escaped = terminal (some []) pen cs in
    let (letters, end) = terminal none pen cs in
    if c == 0x1b then escaped else ((c, pen) ∷ letters, end)
terminal (some sequence) pen (c ∷ cs) =
    let ended = terminal none (new_pen sequence) cs in
    let longer = terminal (some (sequence ++ c ∷ [])) pen cs in if c == b'm' then ended else longer

-- The pen of a colour: its SGR code.
abbrev pub pen_of : Option Colour → List ℕ
pen_of none = []
pen_of (some green) = codes "[32"
pen_of (some blue) = codes "[34"
pen_of (some yellow) = codes "[33"
pen_of (some red) = codes "[31"

abbrev pub written : List ℕ → List ℕ → List (ℕ × List ℕ)
written pen = map (λ c. (c, pen))

terminal-append :
    (pen t rest : List ℕ)
    → has 0x1b t ≡ false
    → terminal none pen (t ++ rest)
      ≡ (written pen t ++ (terminal none pen rest).0, (terminal none pen rest).1)
unfolding terminal has
terminal-append pen [] rest h = refl
terminal-append pen (c ∷ t) rest h = elim (Bool-cases (c == 0x1b)) [
  | inl escape ↦ absurd (let clash = rw escape at h in cc)
  | inr plain ↦ rw (plain, terminal-append pen t rest (rw plain at h)) refl
]

terminal-painted :
    (t : List ℕ) (o : Option Colour)
    → has 0x1b t ≡ false
    → terminal none [] (painted t o) ≡ (written (pen_of o) t, [])
unfolding terminal
terminal-painted t none h =
    ap (terminal none []) (sym (append-nil t))
    ∙ terminal-append [] t [] h
    ∙ ap (λ l. (l, [])) (append-nil (written [] t))
terminal-painted t (some green) h =
    terminal-append (pen_of (some green)) t reset h
    ∙ ap (λ l. (l, [])) (append-nil (written (pen_of (some green)) t))
terminal-painted t (some blue) h =
    terminal-append (pen_of (some blue)) t reset h
    ∙ ap (λ l. (l, [])) (append-nil (written (pen_of (some blue)) t))
terminal-painted t (some yellow) h =
    terminal-append (pen_of (some yellow)) t reset h
    ∙ ap (λ l. (l, [])) (append-nil (written (pen_of (some yellow)) t))
terminal-painted t (some red) h =
    terminal-append (pen_of (some red)) t reset h
    ∙ ap (λ l. (l, [])) (append-nil (written (pen_of (some red)) t))

-- A terminal with its default pen writes a painted token as the token's letters, every one of them
-- in the SGR code of the palette's colour for the token, or in the default pen if the palette does
-- not name it, and has its default pen again after it; provided that the token holds no escape
-- character of its own.
pub terminal-paint :
    (token : String)
    → has 0x1b (codes token) ≡ false
    → terminal none [] (paint token)
      ≡ (written (pen_of (get string_discrete token palette)) (codes token), [])
unfolding paint
terminal-paint token h = terminal-painted (codes token) (get string_discrete token palette) h
