-- ===== src/Logfmt/Rendered.antt =====
-- The shape of a rendered value (logfmt.py).
use basecradle_router.Base.{
  ℕ, ◌≡◌, inl, inr, refl, Bool, true, not, ◌&&◌, ◌||◌, List, [], ◌∷◌, ◌++◌, ◌==◌, if◌then◌else◌,
  arith, Bool-cases,
}
use basecradle_router.Models.{is_space}
use basecradle_router.Logfmt.{
  is_control, flatten, push, drop_empty, pieces, words, join, has, swap_quotes, quote, render_text,
}

-- What may stand in a line: a space, or a character that is neither whitespace nor a control.
abbrev pub is_plain : ℕ → Bool
is_plain c = c == b' ' || not (is_space c || is_control c)

abbrev pub all_plain : List ℕ → Bool
all_plain [] = true
all_plain (c ∷ cs) = is_plain c && all_plain cs

-- Every word of the text holds no whitespace and, after flattening, no control.
abbrev solid : ℕ → Bool
solid c = not (is_space c || is_control c)

abbrev all_solid : List ℕ → Bool
all_solid [] = true
all_solid (c ∷ cs) = solid c && all_solid cs

abbrev words_solid : List (List ℕ) → Bool
words_solid [] = true
words_solid (w ∷ ws) = all_solid w && words_solid ws

space_is_space : is_space b' ' ≡ true
unfolding is_space
space_is_space = refl

pieces_solid : (t : List ℕ) → words_solid (pieces (flatten t)) ≡ true
unfolding pieces flatten
pieces_solid [] = refl
pieces_solid (c ∷ cs) = go (pieces (flatten cs)) (pieces_solid cs)
  where
    go :
        (ws : List (List ℕ))
        → words_solid ws ≡ true
        → words_solid (
            if is_space (if is_control c then b' ' else c)
            then [] ∷ ws
            else push (if is_control c then b' ' else c) ws)
          ≡ true
    go [] h = ground (arith, space_is_space, h)
    go (w ∷ ws) h = ground (arith, space_is_space, h)

drop_empty_solid : (ws : List (List ℕ)) → words_solid ws ≡ true → words_solid (drop_empty ws) ≡ true
drop_empty_solid [] h = refl
drop_empty_solid ([] ∷ ws) h = drop_empty_solid ws (ground (arith, h))
drop_empty_solid ((c ∷ w) ∷ ws) h = ground (arith, h, drop_empty_solid ws)

all_plain-append :
    (u v : List ℕ) → all_plain u ≡ true → all_plain v ≡ true → all_plain (u ++ v) ≡ true
all_plain-append [] v h k = k
all_plain-append (c ∷ u) v h k = ground (arith, h, all_plain-append u v)

solid_plain : (w : List ℕ) → all_solid w ≡ true → all_plain w ≡ true
solid_plain [] h = refl
solid_plain (c ∷ w) h = ground (arith, h, solid_plain w)

join_plain : (ws : List (List ℕ)) → words_solid ws ≡ true → all_plain (join ws) ≡ true
unfolding join
join_plain [] h = refl
join_plain (w ∷ []) h = ground (arith, h, solid_plain w)
join_plain (w ∷ v ∷ ws) h =
    all_plain-append w (b' ' ∷ join (v ∷ ws)) (ground (arith, h, solid_plain w))
      (ground (arith, h, join_plain (v ∷ ws)))

apostrophe_plain : is_plain 0x27 ≡ true
unfolding is_space is_control
apostrophe_plain = refl

quote_plain : is_plain 0x22 ≡ true
unfolding is_space is_control
quote_plain = refl

swap_quotes_plain : (t : List ℕ) → all_plain t ≡ true → all_plain (swap_quotes t) ≡ true
unfolding swap_quotes
swap_quotes_plain [] h = refl
swap_quotes_plain (c ∷ cs) h = ground (arith, h, apostrophe_plain, swap_quotes_plain cs)

-- A value is rendered on one line: it holds no control character, and no whitespace but the space.
pub render_text-all_plain : (t : List ℕ) → all_plain (render_text t) ≡ true
unfolding render_text quote words
render_text-all_plain t =
    let flat : List ℕ = join (words (flatten t)) in
    let clean : all_plain flat ≡ true =
      join_plain (words (flatten t)) (drop_empty_solid (pieces (flatten t)) (pieces_solid t)) in
    elim (Bool-cases (has b' ' flat || has b'=' flat || has 0x22 flat)) [
      | inl needed ↦ rw needed (
          ground (
            arith,
            quote_plain,
            all_plain-append (swap_quotes flat) (0x22 ∷ []) (swap_quotes_plain flat clean),
          ))
      | inr bare ↦ rw bare clean
    ]
