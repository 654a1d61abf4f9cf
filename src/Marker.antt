-- ===== src/Marker.antt =====
-- marker.py: the shape of a probe's marker, `BCNOC1 <nonce> <hmac>`, as `MARKER_RE` anchors it.
pub mod Shape
mod Tests
use basecradle_router.Base.{
  ℕ, String, Bool, true, false, ◌&&◌, ◌||◌, Option, none, some, List, [], ◌∷◌, length, leb, ◌==◌,
  if◌then◌else◌, codes,
}

-- `[A-Za-z0-9_-]`
unfoldable pub is_nonce_char : ℕ → Bool
is_nonce_char c =
    (leb b'A' c && leb c b'Z')
    || (leb b'a' c && leb c b'z')
    || (leb b'0' c && leb c b'9')
    || c == b'_'
    || c == b'-'

-- `[0-9a-f]`
unfoldable pub is_hex_char : ℕ → Bool
is_hex_char c = (leb b'0' c && leb c b'9') || (leb b'a' c && leb c b'f')

unfoldable pub all_chars : (ℕ → Bool) → List ℕ → Bool
all_chars p [] = true
all_chars p (c ∷ cs) = p c && all_chars p cs

-- What follows a prefix that must stand first.
unfoldable pub after : List ℕ → List ℕ → Option (List ℕ)
after [] cs = some cs
after (p ∷ ps) [] = none
after (p ∷ ps) (c ∷ cs) = let rest = after ps cs in if p == c then rest else none

-- The longest start of a text whose characters pass, and the rest.
unfoldable pub span : (ℕ → Bool) → List ℕ → List ℕ × List ℕ
span p [] = ([], [])
span p (c ∷ cs) = let (taken, left) = span p cs in if p c then (c ∷ taken, left) else ([], c ∷ cs)

-- The nonce, a space, and 64 hexadecimal digits to the end. A nonce holds no space, so the longest
-- one is the only one that a space can follow.
unfoldable pub match_tail : List ℕ × List ℕ → Option (List ℕ)
unfolding is_hex_char all_chars
match_tail (nonce, []) = none
match_tail (nonce, c ∷ digest) =
    if c == b' '
      && leb 1 (length nonce)
      && leb (length nonce) 128
      && length digest == 64
      && all_chars is_hex_char digest
    then some nonce
    else none

unfoldable pub match_scheme : Option (List ℕ) → Option (List ℕ)
unfolding is_nonce_char span match_tail
match_scheme none = none
match_scheme (some rest) = match_tail (span is_nonce_char rest)

-- `nonce_of`: the `nonce` group of `MARKER_RE.match`
unfoldable pub nonce_of : List ℕ → Option (List ℕ)
unfolding after match_scheme
nonce_of value = match_scheme (after (codes "BCNOC1 ") value)

unfoldable pub is_marker : List ℕ → Bool
unfolding nonce_of
is_marker value = elim (nonce_of value) [ none ↦ false | some _ ↦ true ]
