-- ===== src/Marker/Shape.antt =====
-- The markers that are recognised, and the nonce of each (marker.py).
use basecradle_router.Base.{
  ℕ, ◌≤◌, ◌≡◌, ◌∙◌, ◌↔◌, refl, ap, Bool, true, false, some, List, [], ◌∷◌, ◌++◌, length, codes,
  arith, Option-cases, inl, inr,
}
use basecradle_router.Marker.{
  is_nonce_char, is_hex_char, all_chars, after, span, match_tail, match_scheme, nonce_of,
}

-- The scheme, a nonce and a digest, spelled as one line.
abbrev pub marker : List ℕ → List ℕ → List ℕ
marker nonce digest = codes "BCNOC1 " ++ nonce ++ b' ' ∷ digest

-- A nonce of 1 to 128 safe characters and a digest of 64 hexadecimal digits.
pub record IsParts (nonce digest : List ℕ) : Type 0 where
  pub nonce_chars : all_chars is_nonce_char nonce ≡ true
  pub some_nonce : 1 ≤ length nonce
  pub short_nonce : length nonce ≤ 128
  pub digest_chars : all_chars is_hex_char digest ≡ true
  pub digest_length : length digest ≡ 64

after-append : (p v : List ℕ) → after p (p ++ v) ≡ some v
unfolding after
after-append [] v = refl
after-append (c ∷ p) v = ground (arith, after-append p v)

after-some : (p v rest : List ℕ) → after p v ≡ some rest → v ≡ p ++ rest
unfolding after
after-some [] v rest e = cc
after-some (c ∷ p) [] rest e = absurd (cc)
after-some (c ∷ p) (d ∷ v) rest e = ground (arith, after-some p v rest)

module _ (p : ℕ → Bool) where
  span-append :
      (n : List ℕ) (c : ℕ) (v : List ℕ)
      → all_chars p n ≡ true
      → p c ≡ false
      → span p (n ++ c ∷ v) ≡ (n, c ∷ v)
  unfolding span all_chars
  span-append [] c v h out = ground arith
  span-append (d ∷ n) c v h out = ground (arith, span-append n c v)

  span-split : (v : List ℕ) → (v ≡ (span p v).0 ++ (span p v).1) × (all_chars p (span p v).0 ≡ true)
  unfolding span all_chars
  span-split [] = (refl, refl)
  span-split (c ∷ v) =
      let (whole, passed) = span-split v in (ground (arith, whole), ground (arith, passed))

space_outside : is_nonce_char b' ' ≡ false
unfolding is_nonce_char
space_outside = refl

nonce_of-marker :
    (nonce digest : List ℕ) → IsParts nonce digest → nonce_of (marker nonce digest) ≡ some nonce
unfolding nonce_of
nonce_of-marker nonce digest h =
    ap match_scheme (after-append (codes "BCNOC1 ") (nonce ++ b' ' ∷ digest))
    ∙ unfold match_scheme in
      ap match_tail (span-append is_nonce_char nonce b' ' digest h.nonce_chars space_outside)
      ∙ unfold match_tail in
        ground (arith, h.some_nonce, h.short_nonce, h.digest_chars, h.digest_length)

match_tail-some :
    (nonce rest n : List ℕ)
    → match_tail (nonce, rest) ≡ some n
    → (digest : List ℕ) × (rest ≡ b' ' ∷ digest)
      × (nonce ≡ n)
      × (1 ≤ length nonce)
      × (length nonce ≤ 128)
      × (length digest ≡ 64)
      × (all_chars is_hex_char digest ≡ true)
unfolding match_tail
match_tail-some nonce [] n e = absurd (cc)
match_tail-some nonce (c ∷ digest) n e =
    (digest, ground arith, ground arith, ground arith, ground arith, ground arith, ground arith)

nonce_of-some :
    (value rest n : List ℕ)
    → after (codes "BCNOC1 ") value ≡ some rest
    → match_scheme (some rest) ≡ some n
    → (digest : List ℕ) × (value ≡ marker n digest) × IsParts n digest
unfolding match_scheme
nonce_of-some value rest n scheme e =
    let (whole, passed) = span-split is_nonce_char rest in
    let (digest, tail, same, some_nonce, short_nonce, digest_length, digest_chars) =
      match_tail-some (span is_nonce_char rest).0 (span is_nonce_char rest).1 n e in
    (
      digest,
      after-some (codes "BCNOC1 ") value rest scheme
          ∙ ap (λ r. codes "BCNOC1 " ++ r)
              (whole
                ∙ ap (λ l. (span is_nonce_char rest).0 ++ l) tail
                ∙ ap (λ l. l ++ b' ' ∷ digest) same),
      record {
        nonce_chars = rw (← same) passed;
        some_nonce = rw (← same) some_nonce;
        short_nonce = rw (← same) short_nonce;
        digest_chars = digest_chars;
        digest_length = digest_length;
      },
    )

-- A text is read as a marker with a nonce exactly if it is the scheme, that nonce and a digest on one
-- line, each of the shape it must have, and nothing before, between or after them.
pub nonce_of_iff :
    (value n : List ℕ)
    → (nonce_of value ≡ some n) ↔ ((digest : List ℕ) × (value ≡ marker n digest) × IsParts n digest)
unfolding nonce_of
nonce_of_iff value n = (
  λ e. elim (Option-cases (after (codes "BCNOC1 ") value)) [
    | inl missing ↦ absurd (let clash = rw missing at e in unfold match_scheme in cc)
    | inr (rest, scheme) ↦ nonce_of-some value rest n scheme (rw scheme at e)
  ],
  λ h. let (digest, spelled, parts) = h in ap nonce_of spelled ∙ nonce_of-marker n digest parts,
)
