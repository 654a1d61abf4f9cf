-- ===== src/Routes/Signature.antt =====
-- What a verified signature says (routes/base.py).
use Prim.Native.String
use Prim.Native.String.append
use Prim.Native.Char.{code}
use basecradle_router.Base.{
  ℕ, ◌≡◌, ◌↔◌, ◌∙◌, refl, sym, ap, String, true, Option, none, some, List, [], ◌∷◌, ◌++◌,
  Bool-cases, codes, if_pos, if_neg, string_discrete, arith, Option-cases, inl, inr,
}
use basecradle_router.Base.Result.{ok}
use basecradle_router.Routes.{
  Platform, starts_with, InboundRequest, header, hmac_prefix, check_signature, check_header,
  verify_hmac_sha256,
}

pub codes-append : (a b : String) → codes (String.◌++◌ a b) ≡ codes a ++ codes b
codes-append String.[] b = ap codes (append.nil b)
codes-append (String.◌∷◌ c a) b =
    ap codes (append.cons c a b) ∙ ap (◌∷◌ (code c)) (codes-append a b)

starts_with-append : (p t : List ℕ) → starts_with p (p ++ t) ≡ true
starts_with-append [] t = refl
starts_with-append (c ∷ p) t = ground (arith, starts_with-append p t)

-- The value that signs a body under a key.
abbrev pub signature : Platform → String → String → String
signature p key body = String.◌++◌ hmac_prefix (p.hmac_sha256_hex key body)

check_signature_iff :
    (p : Platform) (key body provided : String)
    → (check_signature p key body provided ≡ ok tt) ↔ (provided ≡ signature p key body)
unfolding check_signature
check_signature_iff p key body provided = (
  λ e. elim (Bool-cases (starts_with (codes hmac_prefix) (codes provided))) [
    | inl prefixed ↦ elim (string_discrete provided (signature p key body)) [
      | yes same ↦ same
      | no other ↦ absurd (let clash = rw (prefixed, if_neg _ other) at e in cc)
    ]
    | inr bare ↦ absurd (let clash = rw bare at e in cc)
  ],
  λ same.
      let prefixed : starts_with (codes hmac_prefix) (codes provided) ≡ true =
        ap (λ s. starts_with (codes hmac_prefix) (codes s)) same
        ∙ ap (starts_with (codes hmac_prefix))
            (codes-append hmac_prefix (p.hmac_sha256_hex key body))
        ∙ starts_with-append (codes hmac_prefix) (codes (p.hmac_sha256_hex key body)) in
      rw (prefixed, if_pos _ same) refl,
)

-- A request verifies exactly if there is a key, and the named header is there and is the prefix with
-- the HMAC of the body under that key. Without a key, nothing verifies.
pub verify_hmac_sha256_iff :
    (p : Platform) (request : InboundRequest) (secret : Option String) (name : String)
    → (verify_hmac_sha256 p request secret name ≡ ok tt) ↔ (
        (key : String) × (secret ≡ some key)
        × (header p name request ≡ some (signature p key request.body)))
unfolding verify_hmac_sha256
verify_hmac_sha256_iff p request none name =
    ((λ e. absurd (cc)), (λ h. let (key, absent, there) = h in absurd (cc)))
verify_hmac_sha256_iff p request (some key) name = (
  λ e. elim (Option-cases (header p name request)) [
    | inl missing ↦ absurd (let clash = rw missing at e in unfold check_header in cc)
    | inr (provided, there) ↦
        let checked : check_signature p key request.body provided ≡ ok tt =
          unfold check_header in rw there at e in
        (key, refl, there ∙ ap some ((check_signature_iff p key request.body provided).0 checked))
  ],
  λ h.
      let (other, same, there) = h in
      let keys : key ≡ other = cc in
      rw there (
        unfold check_header in
        (check_signature_iff p key request.body _).1
          (ap (λ k. signature p k request.body) (sym keys))),
)
