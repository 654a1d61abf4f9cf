-- ===== src/Models/Keys.antt =====
-- What can be read back from a dedup key (models.py).
use Prim.Native.Char.{Char}
use Prim.Native.String
use Prim.Native.String.append
use basecradle_router.Base.{String, ◌≡◌, ◌≢◌, refl, ap, sym, ◌∙◌}
use basecradle_router.Models.{Event, dedup_key}

abbrev colon : Char
colon = ":"

-- No colon in a text.
abbrev pub NoColon : String → Type 0
NoColon String.[] = Unit
NoColon (String.◌∷◌ c s) = (c ≢ colon) × NoColon s

-- `a ++ ":" ++ s`, as it computes
glue : String → String → String
glue String.[] s = String.◌∷◌ colon s
glue (String.◌∷◌ c a) s = String.◌∷◌ c (glue a s)

append-glue : (a s : String) → String.◌++◌ a (String.◌++◌ ":" s) ≡ glue a s
unfolding glue
append-glue String.[] s =
    append.nil _ ∙ append.cons colon String.[] s ∙ ap (String.◌∷◌ colon) (append.nil s)
append-glue (String.◌∷◌ c a) s = append.cons c a _ ∙ ap (String.◌∷◌ c) (append-glue a s)

glue_injective :
    (a b s t : String) → NoColon a → NoColon b → glue a s ≡ glue b t → (a ≡ b) × (s ≡ t)
unfolding glue
glue_injective String.[] String.[] s t ha hb e = (refl, cc)
glue_injective String.[] (String.◌∷◌ d b) s t ha hb e = absurd (hb.0 (cc))
glue_injective (String.◌∷◌ c a) String.[] s t ha hb e = absurd (ha.0 (cc))
glue_injective (String.◌∷◌ c a) (String.◌∷◌ d b) s t ha hb e =
    let (same, rest) = glue_injective a b s t ha.1 hb.1 (cc) in (cc, rest)

-- Two events have the same dedup key only if they have the same source, the same recipient value
-- and the same delivery id, provided that no source and no recipient value holds a colon.
pub dedup_key_injective :
    (e f : Event)
    → NoColon e.source
    → NoColon f.source
    → NoColon e.recipient.value
    → NoColon f.recipient.value
    → dedup_key e ≡ dedup_key f
    → (e.source ≡ f.source)
      × (e.recipient.value ≡ f.recipient.value)
      × (e.delivery_id ≡ f.delivery_id)
unfolding dedup_key
dedup_key_injective e f se sf re rf h =
    let (sources, rest) =
      glue_injective _ _ _ _ se sf (sym (append-glue e.source _) ∙ h ∙ append-glue f.source _) in
    let (values, ids) =
      glue_injective _ _ _ _ re rf
        (sym (append-glue e.recipient.value _) ∙ rest ∙ append-glue f.recipient.value _) in
    (sources, values, ids)
